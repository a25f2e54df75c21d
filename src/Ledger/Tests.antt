-- ===== src/Ledger/Tests.antt =====
-- Tests of src/ledger/in-memory-ledger.ts on a small ledger, and the theorems at work on it.
use Prim.Native.String.{String}
use coin_manage.Base.{
  ℕ, zero, suc, true, none, some, ◌≡◌, refl, List, [], ◌∷◌, arith, ◌++◌, All, str_length,
}
use coin_manage.Base.Int.{◌+ℤ◌, pos, ◌≤ℤ◌}
use coin_manage.Base.Map.{lookup, insert, values, lookup-insert_self}
use coin_manage.Money.{sum_big_int}
use coin_manage.Contracts.{
  Host, build_deposit_state_changed_contract, build_withdrawal_state_changed_contract,
}
use coin_manage.Ledger.Types.Events.{OutboxEvent, OutboxStatus, Payload}
use coin_manage.Ledger.Types.Funds.{ActorType, Withdrawal}
use coin_manage.Ledger.State.{InMemoryLedger}
use coin_manage.Ledger.Deposits.{DepositInput, apply_deposit}
use coin_manage.Ledger.Requests.{
  WithdrawalInput, request_withdrawal, new_withdrawal, get_daily_requested_withdrawal_amount,
}
use coin_manage.Ledger.Withdrawals.{
  ApprovalInput, broadcasted, approved_by, externally_confirmed, completed_at, failed_for,
  confirm_withdrawal, fail_withdrawal, broadcast_withdrawal, approve_withdrawal,
  confirm_withdrawal_external_auth,
}
use coin_manage.Ledger.Outbox.{
  mark_outbox_event_published, reschedule_outbox_event, dead_letter_outbox_event,
  get_outbox_event_summary,
}
use coin_manage.Ledger.Outbox.Counts.{Settled, get_outbox_event_summary-Settled}
use coin_manage.Ledger.Calls.{Call, perform, run, empty_ledger}
use coin_manage.Ledger.Solvency.{IsSound, IsDistinct}
use coin_manage.Ledger.Solvency.Run.{HasValidAmount, run-IsSound}
use coin_manage.Ledger.Solvency.Settle.{
  announced, confirm_withdrawal-answer, fail_withdrawal-answer,
}
use coin_manage.Ledger.Conservation.{liability, outflow, inflow}
use coin_manage.Ledger.Conservation.Run.{run-balance}
use coin_manage.Ledger.Lifecycle.{approvals_of}
use coin_manage.Ledger.Lifecycle.Status.{Advances}
use coin_manage.Ledger.Lifecycle.Approvals.{HasApprovals, run-IsApproved}
use coin_manage.Ledger.Lifecycle.Limits.{run-daily_limit}
use coin_manage.Ledger.Lifecycle.History.{perform-Advances, run-settled}

-- `n + 1` bars: the n-th id.
unfoldable pub ticks : ℕ → String
ticks zero = String.◌∷◌ "|" ""
ticks (suc n) = String.◌∷◌ "|" (ticks n)

abbrev pub host : Host
host = record {
  limits = record { single_limit = pos 500; daily_limit = pos 800 };
  random_uuid = ticks;
  to_upper_case = λ text. text;
  time_ms = λ iso. pos 0;
  iso_of = λ ms. "1970-01-01T00:00:00.000Z";
  system_id = "coin-manage";
  sign_deposit = λ payload. "signature";
  sign_withdrawal = λ payload. "signature";
  accepts_deposit = λ contract. true;
  accepts_withdrawal = λ contract. true;
}

pub str_length-ticks : (n : ℕ) → str_length (ticks n) ≡ suc n
unfolding ticks str_length
str_length-ticks zero = refl
str_length-ticks (suc n) = ground (arith, str_length-ticks n)

pub ticks-IsDistinct : IsDistinct host
ticks-IsDistinct m n e =
    let q : str_length (ticks m) ≡ str_length (ticks n) = cc e in
    omega (arith, q, str_length-ticks m, str_length-ticks n)

abbrev pub deposit : DepositInput
deposit = record {
  user_id = "ann";
  amount = pos 1_000;
  tx_hash = "0xfeed0001";
  to_address = some "T-hot";
  wallet_address = some "T-ann";
  block_number = 7;
}

abbrev pub request : WithdrawalInput
request = record {
  user_id = "ann";
  amount = pos 300;
  to_address = "T-bob";
  idempotency_key = "key-1";
  risk_level = none;
  risk_score = none;
  risk_flags = none;
  required_approvals = none;
  client_ip = none;
  device_id = none;
}

abbrev pub approval : ApprovalInput
approval = record {
  admin_id = "root";
  actor_type = ActorType.admin;
  reason_code = none;
  note = none;
}

-- The id of the withdrawal: the deposit took three ids, and the transaction one.
abbrev pub id : String
id = "|||||"

abbrev pub today : String
today = "2026-03-12T12:00:00.000Z"

abbrev pub up_to_broadcast : List (String × Call)
up_to_broadcast =
    (today, Call.apply_deposit deposit)
    ∷ (today, Call.request_withdrawal request)
    ∷ (today, Call.confirm_withdrawal_external_auth id "foxya" "auth-1")
    ∷ (today, Call.approve_withdrawal id approval)
    ∷ (today, Call.broadcast_withdrawal id "0xfeed0002")
    ∷ []

abbrev pub up_to_end : List (String × Call)
up_to_end = up_to_broadcast ++ (today, Call.confirm_withdrawal id none) ∷ []

abbrev pub broadcast_state : InMemoryLedger
broadcast_state = run host up_to_broadcast empty_ledger

abbrev pub end_state : InMemoryLedger
end_state = run host up_to_end empty_ledger

valid_calls : All (λ (c : String × Call). HasValidAmount c.1) up_to_end
valid_calls = ground arith

-- The withdrawal as it stands after each list of calls.
abbrev pub sent : Withdrawal
sent = broadcasted "0xfeed0002" today (
    approved_by 1 today
      (externally_confirmed "foxya" "auth-1" today (new_withdrawal request id "||||" today)))

abbrev ended : Withdrawal
ended = completed_at today sent

pub sent_found : lookup id broadcast_state.withdrawals ≡ some sent
unfolding run perform lookup broadcast_withdrawal approve_withdrawal
    confirm_withdrawal_external_auth request_withdrawal apply_deposit
    build_deposit_state_changed_contract ◌+ℤ◌ get_daily_requested_withdrawal_amount sum_big_int
    values insert build_withdrawal_state_changed_contract ticks
sent_found = refl

end_found : lookup id end_state.withdrawals ≡ some ended
unfolding run perform confirm_withdrawal lookup broadcast_withdrawal approve_withdrawal
    confirm_withdrawal_external_auth request_withdrawal apply_deposit
    build_deposit_state_changed_contract ◌+ℤ◌ get_daily_requested_withdrawal_amount sum_big_int
    values insert build_withdrawal_state_changed_contract ticks
end_found = refl

broadcast_state-IsSound : IsSound host broadcast_state
broadcast_state-IsSound = run-IsSound host up_to_broadcast ticks-IsDistinct (ground arith)

run-IsSound_example : IsSound host end_state
run-IsSound_example = run-IsSound host up_to_end ticks-IsDistinct valid_calls

run-balance_example : liability end_state +ℤ outflow end_state ≡ inflow end_state
run-balance_example = run-balance host up_to_end ticks-IsDistinct valid_calls

perform-Advances_example :
    (w : Withdrawal) × (lookup id
        (perform host today (Call.confirm_withdrawal id none) broadcast_state).withdrawals
      ≡ some w)
    × Advances sent w
perform-Advances_example =
    perform-Advances host ticks-IsDistinct up_to_broadcast today (Call.confirm_withdrawal id none)
      id sent sent_found

run-settled_example :
    (w : Withdrawal) × (lookup id (run host up_to_broadcast end_state).withdrawals ≡ some w)
    × (w.status ≡ ended.status)
    × (w.amount ≡ ended.amount)
run-settled_example =
    run-settled host ticks-IsDistinct up_to_end up_to_broadcast id ended end_found refl

run-IsApproved_example : HasApprovals ended (approvals_of id end_state)
run-IsApproved_example = run-IsApproved host up_to_end id ended end_found

run-daily_limit_example : get_daily_requested_withdrawal_amount "ann" today end_state ≤ℤ pos 800
run-daily_limit_example =
    run-daily_limit host up_to_end "ann" today ticks-IsDistinct (ground arith) valid_calls

confirm_withdrawal-answer_example :
    ((confirm_withdrawal host id none today broadcast_state).0
      ≡ announced host (completed_at today sent) today)
    × ((confirm_withdrawal host id none today broadcast_state).1.withdrawals
        ≡ insert id (completed_at today sent) broadcast_state.withdrawals)
confirm_withdrawal-answer_example =
    confirm_withdrawal-answer host id today broadcast_state sent broadcast_state-IsSound sent_found
      none refl

fail_withdrawal-answer_example :
    ((fail_withdrawal host id "no reply" today broadcast_state).0
      ≡ announced host (failed_for "no reply" today sent) today)
    × ((fail_withdrawal host id "no reply" today broadcast_state).1.withdrawals
        ≡ insert id (failed_for "no reply" today sent) broadcast_state.withdrawals)
fail_withdrawal-answer_example =
    fail_withdrawal-answer host id today broadcast_state sent broadcast_state-IsSound sent_found
      "no reply" refl

abbrev event : OutboxEvent
event = record {
  outbox_event_id = "event-1";
  event_type = "withdrawal.state.changed";
  aggregate_type = "withdrawal";
  aggregate_id = id;
  payload = Payload.json "{}";
  status = OutboxStatus.processing;
  attempts = 1;
  available_at = today;
  created_at = today;
  processing_started_at = some today;
  published_at = none;
  dead_lettered_at = none;
  dead_letter_acknowledged_at = none;
  dead_letter_acknowledged_by = none;
  dead_letter_note = none;
  dead_letter_category = none;
  incident_ref = none;
  last_error = none;
}

abbrev claimed_state : InMemoryLedger
claimed_state = record end_state { outbox_events = insert "event-1" event end_state.outbox_events }

get_outbox_event_summary-Settled_example :
    let c = get_outbox_event_summary claimed_state in
    Settled c
      (get_outbox_event_summary (mark_outbox_event_published "event-1" today claimed_state).1)
      0
      1
      0
    × Settled c
        (get_outbox_event_summary (reschedule_outbox_event "event-1" "down" today claimed_state).1)
        1
        0
        0
    × Settled c
        (get_outbox_event_summary (dead_letter_outbox_event "event-1" "down" today claimed_state).1)
        0
        0
        1
get_outbox_event_summary-Settled_example =
    get_outbox_event_summary-Settled "event-1" event claimed_state
      (lookup-insert_self "event-1" event end_state.outbox_events) refl today "down" today
