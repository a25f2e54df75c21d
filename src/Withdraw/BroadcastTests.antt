-- ===== src/Withdraw/BroadcastTests.antt =====
-- Approvals, broadcasts and dispatches at work, and the theorems on them.
use coin_manage.Base.{String, str_take, none, some, true, [], ◌∷◌, ◌≡◌, refl}
use coin_manage.Base.Int.{◌+ℤ◌}
use coin_manage.Base.Map.{lookup, insert, values}
use coin_manage.Base.Action.{domain_error, plain_error, ok, err}
use coin_manage.Money.{sum_big_int}
use coin_manage.Contracts.{
  build_deposit_state_changed_contract, build_withdrawal_state_changed_contract,
}
use coin_manage.Ledger.Types.Funds.{Withdrawal, ApprovalDecisionResult}
use coin_manage.Ledger.State.{InMemoryLedger}
use coin_manage.Ledger.Audit.{append_audit_log}
use coin_manage.Ledger.Deposits.{apply_deposit}
use coin_manage.Ledger.Requests.{
  request_withdrawal, new_withdrawal, get_daily_requested_withdrawal_amount,
}
use coin_manage.Ledger.Withdrawals.{
  new_approval, broadcasted, broadcast_withdrawal, approve_withdrawal,
  confirm_withdrawal_external_auth, approved_by, externally_confirmed,
}
use coin_manage.Ledger.Calls.{Call, perform, run, empty_ledger}
use coin_manage.Ledger.Tests.{
  ticks, host, today, id, deposit, request, approval, broadcast_state, sent, sent_found,
}
use coin_manage.Withdraw.Guard.{
  assert_broadcast_allowed, get_hot_wallet_readiness, get_signer_address, failures_of,
}
use coin_manage.Withdraw.Policy.{assert_address_allowed, is_blocked, get_address_policies}
use coin_manage.Ledger.Consumers.{
  append_event_consumer_attempt, append_event_consumer_dead_letter,
  upsert_event_consumer_checkpoint, has_succeeded_event_consumer_checkpoint,
}
use coin_manage.Ledger.State.{random_uuid}
use coin_manage.Workers.Consumer.{
  Clock, note_attempt, note_checkpoint, note_dead_letter, give_up, attempts, run as run_consumer,
}
use coin_manage.Withdraw.Queue.{JobKind, new_job, enqueue_dispatch, enqueue_external_sync}
use coin_manage.Withdraw.Sync.{
  Publisher, publish_over, publish_async, sync_handler, Ports, WithdrawState, audit,
  consume_withdrawal_state_changed, publish_withdrawal_state_change,
}
use coin_manage.Withdraw.Service.{transfer_request, send, broadcast_current, broadcast}
use coin_manage.Withdraw.Broadcasts.{IsBroadcast, broadcast-unapproved, broadcast-answer}
use coin_manage.Withdraw.Dispatch.{
  Outcome, DispatchAlerts, process_dispatch, dispatch_found, dispatch_approved,
  ensure_hot_wallet_resources,
}
use coin_manage.Withdraw.Dispatches.{SendsApproved, process_dispatch-again, process_dispatch-sends}
use coin_manage.Withdraw.Approval.{ServiceApprovalInput, ledger_input, approve, approve_current}
use coin_manage.Withdraw.Approvals.{IsApproval, approve-IsApproval}
use coin_manage.Withdraw.Tests.{chain, options}

abbrev clock : Clock
clock = record { now_iso = λ attempt. today; duration_ms = λ attempt. 5 }

-- The other system never answers.
abbrev ports : Ports
ports = record {
  host = host;
  chain = chain;
  guard = options;
  network_allowed = none;
  sign = λ request. ok "0xfeed0003";
  publisher = Publisher.in_memory (λ at. clock) (λ contract. "digest");
  external_sync = some (λ at contract. err (plain_error "no reply"));
  notify_approved = λ decision. ok tt;
  notify_sync_failed = λ withdrawal_id message. ok tt;
  zod_message = "";
}

abbrev state_of : InMemoryLedger → WithdrawState
state_of ledger = record {
  ledger = ledger;
  queue = record { jobs = []; failed_jobs = [] };
  sent = [];
}

sent_allowed : assert_broadcast_allowed chain options sent.to_address (some sent.amount) ≡ ok tt
unfolding assert_broadcast_allowed get_hot_wallet_readiness get_signer_address failures_of
    assert_address_allowed is_blocked get_address_policies values
sent_allowed = refl

broadcast-unapproved_example :
    let (r, t) = broadcast ports today id (state_of broadcast_state) in
    (r ≡ err (domain_error 409 "INVALID_STATE" "withdrawal must be admin approved"))
    × (t.sent ≡ transfer_request ports today id sent ∷ [])
    × (t.ledger ≡ broadcast_state)
broadcast-unapproved_example =
    broadcast-unapproved ports today id "0xfeed0003" sent (state_of broadcast_state) sent_found refl
      refl sent_allowed refl

abbrev approved_state : WithdrawState
approved_state = state_of (
    run host
      ((today, Call.apply_deposit deposit)
        ∷ (today, Call.request_withdrawal request)
        ∷ (today, Call.confirm_withdrawal_external_auth id "foxya" "auth-1")
        ∷ (today, Call.approve_withdrawal id approval)
        ∷ [])
      empty_ledger)

abbrev sent_now : Withdrawal
sent_now = broadcasted "0xfeed0003" today (
    approved_by 1 today
      (externally_confirmed "foxya" "auth-1" today (new_withdrawal request id "||||" today)))

broadcast_returned : (broadcast ports today id approved_state).0 ≡ ok (some sent_now)
unfolding run perform lookup broadcast_withdrawal approve_withdrawal
    confirm_withdrawal_external_auth request_withdrawal apply_deposit
    build_deposit_state_changed_contract ◌+ℤ◌ get_daily_requested_withdrawal_amount sum_big_int
    values insert build_withdrawal_state_changed_contract ticks broadcast broadcast_current send
    publish_withdrawal_state_change consume_withdrawal_state_changed audit append_audit_log
    assert_broadcast_allowed get_hot_wallet_readiness get_signer_address failures_of
    assert_address_allowed is_blocked get_address_policies
broadcast_returned = refl

broadcast-answer_example :
    (w : Withdrawal) × (tx_hash : String) × (lookup id approved_state.ledger.withdrawals ≡ some w)
    × IsBroadcast ports today id approved_state
        (broadcast ports today id approved_state).1
        w
        sent_now
        tx_hash
broadcast-answer_example =
    broadcast-answer ports today id approved_state sent_now broadcast_returned

abbrev alerts : DispatchAlerts
alerts = record {
  notify_retry = λ withdrawal_id attempt reason. ok tt;
  notify_failed = λ withdrawal_id reason. ok tt;
  notify_resource_low = λ withdrawal_id readiness. ok tt;
}

dispatch_returned : (process_dispatch ports alerts today id 1 approved_state).0 ≡ Outcome.returned
unfolding run perform lookup broadcast_withdrawal approve_withdrawal
    confirm_withdrawal_external_auth request_withdrawal apply_deposit
    build_deposit_state_changed_contract ◌+ℤ◌ get_daily_requested_withdrawal_amount sum_big_int
    values insert build_withdrawal_state_changed_contract ticks broadcast broadcast_current send
    publish_withdrawal_state_change consume_withdrawal_state_changed audit append_audit_log
    assert_broadcast_allowed get_hot_wallet_readiness get_signer_address failures_of
    assert_address_allowed is_blocked get_address_policies process_dispatch dispatch_found
    dispatch_approved ensure_hot_wallet_resources
dispatch_returned = refl

process_dispatch-again_example :
    let t = (process_dispatch ports alerts today id 1 approved_state).1 in
    process_dispatch ports alerts "2026-01-02" id 2 t ≡ (Outcome.returned, t)
process_dispatch-again_example =
    process_dispatch-again ports alerts today id 1 2 "2026-01-02" approved_state dispatch_returned

process_dispatch-sends_example :
    SendsApproved ports alerts today id approved_state
      (process_dispatch ports alerts today id 1 approved_state).1
process_dispatch-sends_example = process_dispatch-sends ports alerts today id 1 approved_state

abbrev pending_state : WithdrawState
pending_state = state_of (
    run host
      ((today, Call.apply_deposit deposit)
        ∷ (today, Call.request_withdrawal request)
        ∷ (today, Call.confirm_withdrawal_external_auth id "foxya" "auth-1")
        ∷ [])
      empty_ledger)

abbrev by_root : ServiceApprovalInput
by_root = record { admin_id = some "root"; actor_type = none; reason_code = none; note = none }

abbrev decision : ApprovalDecisionResult
decision = record {
  withdrawal =
      approved_by 1 today
        (externally_confirmed "foxya" "auth-1" today (new_withdrawal request id "||||" today));
  approval = new_approval (ledger_input by_root) "||||||||" id today;
  finalized = true;
}

approve_returned : (approve ports today id by_root pending_state).0 ≡ ok decision
unfolding run perform lookup approve_withdrawal confirm_withdrawal_external_auth request_withdrawal
    apply_deposit build_deposit_state_changed_contract ◌+ℤ◌ get_daily_requested_withdrawal_amount
    sum_big_int values insert build_withdrawal_state_changed_contract ticks
    publish_withdrawal_state_change consume_withdrawal_state_changed audit append_audit_log approve
    approve_current
approve_returned = refl

-- The other system was not told, so the queue holds a job for that, before the dispatch.
approve_queue :
    (approve ports today id by_root pending_state).1.queue.jobs
    ≡ new_job JobKind.external_sync (some id) ∷ new_job JobKind.dispatch (some id) ∷ []
unfolding run perform lookup approve_withdrawal confirm_withdrawal_external_auth request_withdrawal
    apply_deposit build_deposit_state_changed_contract ◌+ℤ◌ get_daily_requested_withdrawal_amount
    sum_big_int values insert build_withdrawal_state_changed_contract ticks
    publish_withdrawal_state_change publish_over publish_async sync_handler run_consumer attempts
    give_up note_attempt note_checkpoint note_dead_letter append_event_consumer_attempt
    append_event_consumer_dead_letter random_uuid upsert_event_consumer_checkpoint
    has_succeeded_event_consumer_checkpoint str_take consume_withdrawal_state_changed audit
    append_audit_log approve approve_current enqueue_dispatch enqueue_external_sync
approve_queue = refl

approve-IsApproval_example :
    IsApproval ports today id by_root pending_state
      (approve ports today id by_root pending_state).1
      decision
approve-IsApproval_example =
    approve-IsApproval ports today id by_root pending_state decision approve_returned
