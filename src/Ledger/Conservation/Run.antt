-- ===== src/Ledger/Conservation/Run.antt =====
-- Every sequence of calls keeps the books.
use coin_manage.Base.{String, List, [], ◌∷◌, arith, All, refl, ◌≡◌, none, some, inl, inr}
use coin_manage.Base.Int.{◌+ℤ◌}
use coin_manage.Base.Action.{Result, Result-cases}
use coin_manage.Base.Keys.{HasDistinctKeys}
use coin_manage.Base.Map.{lookup, sum_of}
use coin_manage.Contracts.{Host}
use coin_manage.Ledger.State.{InMemoryLedger}
use coin_manage.Ledger.Accounts.{get_account, get_account_by_wallet_address, resolve_user_id}
use coin_manage.Ledger.Jobs.{
  enqueue_job, claim_pending_jobs, mark_job_done, mark_job_failed, retry_job,
}
use coin_manage.Ledger.Audit.{append_audit_log}
use coin_manage.Ledger.Sweeps.{
  create_sweep_record, mark_sweep_queued, record_sweep_attempt, mark_sweep_broadcasted,
  confirm_sweep, fail_sweep,
}
use coin_manage.Ledger.Outbox.{
  claim_pending_outbox_events, mark_outbox_event_published, reschedule_outbox_event,
  dead_letter_outbox_event, replay_outbox_events, recover_stale_processing_outbox_events,
  acknowledge_dead_letter_outbox_events,
}
use coin_manage.Ledger.Consumers.{
  append_event_consumer_attempt, append_event_consumer_dead_letter,
  upsert_event_consumer_checkpoint,
}
use coin_manage.Ledger.Calls.{Call, perform, run, empty_ledger}
use coin_manage.Ledger.Solvency.{IsSound, IsDistinct}
use coin_manage.Ledger.Solvency.Run.{HasValidAmount, perform-IsSound, empty_ledger-IsSound}
use coin_manage.Ledger.Conservation.{liability, outflow, inflow, IsBalanced, SameMoney-IsBalanced}
use coin_manage.Ledger.Conservation.Methods.{
  get_account-IsBalanced, bind_wallet_address-IsBalanced, apply_deposit-IsBalanced,
  complete_deposit-IsBalanced, apply_external_credit-IsBalanced,
}
use coin_manage.Ledger.Conservation.Withdrawals.{
  transfer-IsBalanced, confirm_withdrawal_external_auth-IsBalanced, broadcast_withdrawal-IsBalanced,
  approve_withdrawal-IsBalanced, mark_withdrawal_review_required-IsBalanced,
}
use coin_manage.Ledger.Conservation.Settlements.{
  request_withdrawal-IsBalanced, confirm_withdrawal-IsBalanced, fail_withdrawal-IsBalanced,
}

module _ (host : Host) (now : String) where
  address_of : String → InMemoryLedger → Result String
  address_of a s = resolve_user_id (record { user_id = none; wallet_address = some a }) s

  by_address-IsBalanced :
      (a : String) (s : InMemoryLedger)
      → IsBalanced s
      → IsBalanced (get_account_by_wallet_address a now s).1
  by_address-IsBalanced a s h = elim (Result-cases (address_of a s)) [
    | inl (u, e) ↦
        let q : (get_account_by_wallet_address a now s).1 ≡ (get_account u now s).1 =
          unfold address_of get_account_by_wallet_address in ground arith in
        rw q (get_account-IsBalanced host now s u h)
    | inr (x, e) ↦
        let q : (get_account_by_wallet_address a now s).1 ≡ s =
          unfold address_of get_account_by_wallet_address in ground arith in
        rw q h
  ]

  perform-IsBalanced :
      (call : Call) (s : InMemoryLedger)
      → IsSound host s
      → IsBalanced s
      → IsBalanced (perform host now call s)
  unfolding perform enqueue_job claim_pending_jobs mark_job_done mark_job_failed retry_job
      append_audit_log create_sweep_record mark_sweep_queued record_sweep_attempt
      mark_sweep_broadcasted confirm_sweep fail_sweep claim_pending_outbox_events
      mark_outbox_event_published reschedule_outbox_event dead_letter_outbox_event
      replay_outbox_events recover_stale_processing_outbox_events
      acknowledge_dead_letter_outbox_events append_event_consumer_attempt
      append_event_consumer_dead_letter upsert_event_consumer_checkpoint
  perform-IsBalanced (Call.get_account u) s v h = get_account-IsBalanced host now s u h
  perform-IsBalanced (Call.get_account_by_wallet_address a) s v h = by_address-IsBalanced a s h
  perform-IsBalanced (Call.bind_wallet_address u a) s v h =
      bind_wallet_address-IsBalanced host now s u a h
  perform-IsBalanced (Call.apply_deposit input) s v h = apply_deposit-IsBalanced host now s input h
  perform-IsBalanced (Call.complete_deposit id) s v h = complete_deposit-IsBalanced host now s id h
  perform-IsBalanced (Call.apply_external_credit input) s v h =
      apply_external_credit-IsBalanced host now s input h
  perform-IsBalanced (Call.transfer input) s v h = transfer-IsBalanced host input now s h
  perform-IsBalanced (Call.request_withdrawal input) s v h =
      request_withdrawal-IsBalanced host input now s v h
  perform-IsBalanced (Call.confirm_withdrawal_external_auth id p r) s v h =
      confirm_withdrawal_external_auth-IsBalanced host id now s p r h
  perform-IsBalanced (Call.mark_withdrawal_review_required id) s v h =
      mark_withdrawal_review_required-IsBalanced host id now s h
  perform-IsBalanced (Call.approve_withdrawal id input) s v h =
      approve_withdrawal-IsBalanced host id now s input h
  perform-IsBalanced (Call.broadcast_withdrawal id tx_hash) s v h =
      broadcast_withdrawal-IsBalanced host id now s tx_hash h
  perform-IsBalanced (Call.confirm_withdrawal id fee) s v h =
      confirm_withdrawal-IsBalanced host id now s fee v h
  perform-IsBalanced (Call.fail_withdrawal id reason) s v h =
      fail_withdrawal-IsBalanced host id now s reason v h
  perform-IsBalanced other s v h =
      SameMoney-IsBalanced {s = s} {t = perform host now other s} (ground arith) h

run-IsBalanced_from :
    (host : Host) (calls : List (String × Call)) (s : InMemoryLedger)
    → IsDistinct host
    → All (λ (c : String × Call). HasValidAmount c.1) calls
    → IsSound host s
    → IsBalanced s
    → IsBalanced (run host calls s)
unfolding run
run-IsBalanced_from host [] s distinct v h books = books
run-IsBalanced_from host ((now, call) ∷ calls) s distinct v h books =
    run-IsBalanced_from host calls (perform host now call s) distinct v.1
      (perform-IsSound host distinct now call s v.0 h) (perform-IsBalanced host now call s h books)

empty_ledger-IsBalanced : IsBalanced empty_ledger
unfolding lookup sum_of HasDistinctKeys
empty_ledger-IsBalanced = record { books = refl; keys = tt }

-- No money is made or lost: after any sequence of calls on a new ledger, in which no deposit,
-- transfer or request has a negative amount, and where `randomUUID` never repeats itself, all
-- balances, available and locked, with the amounts of the completed withdrawals are what the
-- deposits and the external credits brought in.
pub run-balance :
    (host : Host) (calls : List (String × Call))
    → IsDistinct host
    → All (λ (c : String × Call). HasValidAmount c.1) calls
    → let s = run host calls empty_ledger in liability s +ℤ outflow s ≡ inflow s
run-balance host calls distinct v =
    (run-IsBalanced_from host calls empty_ledger distinct v (empty_ledger-IsSound host)
      empty_ledger-IsBalanced).books
