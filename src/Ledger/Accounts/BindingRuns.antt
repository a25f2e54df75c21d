-- ===== src/Ledger/Accounts/BindingRuns.antt =====
-- src/ledger/in-memory-ledger.ts: the bindings after any sequence of calls.
use coin_manage.Base.{truthy, true, All, ◌≡◌, arith, String, List, [], ◌∷◌}
use coin_manage.Ledger.Requests.{request_withdrawal}
use coin_manage.Ledger.Withdrawals.{
  confirm_withdrawal_external_auth, mark_withdrawal_review_required, approve_withdrawal,
  broadcast_withdrawal, confirm_withdrawal, fail_withdrawal, settle_transaction, released, refunded,
}
use coin_manage.Base.Map.{lookup}
use coin_manage.Base.{Option, Option-cases, inl, inr}
use coin_manage.Ledger.Types.Records.{NetworkFee}
use coin_manage.Ledger.Frames.{settle_account-frame}
use coin_manage.Ledger.Accounts.Bindings.{IsInverse, bind_wallet_address-IsInverse}
use coin_manage.Ledger.Calls.{empty_ledger}
use coin_manage.Contracts.{Host}
use coin_manage.Ledger.State.{InMemoryLedger}
use coin_manage.Ledger.Accounts.{get_account, get_account_by_wallet_address, resolve_user_id}
use coin_manage.Ledger.Deposits.{apply_deposit, complete_deposit, apply_external_credit}
use coin_manage.Ledger.Transfers.{transfer}
use coin_manage.Ledger.Jobs.{
  enqueue_job, claim_pending_jobs, mark_job_done, mark_job_failed, retry_job,
}
use coin_manage.Ledger.Audit.{append_audit_log}
use coin_manage.Ledger.Sweeps.{
  create_sweep_record, mark_sweep_queued, record_sweep_attempt, mark_sweep_broadcasted,
  confirm_sweep, fail_sweep,
}
use coin_manage.Ledger.Outbox.{
  claim_pending_outbox_events, mark_outbox_event_published, reschedule_outbox_event,
  dead_letter_outbox_event, replay_outbox_events, recover_stale_processing_outbox_events,
  acknowledge_dead_letter_outbox_events,
}
use coin_manage.Ledger.Consumers.{
  append_event_consumer_attempt, append_event_consumer_dead_letter,
  upsert_event_consumer_checkpoint,
}
use coin_manage.Ledger.Calls.{Call, perform, run}

-- No caller binds an address to the empty user id.
abbrev pub HasUser : Call → Type 0
HasUser (Call.bind_wallet_address user_id wallet_address) = truthy user_id ≡ true
HasUser _ = Unit

abbrev BindsInversely : InMemoryLedger → Type 0
BindsInversely s = IsInverse s.wallet_bindings_by_user_id s.user_id_by_wallet_address

-- A step that leaves the bindings alone.
record SameBindings (s t : InMemoryLedger) : Type 0 where
  pub bindings_same : t.wallet_bindings_by_user_id ≡ s.wallet_bindings_by_user_id
  pub users_same : t.user_id_by_wallet_address ≡ s.user_id_by_wallet_address

SameBindings-IsInverse :
    {s t : InMemoryLedger} → SameBindings s t → BindsInversely s → BindsInversely t
SameBindings-IsInverse same h = rw (same.bindings_same, same.users_same) h

module _ (host : Host) (id now : String) (s : InMemoryLedger) where
  confirm_withdrawal-same :
      (fee : Option NetworkFee) → SameBindings s (confirm_withdrawal host id fee now s).1
  unfolding confirm_withdrawal settle_transaction
  confirm_withdrawal-same fee = elim (Option-cases (lookup id s.withdrawals)) [
    | inl e ↦ ground arith
    | inr (w, e) ↦
        ground (arith, settle_account-frame w.user_id w.amount now s (released w.amount now))
  ]

  fail_withdrawal-same : (reason : String) → SameBindings s (fail_withdrawal host id reason now s).1
  unfolding fail_withdrawal settle_transaction
  fail_withdrawal-same reason = elim (Option-cases (lookup id s.withdrawals)) [
    | inl e ↦ ground arith
    | inr (w, e) ↦
        ground (arith, settle_account-frame w.user_id w.amount now s (refunded w.amount now))
  ]

module _ (host : Host) (now : String) where
  perform-IsInverse :
      (call : Call) (s : InMemoryLedger)
      → HasUser call
      → BindsInversely s
      → BindsInversely (perform host now call s)
  unfolding perform get_account get_account_by_wallet_address resolve_user_id apply_deposit
      complete_deposit apply_external_credit transfer request_withdrawal
      confirm_withdrawal_external_auth mark_withdrawal_review_required approve_withdrawal
      broadcast_withdrawal enqueue_job claim_pending_jobs mark_job_done mark_job_failed retry_job
      append_audit_log create_sweep_record mark_sweep_queued record_sweep_attempt
      mark_sweep_broadcasted confirm_sweep fail_sweep claim_pending_outbox_events
      mark_outbox_event_published reschedule_outbox_event dead_letter_outbox_event
      replay_outbox_events recover_stale_processing_outbox_events
      acknowledge_dead_letter_outbox_events append_event_consumer_attempt
      append_event_consumer_dead_letter upsert_event_consumer_checkpoint
  perform-IsInverse (Call.bind_wallet_address u a) s named h =
      bind_wallet_address-IsInverse u a now s named h
  perform-IsInverse (Call.confirm_withdrawal id fee) s v h =
      SameBindings-IsInverse (confirm_withdrawal-same host id now s fee) h
  perform-IsInverse (Call.fail_withdrawal id reason) s v h =
      SameBindings-IsInverse (fail_withdrawal-same host id now s reason) h
  perform-IsInverse other s v h =
      SameBindings-IsInverse {s = s} {t = perform host now other s} (ground arith) h

run_from-IsInverse :
    (host : Host) (calls : List (String × Call)) (s : InMemoryLedger)
    → All (λ (c : String × Call). HasUser c.1) calls
    → BindsInversely s
    → BindsInversely (run host calls s)
unfolding run
run_from-IsInverse host [] s v h = h
run_from-IsInverse host ((now, call) ∷ calls) s v h =
    run_from-IsInverse host calls (perform host now call s) v.1
      (perform-IsInverse host now call s v.0 h)

-- After any calls on a new ledger, none of which binds an address to the empty user id: a user is
-- bound to an address exactly where the address is bound to the user, and no address is bound to
-- the empty user id.
pub run-IsInverse :
    (host : Host) (calls : List (String × Call))
    → All (λ (c : String × Call). HasUser c.1) calls
    → IsInverse
        (run host calls empty_ledger).wallet_bindings_by_user_id
        (run host calls empty_ledger).user_id_by_wallet_address
unfolding lookup
run-IsInverse host calls v = run_from-IsInverse host calls empty_ledger v (record {
  forth = λ u a e. ground arith;
  back = λ u a e. ground arith;
  named = λ u a e. ground arith;
})
