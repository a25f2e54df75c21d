-- ===== src/Ledger/Lifecycle/Run.antt =====
-- Every call is a step of the withdrawals' life, and an invariant of the steps holds after any
-- sequence of calls.
use coin_manage.Base.{String, List, [], ◌∷◌, arith}
use coin_manage.Contracts.{Host}
use coin_manage.Ledger.State.{InMemoryLedger}
use coin_manage.Ledger.Accounts.{
  get_account, get_account_by_wallet_address, resolve_user_id, bind_wallet_address,
}
use coin_manage.Ledger.Deposits.{apply_deposit, complete_deposit, apply_external_credit}
use coin_manage.Ledger.Transfers.{transfer}
use coin_manage.Ledger.Jobs.{
  enqueue_job, claim_pending_jobs, mark_job_done, mark_job_failed, retry_job,
}
use coin_manage.Ledger.Audit.{append_audit_log}
use coin_manage.Ledger.Sweeps.{
  create_sweep_record, mark_sweep_queued, record_sweep_attempt, mark_sweep_broadcasted,
  confirm_sweep, fail_sweep,
}
use coin_manage.Ledger.Outbox.{
  claim_pending_outbox_events, mark_outbox_event_published, reschedule_outbox_event,
  dead_letter_outbox_event, replay_outbox_events, recover_stale_processing_outbox_events,
  acknowledge_dead_letter_outbox_events,
}
use coin_manage.Ledger.Consumers.{
  append_event_consumer_attempt, append_event_consumer_dead_letter,
  upsert_event_consumer_checkpoint,
}
use coin_manage.Ledger.Calls.{Call, perform, run}
use coin_manage.Ledger.Lifecycle.{Effect, quiet}
use coin_manage.Ledger.Lifecycle.Effects.{
  confirm_withdrawal-Effect, fail_withdrawal-Effect, confirm_withdrawal_external_auth-Effect,
  mark_withdrawal_review_required-Effect, broadcast_withdrawal-Effect, approve_withdrawal-Effect,
  request_withdrawal-Effect,
}

module _ (host : Host) (now : String) where
  pub perform-Effect :
      (call : Call) (s : InMemoryLedger) → Effect host now s (perform host now call s)
  unfolding perform get_account get_account_by_wallet_address resolve_user_id bind_wallet_address
      apply_deposit complete_deposit apply_external_credit transfer enqueue_job claim_pending_jobs
      mark_job_done mark_job_failed retry_job append_audit_log create_sweep_record mark_sweep_queued
      record_sweep_attempt mark_sweep_broadcasted confirm_sweep fail_sweep
      claim_pending_outbox_events mark_outbox_event_published reschedule_outbox_event
      dead_letter_outbox_event replay_outbox_events recover_stale_processing_outbox_events
      acknowledge_dead_letter_outbox_events append_event_consumer_attempt
      append_event_consumer_dead_letter upsert_event_consumer_checkpoint
  perform-Effect (Call.request_withdrawal input) s = request_withdrawal-Effect host input now s
  perform-Effect (Call.confirm_withdrawal_external_auth id p r) s =
      confirm_withdrawal_external_auth-Effect host id now s p r
  perform-Effect (Call.mark_withdrawal_review_required id) s =
      mark_withdrawal_review_required-Effect host id now s
  perform-Effect (Call.approve_withdrawal id input) s =
      approve_withdrawal-Effect host id now s input
  perform-Effect (Call.broadcast_withdrawal id tx_hash) s =
      broadcast_withdrawal-Effect host id now s tx_hash
  perform-Effect (Call.confirm_withdrawal id fee) s = confirm_withdrawal-Effect host id now s fee
  perform-Effect (Call.fail_withdrawal id reason) s = fail_withdrawal-Effect host id now s reason
  perform-Effect other s = quiet (ground arith) (ground arith) (ground arith)

module _ {κ} (host : Host) (P : InMemoryLedger → Type κ)
    (keeps : (now : String) (s t : InMemoryLedger) → Effect host now s t → P s → P t) where
  -- What every step keeps, every sequence of calls keeps.
  pub run_inv : (calls : List (String × Call)) (s : InMemoryLedger) → P s → P (run host calls s)
  unfolding run
  run_inv [] s h = h
  run_inv ((now, call) ∷ calls) s h =
      run_inv calls (perform host now call s)
        (keeps now s (perform host now call s) (perform-Effect host now call s) h)
