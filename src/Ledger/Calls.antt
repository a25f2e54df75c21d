-- ===== src/Ledger/Calls.antt =====
-- The calls that change an `InMemoryLedger` of src/ledger/in-memory-ledger.ts. Its lock lets one
-- method run at a time, so that whatever the callers do is a sequence of calls; a call that throws
-- keeps what it wrote before.
use coin_manage.Base.{ℕ, String, Option, List, [], ◌∷◌}
use coin_manage.Base.Map.{Map}
use coin_manage.Contracts.{Host}
use coin_manage.Ledger.Types.Records.{JobType, NetworkFee}
use coin_manage.Ledger.State.{InMemoryLedger}
use coin_manage.Ledger.Accounts
use coin_manage.Ledger.Deposits
use coin_manage.Ledger.Deposits.{DepositInput, ExternalCreditInput}
use coin_manage.Ledger.Transfers
use coin_manage.Ledger.Transfers.{TransferInput}
use coin_manage.Ledger.Requests
use coin_manage.Ledger.Requests.{WithdrawalInput}
use coin_manage.Ledger.Withdrawals
use coin_manage.Ledger.Withdrawals.{ApprovalInput}
use coin_manage.Ledger.Jobs
use coin_manage.Ledger.Audit
use coin_manage.Ledger.Audit.{AuditInput}
use coin_manage.Ledger.Sweeps
use coin_manage.Ledger.Sweeps.{SweepInput}
use coin_manage.Ledger.Outbox
use coin_manage.Ledger.Outbox.{ReplayInput, AcknowledgeInput}
use coin_manage.Ledger.Consumers
use coin_manage.Ledger.Consumers.{AttemptInput, DeadLetterInput, CheckpointInput}

pub data Call : Type 0 where
  get_account get_account_by_wallet_address : String → Call
  bind_wallet_address : String → String → Call
  apply_deposit : DepositInput → Call
  complete_deposit : String → Call
  apply_external_credit : ExternalCreditInput → Call
  transfer : TransferInput → Call
  request_withdrawal : WithdrawalInput → Call
  confirm_withdrawal_external_auth : String → String → String → Call
  mark_withdrawal_review_required : String → Call
  approve_withdrawal : String → ApprovalInput → Call
  broadcast_withdrawal : String → String → Call
  confirm_withdrawal : String → Option NetworkFee → Call
  fail_withdrawal : String → String → Call
  enqueue_job : JobType → Map String → Call
  claim_pending_jobs : List JobType → ℕ → Call
  mark_job_done mark_job_failed retry_job : String → Call
  append_audit_log : AuditInput → Call
  create_sweep_record : SweepInput → Call
  mark_sweep_queued record_sweep_attempt : String → Option String → Call
  mark_sweep_broadcasted : String → String → Option String → Call
  confirm_sweep : String → Option String → Option NetworkFee → Call
  fail_sweep : String → String → Call
  claim_pending_outbox_events : ℕ → Call
  mark_outbox_event_published : String → Call
  reschedule_outbox_event dead_letter_outbox_event : String → String → String → Call
  replay_outbox_events : ReplayInput → Call
  recover_stale_processing_outbox_events : ℕ → Call
  acknowledge_dead_letter_outbox_events : AcknowledgeInput → Call
  append_event_consumer_attempt : AttemptInput → Call
  append_event_consumer_dead_letter : DeadLetterInput → Call
  upsert_event_consumer_checkpoint : CheckpointInput → Call

module _ (host : Host) where
  -- The state after one call, made at the time `now`.
  unfoldable pub perform : String → Call → InMemoryLedger → InMemoryLedger
  perform now (Call.get_account u) s = (Accounts.get_account u now s).1
  perform now (Call.get_account_by_wallet_address a) s =
      (Accounts.get_account_by_wallet_address a now s).1
  perform now (Call.bind_wallet_address u a) s = (Accounts.bind_wallet_address u a now s).1
  perform now (Call.apply_deposit input) s = (Deposits.apply_deposit host input now s).1
  perform now (Call.complete_deposit id) s = (Deposits.complete_deposit id s).1
  perform now (Call.apply_external_credit input) s =
      (Deposits.apply_external_credit host input now s).1
  perform now (Call.transfer input) s = (Transfers.transfer host input now s).1
  perform now (Call.request_withdrawal input) s = (Requests.request_withdrawal host input now s).1
  perform now (Call.confirm_withdrawal_external_auth id provider request_id) s =
      (Withdrawals.confirm_withdrawal_external_auth host id provider request_id now s).1
  perform now (Call.mark_withdrawal_review_required id) s =
      (Withdrawals.mark_withdrawal_review_required id now s).1
  perform now (Call.approve_withdrawal id input) s =
      (Withdrawals.approve_withdrawal host id input now s).1
  perform now (Call.broadcast_withdrawal id tx_hash) s =
      (Withdrawals.broadcast_withdrawal host id tx_hash now s).1
  perform now (Call.confirm_withdrawal id fee) s =
      (Withdrawals.confirm_withdrawal host id fee now s).1
  perform now (Call.fail_withdrawal id reason) s =
      (Withdrawals.fail_withdrawal host id reason now s).1
  perform now (Call.enqueue_job type payload) s = (Jobs.enqueue_job host type payload now s).1
  perform now (Call.claim_pending_jobs types limit) s = (Jobs.claim_pending_jobs types limit s).1
  perform now (Call.mark_job_done id) s = (Jobs.mark_job_done id s).1
  perform now (Call.mark_job_failed id) s = (Jobs.mark_job_failed id s).1
  perform now (Call.retry_job id) s = (Jobs.retry_job id s).1
  perform now (Call.append_audit_log input) s = (Audit.append_audit_log host input now s).1
  perform now (Call.create_sweep_record input) s = (Sweeps.create_sweep_record host input now s).1
  perform now (Call.mark_sweep_queued id note) s = (Sweeps.mark_sweep_queued id note now s).1
  perform now (Call.record_sweep_attempt id note) s = (Sweeps.record_sweep_attempt id note now s).1
  perform now (Call.mark_sweep_broadcasted id tx_hash note) s =
      (Sweeps.mark_sweep_broadcasted id tx_hash note now s).1
  perform now (Call.confirm_sweep id note fee) s = (Sweeps.confirm_sweep id note fee now s).1
  perform now (Call.fail_sweep id reason) s = (Sweeps.fail_sweep id reason now s).1
  perform now (Call.claim_pending_outbox_events limit) s =
      (Outbox.claim_pending_outbox_events limit now s).1
  perform now (Call.mark_outbox_event_published id) s =
      (Outbox.mark_outbox_event_published id now s).1
  perform now (Call.reschedule_outbox_event id error at) s =
      (Outbox.reschedule_outbox_event id error at s).1
  perform now (Call.dead_letter_outbox_event id error at) s =
      (Outbox.dead_letter_outbox_event id error at s).1
  perform now (Call.replay_outbox_events input) s = (Outbox.replay_outbox_events input now s).1
  perform now (Call.recover_stale_processing_outbox_events timeout_sec) s =
      (Outbox.recover_stale_processing_outbox_events host timeout_sec now s).1
  perform now (Call.acknowledge_dead_letter_outbox_events input) s =
      (Outbox.acknowledge_dead_letter_outbox_events input now s).1
  perform now (Call.append_event_consumer_attempt input) s =
      (Consumers.append_event_consumer_attempt host input now s).1
  perform now (Call.append_event_consumer_dead_letter input) s =
      (Consumers.append_event_consumer_dead_letter host input now s).1
  perform now (Call.upsert_event_consumer_checkpoint input) s =
      (Consumers.upsert_event_consumer_checkpoint input now s).1

  -- A sequence of calls, each with its time.
  unfoldable pub run : List (String × Call) → InMemoryLedger → InMemoryLedger
  run [] s = s
  run ((now, call) ∷ calls) s = run calls (perform now call s)

-- A new ledger.
abbrev pub empty_ledger : InMemoryLedger
empty_ledger = record {
  accounts = [];
  wallet_bindings_by_user_id = [];
  user_id_by_wallet_address = [];
  transactions = [];
  deposits_by_tx_hash = [];
  external_credits_by_reference = [];
  withdrawals = [];
  withdrawal_by_idempotency_key = [];
  transfer_by_idempotency_key = [];
  jobs = [];
  approvals_by_withdrawal_id = [];
  audit_logs = [];
  sweep_records = [];
  network_fee_receipts = [];
  network_fee_journals = [];
  outbox_events = [];
  event_consumer_attempts = [];
  event_consumer_dead_letters = [];
  event_consumer_checkpoints = [];
  issued = 0;
}
