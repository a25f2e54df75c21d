-- ===== src/Ledger/State.antt =====
-- src/ledger/in-memory-ledger.ts: the fields of `InMemoryLedger` and its private helpers. `issued`
-- counts the calls of `randomUUID` so far. `nowIso` is an argument everywhere: a default of
-- `new Date().toISOString()` is a value of the caller's.
use coin_manage.Base.{ℕ, ◌+◌, String, Bool, true, false, none, some, List}
use coin_manage.Base.Int.{pos}
use coin_manage.Base.Map.{Map, lookup, insert}
use coin_manage.Base.Action.{domain_error, Result, ok, Action, gets, or_throw, modify, ◌>>=◌}
use coin_manage.Contracts.{Host, build_withdrawal_state_changed_contract}
use coin_manage.Ledger.Types.Funds.{
  Account, WalletBinding, LedgerTransaction, Deposit, ExternalCreditApplyResult, WithdrawalStatus,
  Withdrawal, WithdrawalApproval,
}
use coin_manage.Ledger.Types.Records.{
  TxJob, AuditLog, SweepRecord, NetworkFeeReceipt, NetworkFeeJournal,
}
use coin_manage.Ledger.Types.Events.{
  Payload, withdrawal_changed, OutboxStatus, OutboxEvent, EventConsumerAttempt,
  EventConsumerDeadLetter, EventConsumerCheckpoint,
}

pub record TransferIdempotencyRecord : Type 0 where
  pub from_tx_id : String
  pub to_tx_id : String

pub record InMemoryLedger : Type 0 where
  pub accounts : Map Account
  pub wallet_bindings_by_user_id : Map WalletBinding
  pub user_id_by_wallet_address : Map String
  pub transactions : Map LedgerTransaction
  pub deposits_by_tx_hash : Map Deposit
  pub external_credits_by_reference : Map ExternalCreditApplyResult
  pub withdrawals : Map Withdrawal
  pub withdrawal_by_idempotency_key : Map String
  pub transfer_by_idempotency_key : Map TransferIdempotencyRecord
  pub jobs : Map TxJob
  pub approvals_by_withdrawal_id : Map (List WithdrawalApproval)
  pub audit_logs : Map AuditLog
  pub sweep_records : Map SweepRecord
  pub network_fee_receipts : Map NetworkFeeReceipt
  pub network_fee_journals : Map NetworkFeeJournal
  pub outbox_events : Map OutboxEvent
  pub event_consumer_attempts : Map EventConsumerAttempt
  pub event_consumer_dead_letters : Map EventConsumerDeadLetter
  pub event_consumer_checkpoints : Map EventConsumerCheckpoint
  pub issued : ℕ

abbrev pub Method : Type 0 → Type 0
Method A = Action InMemoryLedger A

-- A method that throws `zod_error` where a schema refuses the payload.
abbrev pub lift : {A : Type 0} → Result A → Method A
lift r s = (r, s)

-- `ACTIVE_WITHDRAWAL_STATUSES.includes(status)`
abbrev pub is_active : WithdrawalStatus → Bool
is_active WithdrawalStatus.ledger_reserved = true
is_active WithdrawalStatus.pending_admin = true
is_active WithdrawalStatus.admin_approved = true
is_active WithdrawalStatus.tx_broadcasted = true
is_active _ = false

-- `DAILY_LIMIT_WITHDRAWAL_STATUSES.includes(status)`
abbrev pub counts_daily : WithdrawalStatus → Bool
counts_daily WithdrawalStatus.completed = true
counts_daily status = is_active status

unfoldable pub create_empty_account : String → String → InMemoryLedger → Account
create_empty_account user_id now_iso s = record {
  user_id = user_id;
  wallet_address = elim (lookup user_id s.wallet_bindings_by_user_id) [
    | none ↦ none
    | some binding ↦ some binding.wallet_address
  ];
  balance = pos 0;
  locked_balance = pos 0;
  updated_at = now_iso;
}

-- `this.accounts.set(account.userId, account)`: an account that was changed in place is written
-- back under its key.
abbrev pub put_account : String → Account → Method (Unit {0})
put_account user_id account =
    modify (λ s. record s { accounts = insert user_id account s.accounts })

unfoldable pub get_mutable_account : String → String → Method Account
unfolding create_empty_account
get_mutable_account user_id now_iso s = elim (lookup user_id s.accounts) [
  | some existing ↦ (ok existing, s)
  | none ↦
      let created = create_empty_account user_id now_iso s in
      (ok created, record s { accounts = insert user_id created s.accounts })
]

unfoldable pub get_mutable_withdrawal : String → Method Withdrawal
get_mutable_withdrawal withdrawal_id = do
  found ← gets (λ s. lookup withdrawal_id s.withdrawals)
  or_throw found (domain_error 404 "NOT_FOUND" "withdrawal not found")

abbrev pub put_withdrawal : String → Withdrawal → Method (Unit {0})
put_withdrawal withdrawal_id withdrawal =
    modify (λ s. record s { withdrawals = insert withdrawal_id withdrawal s.withdrawals })

unfoldable pub get_mutable_sweep : String → Method SweepRecord
get_mutable_sweep sweep_id = do
  found ← gets (λ s. lookup sweep_id s.sweep_records)
  or_throw found (domain_error 404 "NOT_FOUND" "sweep not found")

abbrev pub put_transaction : String → LedgerTransaction → Method (Unit {0})
put_transaction tx_id tx = modify (λ s. record s { transactions = insert tx_id tx s.transactions })

module _ (host : Host) where
  -- `randomUUID()`
  unfoldable pub random_uuid : Method String
  random_uuid s = (ok (host.random_uuid s.issued), record s { issued = s.issued + 1 })

  unfoldable pub enqueue_outbox_event :
      String → String → String → Payload → String → Method (Unit {0})
  unfolding random_uuid
  enqueue_outbox_event event_type aggregate_type aggregate_id payload occurred_at = do
    outbox_event_id ← random_uuid
    modify (λ s. record s {
      outbox_events =
          insert outbox_event_id
            (record {
              outbox_event_id = outbox_event_id;
              event_type = event_type;
              aggregate_type = aggregate_type;
              aggregate_id = aggregate_id;
              payload = payload;
              status = OutboxStatus.pending;
              attempts = 0;
              available_at = occurred_at;
              created_at = occurred_at;
              processing_started_at = none;
              published_at = none;
              dead_lettered_at = none;
              dead_letter_acknowledged_at = none;
              dead_letter_acknowledged_by = none;
              dead_letter_note = none;
              dead_letter_category = none;
              incident_ref = none;
              last_error = none;
            })
            s.outbox_events;
    })

  -- The event that every change of a withdrawal enqueues: the payload is built first, and a schema
  -- that refuses it throws.
  unfoldable pub enqueue_withdrawal_event : String → Withdrawal → String → Method (Unit {0})
  unfolding enqueue_outbox_event
  enqueue_withdrawal_event withdrawal_id withdrawal now_iso = do
    contract ← lift (build_withdrawal_state_changed_contract host withdrawal now_iso)
    enqueue_outbox_event "withdrawal.state.changed" "withdrawal" withdrawal_id
        (withdrawal_changed contract) now_iso
