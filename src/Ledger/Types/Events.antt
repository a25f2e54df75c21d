-- ===== src/Ledger/Types/Events.antt =====
-- src/ledger/types.ts: outbox events and event consumers, and the contracts of
-- src/contracts/ledger-contracts.ts that the outbox carries.
use coin_manage.Base.{ℕ, String, Option}
use coin_manage.Ledger.Types.Funds.{DepositStatus}

pub data WithdrawalLedgerStatus : Type 0 where
  requested ledger_reserved pending_admin admin_approved tx_broadcasted : WithdrawalLedgerStatus
  onchain_confirmed completed failed rejected : WithdrawalLedgerStatus

-- The contract without its signature: the signed part.
pub record UnsignedDepositContract : Type 0 where
  pub schema_version : String
  pub event_type : String
  pub issuer : String
  pub deposit_id : String
  pub user_id : String
  pub wallet_address : String
  pub tx_hash : String
  pub to_address : String
  pub status : DepositStatus
  pub amount : String
  pub currency : String
  pub block_number : ℕ
  pub occurred_at : String

pub record DepositStateChangedContract : Type 0 where
  pub unsigned : UnsignedDepositContract
  pub open unsigned use *
  pub signature : String

pub record UnsignedWithdrawalContract : Type 0 where
  pub schema_version : String
  pub event_type : String
  pub issuer : String
  pub withdrawal_id : String
  pub user_id : String
  pub status : WithdrawalLedgerStatus
  pub amount : String
  pub currency : String
  pub to_address : String
  pub tx_hash : Option String
  pub approval_count : ℕ
  pub required_approvals : ℕ
  pub external_auth_provider : Option String
  pub external_auth_request_id : Option String
  pub occurred_at : String

pub record WithdrawalStateChangedContract : Type 0 where
  pub unsigned : UnsignedWithdrawalContract
  pub open unsigned use *
  pub signature : String

-- A payload: one of the two contracts, or the JSON text of anything else.
pub data Payload : Type 0 where
  deposit_changed : DepositStateChangedContract → Payload
  withdrawal_changed : WithdrawalStateChangedContract → Payload
  json : String → Payload

pub data OutboxStatus : Type 0 where
  pending processing published dead_lettered : OutboxStatus

pub data DeadLetterCategory : Type 0 where
  external_dependency validation state_conflict network unknown : DeadLetterCategory

pub record OutboxEvent : Type 0 where
  pub outbox_event_id : String
  pub event_type : String
  pub aggregate_type : String
  pub aggregate_id : String
  pub payload : Payload
  pub status : OutboxStatus
  pub attempts : ℕ
  pub available_at : String
  pub created_at : String
  pub processing_started_at : Option String
  pub published_at : Option String
  pub dead_lettered_at : Option String
  pub dead_letter_acknowledged_at : Option String
  pub dead_letter_acknowledged_by : Option String
  pub dead_letter_note : Option String
  pub dead_letter_category : Option DeadLetterCategory
  pub incident_ref : Option String
  pub last_error : Option String

pub record OutboxEventSummary : Type 0 where
  pub pending_count : ℕ
  pub processing_count : ℕ
  pub published_count : ℕ
  pub dead_lettered_count : ℕ
  pub dead_letter_acknowledged_count : ℕ
  pub dead_letter_unacknowledged_count : ℕ
  pub oldest_pending_created_at : Option String
  pub oldest_dead_lettered_at : Option String

pub data AttemptStatus : Type 0 where
  succeeded failed : AttemptStatus

pub record EventConsumerAttempt : Type 0 where
  pub attempt_id : String
  pub event_key : String
  pub event_type : String
  pub consumer_name : String
  pub status : AttemptStatus
  pub attempt_number : ℕ
  pub aggregate_id : Option String
  pub error_message : Option String
  pub duration_ms : ℕ
  pub created_at : String

pub record EventConsumerDeadLetter : Type 0 where
  pub dead_letter_id : String
  pub event_key : String
  pub event_type : String
  pub consumer_name : String
  pub aggregate_id : Option String
  pub payload : Payload
  pub error_message : String
  pub failed_at : String

pub data CheckpointStatus : Type 0 where
  succeeded dead_lettered : CheckpointStatus

pub record EventConsumerCheckpoint : Type 0 where
  pub consumer_name : String
  pub event_key : String
  pub event_type : String
  pub aggregate_id : Option String
  pub last_status : CheckpointStatus
  pub first_processed_at : String
  pub last_processed_at : String
