-- ===== src/Ledger/Types/Records.antt =====
-- src/ledger/types.ts: jobs, audit logs, sweeps and network fees.
use coin_manage.Base.{ℕ, String, Option}
use coin_manage.Base.Int.{ℤ}
use coin_manage.Base.Map.{Map}
use coin_manage.Ledger.Types.Funds.{ActorType}

pub data JobType : Type 0 where
  withdraw_dispatch withdraw_reconcile withdraw_external_sync : JobType
  withdraw_manual_review sweep_plan : JobType

pub data JobStatus : Type 0 where
  pending running done failed : JobStatus

pub record TxJob : Type 0 where
  pub job_id : String
  pub type : JobType
  pub payload : Map String
  pub status : JobStatus
  pub retry_count : ℕ
  pub created_at : String

pub data EntityType : Type 0 where
  withdrawal sweep system : EntityType

pub record AuditLog : Type 0 where
  pub audit_id : String
  pub entity_type : EntityType
  pub entity_id : String
  pub action : String
  pub actor_type : ActorType
  pub actor_id : String
  pub metadata : Map String
  pub created_at : String

pub data SweepStatus : Type 0 where
  planned queued broadcasted confirmed failed skipped : SweepStatus

pub data Network : Type 0 where
  mainnet testnet : Network

pub record SweepRecord : Type 0 where
  pub sweep_id : String
  pub source_wallet_code : String
  pub source_address : String
  pub target_address : String
  pub currency_id : Option ℕ
  pub network : Option Network
  pub amount : ℤ
  pub status : SweepStatus
  pub external_ref : Option String
  pub tx_hash : Option String
  pub note : Option String
  pub attempt_count : ℕ
  pub created_at : String
  pub queued_at : Option String
  pub last_attempt_at : Option String
  pub broadcasted_at : Option String
  pub confirmed_at : Option String

pub data FeeReference : Type 0 where
  withdrawal sweep : FeeReference

-- The `networkFee` argument of a confirmation.
pub record NetworkFee : Type 0 where
  pub tx_hash : String
  pub fee_sun : ℤ
  pub energy_used : ℕ
  pub bandwidth_used : ℕ

-- `currencyCode` is always 'TRX'.
pub record NetworkFeeReceipt : Type 0 where
  pub fee_receipt_id : String
  pub reference_type : FeeReference
  pub reference_id : String
  pub tx_hash : String
  pub currency_code : String
  pub fee_sun : ℤ
  pub energy_used : ℕ
  pub bandwidth_used : ℕ
  pub confirmed_at : String
  pub created_at : String

-- The value type of `networkFeeJournals`, in src/ledger/in-memory-ledger.ts.
pub record NetworkFeeJournal : Type 0 where
  pub snapshot_date : String
  pub reference_type : FeeReference
  pub fee_sun : ℤ
  pub created_at : String

pub record FeeTotals : Type 0 where
  pub ledger_fee_sun : ℤ
  pub actual_fee_sun : ℤ
  pub ledger_fee_count : ℕ
  pub actual_fee_count : ℕ

-- `withdrawal` and `sweep` are the fields of `byReferenceType`.
pub record NetworkFeeDailySnapshot : Type 0 where
  pub snapshot_date : String
  pub currency_code : String
  pub totals : FeeTotals
  pub gap_fee_sun : ℤ
  pub withdrawal : FeeTotals
  pub sweep : FeeTotals
