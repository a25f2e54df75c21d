-- ===== src/Ledger/Types/Funds.antt =====
-- src/ledger/types.ts: accounts, transactions, deposits, credits and withdrawals.
use coin_manage.Base.{ℕ, String, Bool, Option, List}
use coin_manage.Base.Int.{ℤ}

pub data TransactionType : Type 0 where
  deposit withdraw payment internal_transfer_in internal_transfer_out : TransactionType

pub data TransactionStatus : Type 0 where
  pending confirmed failed : TransactionStatus

pub record Account : Type 0 where
  pub user_id : String
  pub wallet_address : Option String
  pub balance : ℤ
  pub locked_balance : ℤ
  pub updated_at : String

pub record WalletBinding : Type 0 where
  pub user_id : String
  pub wallet_address : String
  pub created_at : String

pub record LedgerTransaction : Type 0 where
  pub tx_id : String
  pub user_id : String
  pub type : TransactionType
  pub amount : ℤ
  pub status : TransactionStatus
  pub block_tx : Option String
  pub related_user_id : Option String
  pub idempotency_key : Option String
  pub created_at : String

pub data DepositStatus : Type 0 where
  detected confirmed credited completed : DepositStatus

pub record Deposit : Type 0 where
  pub deposit_id : String
  pub user_id : String
  pub tx_hash : String
  pub amount : ℤ
  pub status : DepositStatus
  pub block_number : ℕ
  pub created_at : String

pub record ExternalCreditApplyResult : Type 0 where
  pub credit_id : String
  pub user_id : String
  pub amount : ℤ
  pub currency_code : String
  pub journal_type : String
  pub reference_type : String
  pub reference_id : String
  pub duplicated : Bool
  pub created_at : String

pub data WithdrawalStatus : Type 0 where
  ledger_reserved pending_admin admin_approved tx_broadcasted : WithdrawalStatus
  completed failed rejected : WithdrawalStatus

pub data RiskLevel : Type 0 where
  low medium high : RiskLevel

pub record Withdrawal : Type 0 where
  pub withdrawal_id : String
  pub user_id : String
  pub amount : ℤ
  pub to_address : String
  pub status : WithdrawalStatus
  pub tx_hash : Option String
  pub idempotency_key : String
  pub ledger_tx_id : String
  pub created_at : String
  pub approved_at : Option String
  pub broadcasted_at : Option String
  pub confirmed_at : Option String
  pub failed_at : Option String
  pub fail_reason : Option String
  pub risk_level : RiskLevel
  pub risk_score : ℕ
  pub risk_flags : List String
  pub required_approvals : ℕ
  pub approval_count : ℕ
  pub client_ip : Option String
  pub device_id : Option String
  pub review_required_at : Option String
  pub external_auth_provider : Option String
  pub external_auth_request_id : Option String
  pub external_auth_confirmed_at : Option String

pub data ActorType : Type 0 where
  admin system user : ActorType

pub data ApprovalReason : Type 0 where
  manual_review_passed high_value_verified trusted_destination_verified : ApprovalReason
  account_activity_verified ops_override : ApprovalReason

pub record WithdrawalApproval : Type 0 where
  pub approval_id : String
  pub withdrawal_id : String
  pub admin_id : String
  pub actor_type : ActorType
  pub reason_code : ApprovalReason
  pub note : Option String
  pub created_at : String

pub record ApprovalDecisionResult : Type 0 where
  pub withdrawal : Withdrawal
  pub approval : WithdrawalApproval
  pub finalized : Bool

pub record DepositApplyResult : Type 0 where
  pub deposit : Deposit
  pub duplicated : Bool

pub record TransferResult : Type 0 where
  pub from_tx : LedgerTransaction
  pub to_tx : LedgerTransaction
  pub duplicated : Bool

pub record WithdrawalRequestResult : Type 0 where
  pub withdrawal : Withdrawal
  pub duplicated : Bool

pub record LedgerSummary : Type 0 where
  pub account_count : ℕ
  pub available_balance : ℤ
  pub locked_balance : ℤ
  pub liability_balance : ℤ
  pub confirmed_deposit_count : ℕ
  pub active_withdrawal_count : ℕ
