-- ===== src/Contracts.antt =====
-- src/contracts/ledger-contracts.ts: the signed contracts that announce a change of state. What the
-- node runtime, zod and the environment give is a `Host`: the n-th result of `randomUUID`,
-- `toUpperCase`, the milliseconds of a timestamp and back (`Date`), the HMAC of a payload, the identity of this system, and whether a schema accepts a payload.
use coin_manage.Base.{ℕ, String, Bool, ◌==◌, if◌then◌else◌}
use coin_manage.Base.Int.{ℤ}
use coin_manage.Base.Action.{zod_error, Result, ok, err}
use coin_manage.Money.{format_kori_amount}
use coin_manage.Ledger.Types.Funds
use coin_manage.Ledger.Types.Funds.{DepositStatus, WithdrawalStatus, Withdrawal}
use coin_manage.Ledger.Types.Events.{
  WithdrawalLedgerStatus, UnsignedDepositContract, DepositStateChangedContract,
  UnsignedWithdrawalContract, WithdrawalStateChangedContract,
}

-- `WithdrawalLimitConfig`
pub record WithdrawalLimitConfig : Type 0 where
  pub single_limit : ℤ
  pub daily_limit : ℤ

pub record Host : Type 0 where
  pub limits : WithdrawalLimitConfig
  pub random_uuid : ℕ → String
  pub to_upper_case : String → String
  pub time_ms : String → ℤ
  pub iso_of : ℤ → String
  pub system_id : String
  pub sign_deposit : UnsignedDepositContract → String
  pub sign_withdrawal : UnsignedWithdrawalContract → String
  pub accepts_deposit : DepositStateChangedContract → Bool
  pub accepts_withdrawal : WithdrawalStateChangedContract → Bool

abbrev pub ledger_schema_version : String
ledger_schema_version = "1.0.0"

pub map_withdrawal_status_to_ledger_contract : WithdrawalStatus → WithdrawalLedgerStatus
map_withdrawal_status_to_ledger_contract WithdrawalStatus.ledger_reserved =
    WithdrawalLedgerStatus.ledger_reserved
map_withdrawal_status_to_ledger_contract WithdrawalStatus.pending_admin =
    WithdrawalLedgerStatus.pending_admin
map_withdrawal_status_to_ledger_contract WithdrawalStatus.admin_approved =
    WithdrawalLedgerStatus.admin_approved
map_withdrawal_status_to_ledger_contract WithdrawalStatus.tx_broadcasted =
    WithdrawalLedgerStatus.tx_broadcasted
map_withdrawal_status_to_ledger_contract WithdrawalStatus.completed =
    WithdrawalLedgerStatus.completed
map_withdrawal_status_to_ledger_contract WithdrawalStatus.failed = WithdrawalLedgerStatus.failed
map_withdrawal_status_to_ledger_contract WithdrawalStatus.rejected = WithdrawalLedgerStatus.rejected

module _ (host : Host) where
  -- `attachLedgerEnvelope` adds the issuer and the signature of the rest.
  pub attach_deposit_envelope : UnsignedDepositContract → DepositStateChangedContract
  attach_deposit_envelope payload =
      let unsigned = record payload { issuer = host.system_id } in
      record { unsigned = unsigned; signature = host.sign_deposit unsigned }

  pub attach_withdrawal_envelope : UnsignedWithdrawalContract → WithdrawalStateChangedContract
  attach_withdrawal_envelope payload =
      let unsigned = record payload { issuer = host.system_id } in
      record { unsigned = unsigned; signature = host.sign_withdrawal unsigned }

  -- `verifyLedgerContractSignature`, on the two kinds of contract
  pub verify_deposit_signature : DepositStateChangedContract → Bool
  verify_deposit_signature c = c.signature == host.sign_deposit c.unsigned

  pub verify_withdrawal_signature : WithdrawalStateChangedContract → Bool
  verify_withdrawal_signature c = c.signature == host.sign_withdrawal c.unsigned

  -- `depositStateChangedContractSchema.parse`: the payload itself, or a throw
  parse_deposit : DepositStateChangedContract → Result DepositStateChangedContract
  parse_deposit c = if host.accepts_deposit c then ok c else err zod_error

  parse_withdrawal : WithdrawalStateChangedContract → Result WithdrawalStateChangedContract
  parse_withdrawal c = if host.accepts_withdrawal c then ok c else err zod_error

  unfoldable pub build_deposit_state_changed_contract :
      Funds.Deposit → String → String → Result DepositStateChangedContract
  unfolding attach_deposit_envelope parse_deposit
  build_deposit_state_changed_contract deposit wallet_address to_address = parse_deposit (
      attach_deposit_envelope (record {
        schema_version = ledger_schema_version;
        event_type = "deposit.state.changed";
        issuer = "";
        deposit_id = deposit.deposit_id;
        user_id = deposit.user_id;
        wallet_address = wallet_address;
        tx_hash = deposit.tx_hash;
        to_address = to_address;
        status = deposit.status;
        amount = format_kori_amount deposit.amount;
        currency = "KORI";
        block_number = deposit.block_number;
        occurred_at = deposit.created_at;
      }))

  unfoldable pub build_withdrawal_state_changed_contract :
      Withdrawal → String → Result WithdrawalStateChangedContract
  unfolding attach_withdrawal_envelope parse_withdrawal map_withdrawal_status_to_ledger_contract
  build_withdrawal_state_changed_contract withdrawal occurred_at = parse_withdrawal (
      attach_withdrawal_envelope (record {
        schema_version = ledger_schema_version;
        event_type = "withdrawal.state.changed";
        issuer = "";
        withdrawal_id = withdrawal.withdrawal_id;
        user_id = withdrawal.user_id;
        status = map_withdrawal_status_to_ledger_contract withdrawal.status;
        amount = format_kori_amount withdrawal.amount;
        currency = "KORI";
        to_address = withdrawal.to_address;
        tx_hash = withdrawal.tx_hash;
        approval_count = withdrawal.approval_count;
        required_approvals = withdrawal.required_approvals;
        external_auth_provider = withdrawal.external_auth_provider;
        external_auth_request_id = withdrawal.external_auth_request_id;
        occurred_at = occurred_at;
      }))
