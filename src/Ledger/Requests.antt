-- ===== src/Ledger/Requests.antt =====
-- src/ledger/in-memory-ledger.ts: `requestWithdrawal`, which reserves the amount, and the sum
-- behind the daily limit.
use coin_manage.Base.{
  ℕ, String, true, false, Option, none, some, List, [], map, ◌==◌, truthy, or_default, str_take,
  filter, if◌then◌else◌,
}
use coin_manage.Base.Int.{ℤ, ◌+ℤ◌, ◌-ℤ◌, ltb_ℤ}
use coin_manage.Base.Map.{lookup, insert, values}
use coin_manage.Base.Action.{
  domain_error, Result, ok, err, pure, throw_if, gets, modify, ◌>>=◌, ◌>>◌,
}
use coin_manage.Money.{sum_big_int}
use coin_manage.Contracts.{Host}
use coin_manage.Ledger.Types.Funds.{
  TransactionType, TransactionStatus, Account, LedgerTransaction, WithdrawalStatus, RiskLevel, low,
  Withdrawal, WithdrawalRequestResult,
}
use coin_manage.Ledger.State.{
  InMemoryLedger, Method, counts_daily, get_mutable_account, put_account, put_transaction,
  put_withdrawal, random_uuid, enqueue_withdrawal_event,
}
use coin_manage.Ledger.Transfers.{corrupted}

pub record WithdrawalInput : Type 0 where
  pub user_id : String
  pub amount : ℤ
  pub to_address : String
  pub idempotency_key : String
  pub risk_level : Option RiskLevel
  pub risk_score : Option ℕ
  pub risk_flags : Option (List String)
  pub required_approvals : Option ℕ
  pub client_ip : Option String
  pub device_id : Option String

-- The first ten characters of a timestamp.
abbrev pub day_of : String → String
day_of iso = str_take 10 iso

unfoldable pub get_daily_requested_withdrawal_amount : String → String → InMemoryLedger → ℤ
get_daily_requested_withdrawal_amount user_id now_iso s = sum_big_int (
    map (λ (w : Withdrawal). w.amount)
      (filter (λ (w : Withdrawal). counts_daily w.status)
        (filter (λ (w : Withdrawal). day_of w.created_at == day_of now_iso)
          (filter (λ (w : Withdrawal). w.user_id == user_id) (values s.withdrawals)))))

-- `account.balance -= amount; account.lockedBalance += amount; account.updatedAt = nowIso;`
abbrev pub reserved : ℤ → String → Account → Account
reserved amount now_iso account = record account {
  balance = account.balance -ℤ amount;
  locked_balance = account.locked_balance +ℤ amount;
  updated_at = now_iso;
}

unfoldable pub reserve_funds : String → ℤ → String → Method (Unit {0})
unfolding get_mutable_account
reserve_funds user_id amount now_iso = do
  account ← get_mutable_account user_id now_iso
  throw_if (ltb_ℤ account.balance amount)
      (domain_error 400 "INSUFFICIENT_BALANCE" "insufficient balance for withdrawal")
  put_account user_id (reserved amount now_iso account)

abbrev pub request_tx : WithdrawalInput → String → String → LedgerTransaction
request_tx input ledger_tx_id now_iso = record {
  tx_id = ledger_tx_id;
  user_id = input.user_id;
  type = TransactionType.withdraw;
  amount = input.amount;
  status = TransactionStatus.pending;
  block_tx = none;
  related_user_id = none;
  idempotency_key = some input.idempotency_key;
  created_at = now_iso;
}

abbrev pub new_withdrawal : WithdrawalInput → String → String → String → Withdrawal
new_withdrawal input withdrawal_id ledger_tx_id now_iso = record {
  withdrawal_id = withdrawal_id;
  user_id = input.user_id;
  amount = input.amount;
  to_address = input.to_address;
  status = WithdrawalStatus.ledger_reserved;
  tx_hash = none;
  idempotency_key = input.idempotency_key;
  ledger_tx_id = ledger_tx_id;
  created_at = now_iso;
  approved_at = none;
  broadcasted_at = none;
  confirmed_at = none;
  failed_at = none;
  fail_reason = none;
  risk_level = or_default input.risk_level low;
  risk_score = or_default input.risk_score 0;
  risk_flags = or_default input.risk_flags [];
  required_approvals = or_default input.required_approvals 1;
  approval_count = 0;
  client_ip = input.client_ip;
  device_id = input.device_id;
  review_required_at = none;
  external_auth_provider = none;
  external_auth_request_id = none;
  external_auth_confirmed_at = none;
}

-- `if (existingId)`: the id that an idempotency key stands for.
abbrev pub known_id : Option String → Option String
known_id none = none
known_id (some id) = if truthy id then some id else none

unfoldable pub replay_request : String → InMemoryLedger → Result WithdrawalRequestResult
replay_request existing_id s = elim (lookup existing_id s.withdrawals) [
  | none ↦ err (corrupted "withdraw idempotency state is invalid")
  | some existing ↦ ok (record { withdrawal = existing; duplicated = true })
]

module _ (host : Host) where
  -- The two limits, before anything is written.
  unfoldable pub check_limits : WithdrawalInput → String → Method (Unit {0})
  check_limits input now_iso = do
    throw_if (ltb_ℤ host.limits.single_limit input.amount)
        (domain_error 400 "LIMIT_EXCEEDED" "single withdrawal limit exceeded")
    requested_today ← gets (get_daily_requested_withdrawal_amount input.user_id now_iso)
    throw_if (ltb_ℤ host.limits.daily_limit (requested_today +ℤ input.amount))
        (domain_error 400 "LIMIT_EXCEEDED" "daily withdrawal limit exceeded")

  -- The ledger transaction and the withdrawal of a reservation that went through.
  unfoldable pub record_request : WithdrawalInput → String → Method WithdrawalRequestResult
  unfolding random_uuid enqueue_withdrawal_event
  record_request input now_iso = do
    ledger_tx_id ← random_uuid host
    put_transaction ledger_tx_id (request_tx input ledger_tx_id now_iso)
    withdrawal_id ← random_uuid host
    let withdrawal = new_withdrawal input withdrawal_id ledger_tx_id now_iso
    put_withdrawal withdrawal_id withdrawal
    modify (λ s. record s {
      withdrawal_by_idempotency_key =
          insert input.idempotency_key withdrawal_id s.withdrawal_by_idempotency_key;
      approvals_by_withdrawal_id = insert withdrawal_id [] s.approvals_by_withdrawal_id;
    })
    enqueue_withdrawal_event host withdrawal_id withdrawal now_iso
    pure (record { withdrawal = withdrawal; duplicated = false })

  unfoldable pub request_new : WithdrawalInput → String → Method WithdrawalRequestResult
  unfolding check_limits reserve_funds record_request
  request_new input now_iso = do
    check_limits input now_iso
    reserve_funds input.user_id input.amount now_iso
    record_request input now_iso

  unfoldable pub request_withdrawal : WithdrawalInput → String → Method WithdrawalRequestResult
  unfolding request_new replay_request
  request_withdrawal input now_iso s =
      elim (known_id (lookup input.idempotency_key s.withdrawal_by_idempotency_key)) [
        | some existing_id ↦ (replay_request existing_id s, s)
        | none ↦ request_new input now_iso s
      ]
