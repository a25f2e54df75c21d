-- ===== src/Ledger/Summary.antt =====
-- src/ledger/in-memory-ledger.ts: the totals of the ledger, and the lists by user and status.
use coin_manage.Base.{
  Bool, true, any, Option, none, some, ℕ, ◌*◌, String, ltb, List, [], map, ◌==◌, str_le, take, sort,
  filter, length, or_default,
}
use coin_manage.Base.Int.{pos, ◌+ℤ◌, ◌-ℤ◌, leb_ℤ}
use coin_manage.Base.Map.{lookup, values}
use coin_manage.Money.{sum_big_int}
use coin_manage.Contracts.{Host}
use coin_manage.Ledger.Types.Funds.{
  TransactionType, LedgerTransaction, WithdrawalStatus, Account, Deposit, Withdrawal,
  WithdrawalApproval, LedgerSummary,
}
use coin_manage.Ledger.State.{InMemoryLedger, is_active}
use coin_manage.Ledger.Withdrawals.{is_pending_admin}

unfoldable pub get_ledger_summary : InMemoryLedger → LedgerSummary
get_ledger_summary s =
    let accounts = values s.accounts in
    let available_balance = sum_big_int (map (λ (a : Account). a.balance) accounts) in
    let locked_balance = sum_big_int (map (λ (a : Account). a.locked_balance) accounts) in
    record {
      account_count = length accounts;
      available_balance = available_balance;
      locked_balance = locked_balance;
      liability_balance = available_balance +ℤ locked_balance;
      confirmed_deposit_count = length s.deposits_by_tx_hash;
      active_withdrawal_count =
          length (filter (λ (w : Withdrawal). is_active w.status) (values s.withdrawals));
    }

unfoldable pub list_withdrawals_by_user : String → ℕ → InMemoryLedger → List Withdrawal
list_withdrawals_by_user user_id limit s = take limit (
    sort (λ (a b : Withdrawal). str_le b.created_at a.created_at)
      (filter (λ (w : Withdrawal). w.user_id == user_id) (values s.withdrawals)))

unfoldable pub list_pending_approval_withdrawals : InMemoryLedger → List Withdrawal
list_pending_approval_withdrawals s =
    filter (λ (w : Withdrawal). ltb w.approval_count w.required_approvals)
      (filter (λ (w : Withdrawal). is_pending_admin w.status) (values s.withdrawals))

unfoldable pub list_withdrawal_approvals : String → InMemoryLedger → List WithdrawalApproval
list_withdrawal_approvals withdrawal_id s =
    or_default (lookup withdrawal_id s.approvals_by_withdrawal_id) []

unfoldable pub list_stuck_withdrawals : Host → ℕ → String → InMemoryLedger → List Withdrawal
list_stuck_withdrawals host timeout_sec now_iso s =
    let threshold = host.time_ms now_iso -ℤ pos (timeout_sec * 1000) in
    filter (λ (w : Withdrawal). leb_ℤ (host.time_ms w.created_at) threshold)
      (filter (λ (w : Withdrawal). is_active w.status) (values s.withdrawals))

unfoldable pub list_deposits_by_user : String → ℕ → InMemoryLedger → List Deposit
list_deposits_by_user user_id limit s = take limit (
    sort (λ (a b : Deposit). str_le b.created_at a.created_at)
      (filter (λ (d : Deposit). d.user_id == user_id) (values s.deposits_by_tx_hash)))

-- `statusSet.has(…)` and `typeSet.has(…)` compare the texts of the constructors.
abbrev pub status_text : WithdrawalStatus → String
status_text WithdrawalStatus.ledger_reserved = "LEDGER_RESERVED"
status_text WithdrawalStatus.pending_admin = "PENDING_ADMIN"
status_text WithdrawalStatus.admin_approved = "ADMIN_APPROVED"
status_text WithdrawalStatus.tx_broadcasted = "TX_BROADCASTED"
status_text WithdrawalStatus.completed = "COMPLETED"
status_text WithdrawalStatus.failed = "FAILED"
status_text WithdrawalStatus.rejected = "REJECTED"

abbrev type_text : TransactionType → String
type_text TransactionType.deposit = "deposit"
type_text TransactionType.withdraw = "withdraw"
type_text TransactionType.payment = "payment"
type_text TransactionType.internal_transfer_in = "internal_transfer_in"
type_text TransactionType.internal_transfer_out = "internal_transfer_out"

unfoldable pub list_withdrawals_by_statuses :
    List WithdrawalStatus → InMemoryLedger → List Withdrawal
list_withdrawals_by_statuses statuses s =
    filter
      (λ (w : Withdrawal).
        any (λ (wanted : WithdrawalStatus). status_text wanted == status_text w.status) statuses)
      (values s.withdrawals)

-- No list of types lets every type through.
abbrev has_type : Option (List TransactionType) → LedgerTransaction → Bool
has_type none tx = true
has_type (some types) tx =
    any (λ (wanted : TransactionType). type_text wanted == type_text tx.type) types

unfoldable pub list_transactions_by_user :
    String → Option (List TransactionType) → Option ℕ → InMemoryLedger → List LedgerTransaction
list_transactions_by_user user_id types limit s = take (or_default limit 50) (
    sort (λ (a b : LedgerTransaction). str_le b.created_at a.created_at)
      (filter (has_type types)
        (filter (λ (tx : LedgerTransaction). tx.user_id == user_id) (values s.transactions))))

-- The balances are the state itself, and there is nothing to rebuild.
unfoldable pub rebuild_account_projections : InMemoryLedger → ℕ
rebuild_account_projections s = length s.accounts
