-- ===== src/Ledger/Solvency.antt =====
-- What backs the balances of src/ledger/in-memory-ledger.ts: the invariant of accounts and
-- withdrawals. The children prove that the methods keep it.
mod Maps
pub mod Settle
mod Credit
pub mod Request
pub mod Progress
pub mod Run
use coin_manage.Base.{ℕ, ◌≤◌, String, true, none, some, ◌≡◌, ◌==◌, is_some, if◌then◌else◌}
use coin_manage.Base.Int.{ℤ, pos, ◌≤ℤ◌}
use coin_manage.Base.Map.{Map, lookup, insert, sum_of, Every}
use coin_manage.Contracts.{Host}
use coin_manage.Ledger.Types.Funds.{Account, Withdrawal}
use coin_manage.Ledger.State.{InMemoryLedger, is_active}

-- The locked balance of a user; a user with no account has none.
abbrev pub locked_of : String → Map Account → ℤ
locked_of user_id accounts = elim (lookup user_id accounts) [
  | none ↦ pos 0
  | some a ↦ a.locked_balance
]

-- What one withdrawal holds of a user's balance.
abbrev pub held_by : String → Withdrawal → ℤ
held_by user_id w =
    if w.user_id == user_id then (if is_active w.status then w.amount else pos 0) else pos 0

abbrev pub HasAmount : Withdrawal → Type 0
HasAmount w = pos 0 ≤ℤ w.amount

abbrev pub IsRecorded : InMemoryLedger → Withdrawal → Type 0
IsRecorded s w = is_some (lookup w.ledger_tx_id s.transactions) ≡ true

abbrev pub IsSolvent : Account → Type 0
IsSolvent a = pos 0 ≤ℤ a.balance

-- Each user's locked balance is the sum of that user's withdrawals under way. Amounts and available
-- balances are not negative, every withdrawal has its ledger transaction, and the ids that
-- `randomUUID` is still to give name no withdrawal.
pub record IsSound (host : Host) (s : InMemoryLedger) : Type 0 where
  pub locked :
      (user_id : String) → locked_of user_id s.accounts ≡ sum_of (held_by user_id) s.withdrawals
  pub amounts : Every HasAmount s.withdrawals
  pub recorded : Every (IsRecorded s) s.withdrawals
  pub balances : Every IsSolvent s.accounts
  pub unissued : (n : ℕ) → s.issued ≤ n → lookup (host.random_uuid n) s.withdrawals ≡ none

-- `randomUUID` never gives an id twice.
abbrev pub IsDistinct : Host → Type 0
IsDistinct host = (m n : ℕ) → host.random_uuid m ≡ host.random_uuid n → m ≡ n

-- A step that leaves the funds alone.
pub record SameFunds (s t : InMemoryLedger) : Type 0 where
  pub accounts_same : t.accounts ≡ s.accounts
  pub withdrawals_same : t.withdrawals ≡ s.withdrawals
  pub transactions_same : t.transactions ≡ s.transactions
  pub issued_grows : s.issued ≤ t.issued

-- A step that writes one withdrawal and leaves the rest of the funds alone.
pub record WritesWithdrawal (s t : InMemoryLedger) (id : String) (w : Withdrawal) : Type 0 where
  pub accounts_same : t.accounts ≡ s.accounts
  pub withdrawals_set : t.withdrawals ≡ insert id w s.withdrawals
  pub transactions_same : t.transactions ≡ s.transactions
  pub deposits_same : t.deposits_by_tx_hash ≡ s.deposits_by_tx_hash
  pub credits_same : t.external_credits_by_reference ≡ s.external_credits_by_reference
  pub issued_grows : s.issued ≤ t.issued
