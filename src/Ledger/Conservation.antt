-- ===== src/Ledger/Conservation.antt =====
-- What src/ledger/in-memory-ledger.ts owes its users, and where it came from. The children prove that
-- no method makes or loses money.
mod Accounts
mod Methods
mod Withdrawals
mod Settlements
pub mod Run
use coin_manage.Base.{String, none, some, ◌≡◌, refl}
use coin_manage.Base.Int.{ℤ, pos, ◌+ℤ◌, int_laws}
use coin_manage.Base.Keys.{HasDistinctKeys}
use coin_manage.Base.Map.{Map, lookup, sum_of}
use coin_manage.Ledger.Types.Funds.{
  Account, Deposit, ExternalCreditApplyResult, Withdrawal, WithdrawalStatus,
}
use coin_manage.Ledger.State.{InMemoryLedger}

-- What the ledger owes the owner of an account.
abbrev pub held : Account → ℤ
held a = a.balance +ℤ a.locked_balance

abbrev pub held_of : String → Map Account → ℤ
held_of user_id accounts = elim (lookup user_id accounts) [ none ↦ pos 0 | some a ↦ held a ]

abbrev pub paid_out : Withdrawal → ℤ
paid_out w = elim w.status [ WithdrawalStatus.completed ↦ w.amount | other ↦ pos 0 ]

-- The sum of all balances, available and locked.
abbrev pub liability : InMemoryLedger → ℤ
liability s = sum_of held s.accounts

-- What went out on chain.
abbrev pub outflow : InMemoryLedger → ℤ
outflow s = sum_of paid_out s.withdrawals

-- What came in: deposits and external credits.
abbrev pub inflow : InMemoryLedger → ℤ
inflow s =
    sum_of (λ (d : Deposit). d.amount) s.deposits_by_tx_hash
    +ℤ sum_of (λ (c : ExternalCreditApplyResult). c.amount) s.external_credits_by_reference

-- What is owed and what was paid are what came in, and the deposits stand under distinct keys.
pub record IsBalanced (s : InMemoryLedger) : Type 0 where
  pub books : liability s +ℤ outflow s ≡ inflow s
  pub keys : HasDistinctKeys s.deposits_by_tx_hash

-- A step that changes what is owed by `a`, what was paid by `b` and what came in by `c`.
pub record Moves (s t : InMemoryLedger) (a b c : ℤ) : Type 0 where
  pub liability_moved : liability t ≡ liability s +ℤ a
  pub outflow_moved : outflow t ≡ outflow s +ℤ b
  pub inflow_moved : inflow t ≡ inflow s +ℤ c
  pub keys_kept : HasDistinctKeys s.deposits_by_tx_hash → HasDistinctKeys t.deposits_by_tx_hash

sums_agree :
    (l o i l' o' i' a b c : ℤ)
    → l' ≡ l +ℤ a
    → o' ≡ o +ℤ b
    → i' ≡ i +ℤ c
    → a +ℤ b ≡ c
    → l +ℤ o ≡ i
    → l' +ℤ o' ≡ i'
sums_agree l o i l' o' i' a b c p q r e h =
    let z : l +ℤ a +ℤ (o +ℤ b) ≡ (l +ℤ o) +ℤ (a +ℤ b) = omega int_laws in rw (p, q, r, z, e, h) refl

pub Moves-IsBalanced :
    {s t : InMemoryLedger} {a b c : ℤ} → Moves s t a b c → a +ℤ b ≡ c → IsBalanced s → IsBalanced t
Moves-IsBalanced {a = a} {b = b} {c = c} step e h = record {
  books =
      sums_agree _ _ _ _ _ _ a b c step.liability_moved step.outflow_moved step.inflow_moved e
        h.books;
  keys = step.keys_kept h.keys;
}

-- A step that leaves the money alone.
pub record SameMoney (s t : InMemoryLedger) : Type 0 where
  pub accounts_same : t.accounts ≡ s.accounts
  pub withdrawals_same : t.withdrawals ≡ s.withdrawals
  pub deposits_same : t.deposits_by_tx_hash ≡ s.deposits_by_tx_hash
  pub credits_same : t.external_credits_by_reference ≡ s.external_credits_by_reference

pub SameMoney-IsBalanced : {s t : InMemoryLedger} → SameMoney s t → IsBalanced s → IsBalanced t
SameMoney-IsBalanced same h = record {
  books =
      rw (same.accounts_same, same.withdrawals_same, same.deposits_same, same.credits_same) h.books;
  keys = rw same.deposits_same h.keys;
}

-- A step that moves money between the accounts only, and pays nothing out.
pub record MovesWithin (s t : InMemoryLedger) : Type 0 where
  pub liability_same : liability t ≡ liability s
  pub outflow_same : outflow t ≡ outflow s
  pub deposits_same : t.deposits_by_tx_hash ≡ s.deposits_by_tx_hash
  pub credits_same : t.external_credits_by_reference ≡ s.external_credits_by_reference

pub MovesWithin-IsBalanced : {s t : InMemoryLedger} → MovesWithin s t → IsBalanced s → IsBalanced t
MovesWithin-IsBalanced same h = record {
  books =
      rw (same.liability_same, same.outflow_same, same.deposits_same, same.credits_same) h.books;
  keys = rw same.deposits_same h.keys;
}
