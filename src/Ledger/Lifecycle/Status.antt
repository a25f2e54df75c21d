-- ===== src/Ledger/Lifecycle/Status.antt =====
-- The status of a withdrawal moves along the edges of its state machine, and its terms stay.
use coin_manage.Base.{
  ℕ, ◌+◌, ◌≤◌, String, Bool, true, false, some, none, ◌≡◌, arith, eq_iff, ◌==◌, inl, inr,
  Bool-cases,
}
use mathlib.Core.Path.{subst}
use coin_manage.Base.Map.{Map, lookup, insert, lookup-insert}
use coin_manage.Contracts.{Host}
use coin_manage.Ledger.Types.Funds.{
  WithdrawalStatus, ledger_reserved, pending_admin, admin_approved, tx_broadcasted, completed,
  Withdrawal,
}
use coin_manage.Ledger.State.{InMemoryLedger}
use coin_manage.Ledger.Lifecycle.{
  Effect, quiet, requests, authorises, reviews, approves, broadcasts, confirms, fails, Replaces,
}

-- The edges; a status may also stay.
abbrev pub may_become : WithdrawalStatus → WithdrawalStatus → Bool
may_become ledger_reserved ledger_reserved = true
may_become ledger_reserved pending_admin = true
may_become ledger_reserved WithdrawalStatus.failed = true
may_become pending_admin pending_admin = true
may_become pending_admin admin_approved = true
may_become pending_admin WithdrawalStatus.failed = true
may_become admin_approved admin_approved = true
may_become admin_approved tx_broadcasted = true
may_become admin_approved WithdrawalStatus.failed = true
may_become tx_broadcasted tx_broadcasted = true
may_become tx_broadcasted completed = true
may_become tx_broadcasted WithdrawalStatus.failed = true
may_become completed completed = true
may_become WithdrawalStatus.failed WithdrawalStatus.failed = true
may_become WithdrawalStatus.rejected WithdrawalStatus.rejected = true
may_become _ _ = false

-- What was asked for is never rewritten.
pub record SameTerms (w w' : Withdrawal) : Type 0 where
  pub user_same : w'.user_id ≡ w.user_id
  pub amount_same : w'.amount ≡ w.amount
  pub address_same : w'.to_address ≡ w.to_address
  pub key_same : w'.idempotency_key ≡ w.idempotency_key
  pub tx_same : w'.ledger_tx_id ≡ w.ledger_tx_id
  pub created_same : w'.created_at ≡ w.created_at
  pub required_same : w'.required_approvals ≡ w.required_approvals

pub record Advances (w w' : Withdrawal) : Type 0 where
  pub edge : may_become w.status w'.status ≡ true
  pub terms : SameTerms w w'

-- The ids that `randomUUID` is still to give name no withdrawal.
pub record IsUnissued (host : Host) (s : InMemoryLedger) : Type 0 where
  pub unissued : (n : ℕ) → s.issued ≤ n → lookup (host.random_uuid n) s.withdrawals ≡ none

may_stay : (status : WithdrawalStatus) → may_become status status ≡ true
may_stay status = ground arith

Advances-refl : (w : Withdrawal) → Advances w w
Advances-refl w = record { edge = may_stay w.status; terms = ground arith }

module _ (W : Map Withdrawal) (j : String) (w : Withdrawal) (e : lookup j W ≡ some w) where
  -- One withdrawal is written over another that it advances.
  advance_one :
      (id : String) (x x' : Withdrawal)
      → lookup id W ≡ some x
      → Advances x x'
      → (w' : Withdrawal) × (lookup j (insert id x' W) ≡ some w') × Advances w w'
  advance_one id x x' found step = elim (Bool-cases (id == j)) [
    | inl same ↦
        let q : x ≡ w = ground (arith, eq_iff id j) in
        (x', ground (arith, lookup-insert id j x' W), subst (λ y. Advances y x') q step)
    | inr other ↦ (w, ground (arith, lookup-insert id j x' W), Advances-refl w)
  ]

  -- A new withdrawal stands under an id that named none.
  advance_new :
      (id : String) (x : Withdrawal)
      → lookup id W ≡ none
      → (w' : Withdrawal) × (lookup j (insert id x W) ≡ some w') × Advances w w'
  advance_new id x free = (w, ground (arith, lookup-insert id j x W, eq_iff id j), Advances-refl w)

module _ {s t : InMemoryLedger} (j : String) (w : Withdrawal) where
  replaced :
      {id : String} {x x' : Withdrawal}
      → lookup j s.withdrawals ≡ some w
      → Replaces s t id x x'
      → Advances x x'
      → (w' : Withdrawal) × (lookup j t.withdrawals ≡ some w') × Advances w w'
  replaced {id} {x} {x'} e r step =
      rw r.withdrawals_set (advance_one s.withdrawals j w e id x x' r.found step)

  -- In a step every withdrawal stays in the map and moves along an edge at most.
  pub Effect-Advances :
      {host : Host} {now : String}
      → Effect host now s t
      → IsUnissued host s
      → lookup j s.withdrawals ≡ some w
      → (w' : Withdrawal) × (lookup j t.withdrawals ≡ some w') × Advances w w'
  Effect-Advances (quiet same _ _) h e = (w, rw same e, Advances-refl w)
  Effect-Advances (requests input _ _ set _ _) h e =
      rw set (advance_new s.withdrawals j w e _ _ (h.unissued (s.issued + 1) (omega arith)))
  Effect-Advances (authorises id p r x b step) h e = replaced e step (ground arith)
  Effect-Advances (reviews id x b step) h e = replaced e step (ground arith)
  Effect-Advances (approves id a input x b c found set _ _) h e =
      rw set (advance_one s.withdrawals j w e id x _ found (ground arith))
  Effect-Advances (broadcasts id tx x b step) h e = replaced e step (ground arith)
  Effect-Advances (confirms id x b step) h e = replaced e step (ground arith)
  Effect-Advances (fails id reason x b step) h e = replaced e step (ground arith)
