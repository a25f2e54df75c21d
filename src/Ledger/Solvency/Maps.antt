-- ===== src/Ledger/Solvency/Maps.antt =====
-- Lock sums under the changes that the methods make, and the invariant under steps that leave the
-- accounts alone.
use mathlib.Core.Path.{subst}
use native.Mathlib.Nat.{le_trans}
use coin_manage.Base.{ℕ, String, true, false, none, some, ◌≡◌, ◌==◌, arith, eq_iff, if◌then◌else◌}
use coin_manage.Base.Int.{pos, ◌≤ℤ◌, ◌-ℤ◌, ◌+ℤ◌, int_laws}
use coin_manage.Base.Map.{
  Map, lookup, insert, sum_of, Every-lookup, Every-insert, Every-weaken, le-sum_of, lookup-insert,
  sum_of-insert, sum_of-insert_new,
}
use coin_manage.Contracts.{Host}
use coin_manage.Ledger.Types.Funds.{Account, Withdrawal}
use coin_manage.Ledger.State.{InMemoryLedger, is_active}
use coin_manage.Ledger.Solvency.{
  locked_of, held_by, IsRecorded, IsSound, SameFunds, WritesWithdrawal,
}

-- A withdrawal under way ends, and its amount leaves the lock.
pub release-locked :
    (A A' : Map Account) (W : Map Withdrawal) (id : String) (w w' : Withdrawal) (u : String)
    → lookup id W ≡ some w
    → w'.user_id ≡ w.user_id
    → is_active w.status ≡ true
    → is_active w'.status ≡ false
    → locked_of u A' ≡ (if w.user_id == u then locked_of u A -ℤ w.amount else locked_of u A)
    → locked_of u A ≡ sum_of (held_by u) W
    → locked_of u A' ≡ sum_of (held_by u) (insert id w' W)
release-locked A A' W id w w' u e same act inact l h =
    grind (int_laws, sum_of-insert (held_by u) id w' w W e)

-- A new withdrawal, and its amount in the lock.
pub reserve-locked :
    (A A' : Map Account) (W : Map Withdrawal) (id : String) (w : Withdrawal) (u : String)
    → lookup id W ≡ none
    → is_active w.status ≡ true
    → locked_of u A' ≡ (if w.user_id == u then locked_of u A +ℤ w.amount else locked_of u A)
    → locked_of u A ≡ sum_of (held_by u) W
    → locked_of u A' ≡ sum_of (held_by u) (insert id w W)
reserve-locked A A' W id w u e act l h = grind (int_laws, sum_of-insert_new (held_by u) id w W e)

-- A withdrawal written over one that holds as much.
pub keep-sum :
    (W : Map Withdrawal) (id : String) (w w' : Withdrawal) (u : String)
    → lookup id W ≡ some w
    → w'.user_id ≡ w.user_id
    → w'.amount ≡ w.amount
    → is_active w'.status ≡ is_active w.status
    → sum_of (held_by u) (insert id w' W) ≡ sum_of (held_by u) W
keep-sum W id w w' u e user amount act =
    grind (int_laws, sum_of-insert (held_by u) id w' w W e, same_hold)
  where
    same_hold : held_by u w' ≡ held_by u w
    same_hold = ground (arith, user, amount, act)

-- The lock of a user covers each of the user's withdrawals under way.
pub covered_by_lock :
    (host : Host) (s : InMemoryLedger) (id : String) (w : Withdrawal)
    → IsSound host s
    → lookup id s.withdrawals ≡ some w
    → is_active w.status ≡ true
    → w.amount ≤ℤ locked_of w.user_id s.accounts
covered_by_lock host s id w h e act = rw (h.locked w.user_id) (
    subst (λ x. x ≤ℤ sum_of (held_by w.user_id) s.withdrawals) held_self
      (le-sum_of (held_by w.user_id) id w s.withdrawals
        (Every-weaken _ _ s.withdrawals (held_nonneg w.user_id) h.amounts) e))
  where
    held_self : held_by w.user_id w ≡ w.amount
    held_self = ground (arith, act, eq_iff w.user_id w.user_id)

    held_nonneg : (u : String) (v : Withdrawal) → pos 0 ≤ℤ v.amount → pos 0 ≤ℤ held_by u v
    held_nonneg u v p = ground arith

-- A withdrawal that is there stands under an id that was issued.
pub unissued-insert :
    (host : Host) (s : InMemoryLedger) (id : String) (w w' : Withdrawal) (n : ℕ)
    → lookup (host.random_uuid n) s.withdrawals ≡ none
    → lookup id s.withdrawals ≡ some w
    → lookup (host.random_uuid n) (insert id w' s.withdrawals) ≡ none
unissued-insert host s id w w' n free e =
    ground (
      arith,
      lookup-insert id (host.random_uuid n) w' s.withdrawals,
      eq_iff id (host.random_uuid n),
    )

module _ {host : Host} {s t : InMemoryLedger} where
  pub SameFunds-IsSound : SameFunds s t → IsSound host s → IsSound host t
  SameFunds-IsSound same h = record {
    locked = λ u. rw (same.accounts_same, same.withdrawals_same) (h.locked u);
    amounts = rw same.withdrawals_same h.amounts;
    recorded =
        rw same.withdrawals_same
          (Every-weaken _ _ s.withdrawals (λ w p. rw same.transactions_same p) h.recorded);
    balances = rw same.accounts_same h.balances;
    unissued = λ n le. rw same.withdrawals_same (h.unissued n (le_trans same.issued_grows le));
  }

  -- A withdrawal that holds as much as before, with the same ledger transaction.
  pub WritesWithdrawal-IsSound :
      (id : String) (w w' : Withdrawal)
      → WritesWithdrawal s t id w'
      → lookup id s.withdrawals ≡ some w
      → w'.user_id ≡ w.user_id
      → w'.amount ≡ w.amount
      → w'.ledger_tx_id ≡ w.ledger_tx_id
      → is_active w'.status ≡ is_active w.status
      → IsSound host s
      → IsSound host t
  WritesWithdrawal-IsSound id w w' step e user amount tx act h = record {
    locked = λ u.
        rw
          (
            step.accounts_same,
            step.withdrawals_set,
            keep-sum s.withdrawals id w w' u e user amount act,
          )
          (h.locked u);
    amounts = rw step.withdrawals_set (
        Every-insert _ id w' s.withdrawals h.amounts
          (rw amount (Every-lookup _ id w s.withdrawals h.amounts e)));
    recorded = rw step.withdrawals_set (
        Every-weaken _ _ (insert id w' s.withdrawals) (λ v p. rw step.transactions_same p)
          (Every-insert (IsRecorded s) id w' s.withdrawals h.recorded
            (rw tx (Every-lookup _ id w s.withdrawals h.recorded e))));
    balances = rw step.accounts_same h.balances;
    unissued = λ n le.
        rw (step.withdrawals_set)
          (unissued-insert host s id w w' n (h.unissued n (le_trans step.issued_grows le)) e);
  }
