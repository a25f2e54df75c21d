-- ===== src/Ledger/Lifecycle/Approvals.antt =====
-- The approvals behind a withdrawal: nobody approves twice, and enough approve before it goes on.
use coin_manage.Base.{
  ◌≤◌, String, Bool, true, false, some, ◌≡◌, refl, arith, eq_iff, List, [], ◌∷◌, ◌++◌, ◌==◌,
  if◌then◌else◌, length, inl, inr, Bool-cases,
}
use mathlib.Core.Path.{subst}
use coin_manage.Base.Map.{lookup, insert, lookup-insert}
use coin_manage.Contracts.{Host}
use coin_manage.Ledger.Types.Funds.{WithdrawalStatus, Withdrawal, WithdrawalApproval}
use coin_manage.Ledger.State.{InMemoryLedger}
use coin_manage.Ledger.Withdrawals.{approved_already, approved_by, is_pending_admin, new_approval}
use coin_manage.Ledger.Calls.{Call, run, empty_ledger}
use coin_manage.Ledger.Lifecycle.{
  Effect, quiet, requests, authorises, reviews, approves, broadcasts, confirms, fails, Replaces,
  approvals_of, approvals_with, requested,
}
use coin_manage.Ledger.Lifecycle.Run.{run_inv}

-- The statuses that only approved withdrawals have.
abbrev pub is_past_approval : WithdrawalStatus → Bool
is_past_approval WithdrawalStatus.admin_approved = true
is_past_approval WithdrawalStatus.tx_broadcasted = true
is_past_approval WithdrawalStatus.completed = true
is_past_approval _ = false

abbrev pub HasDistinctAdmins : List WithdrawalApproval → Type 0
HasDistinctAdmins [] = Unit
HasDistinctAdmins (a ∷ xs) = (approved_already a.admin_id xs ≡ false) × HasDistinctAdmins xs

-- The counter is the number of approvals, no admin gave two of them, and past the approval they are
-- xs many xs the withdrawal requires.
pub record HasApprovals (w : Withdrawal) (approvals : List WithdrawalApproval) : Type 0 where
  pub counted : w.approval_count ≡ length approvals
  pub distinct_admins : HasDistinctAdmins approvals
  pub enough : is_past_approval w.status ≡ true → w.required_approvals ≤ length approvals

abbrev pub IsApproved : InMemoryLedger → Type 0
IsApproved s =
    (id : String) (w : Withdrawal)
    → lookup id s.withdrawals ≡ some w
    → HasApprovals w (approvals_of id s)

approved_already-append :
    (admin : String) (xs : List WithdrawalApproval) (b : WithdrawalApproval)
    → approved_already admin xs ≡ false
    → (b.admin_id == admin) ≡ false
    → approved_already admin (xs ++ b ∷ []) ≡ false
approved_already-append admin [] b none_yet other = ground arith
approved_already-append admin (a ∷ xs) b none_yet other =
    ground (arith, approved_already-append admin xs b)

HasDistinctAdmins-append :
    (xs : List WithdrawalApproval) (b : WithdrawalApproval)
    → HasDistinctAdmins xs
    → approved_already b.admin_id xs ≡ false
    → HasDistinctAdmins (xs ++ b ∷ [])
HasDistinctAdmins-append [] b h new = (refl, tt)
HasDistinctAdmins-append (a ∷ xs) b h new = (
  approved_already-append a.admin_id xs b h.0
      (ground (arith, eq_iff a.admin_id b.admin_id, eq_iff b.admin_id a.admin_id)),
  HasDistinctAdmins-append xs b h.1 (ground arith),
)

-- A withdrawal that moves on keeps its approvals, and enters no status that needs them but from one.
moved :
    {x x' : Withdrawal} {xs : List WithdrawalApproval}
    → HasApprovals x xs
    → x'.approval_count ≡ x.approval_count
    → x'.required_approvals ≡ x.required_approvals
    → (is_past_approval x'.status ≡ true → is_past_approval x.status ≡ true)
    → HasApprovals x' xs
moved a count required from = record {
  counted = ground arith;
  distinct_admins = a.distinct_admins;
  enough = λ past. let n : _ = a.enough (from past) in ground arith;
}

-- One more approval, of somebody else.
approved-HasApprovals :
    (now : String) (x : Withdrawal) (xs : List WithdrawalApproval) (b : WithdrawalApproval)
    → HasApprovals x xs
    → is_pending_admin x.status ≡ true
    → approved_already b.admin_id xs ≡ false
    → HasApprovals (approved_by (length (xs ++ b ∷ [])) now x) (xs ++ b ∷ [])
approved-HasApprovals now x xs b a pending new = record {
  counted = ground arith;
  distinct_admins = HasDistinctAdmins-append xs b a.distinct_admins new;
  enough = λ past. ground arith;
}

module _ (s t : InMemoryLedger) (h : IsApproved s) where
  replaced-IsApproved :
      {id : String} {x x' : Withdrawal}
      → Replaces s t id x x'
      → (HasApprovals x (approvals_of id s) → HasApprovals x' (approvals_of id s))
      → IsApproved t
  replaced-IsApproved {id} {x} {x'} step f j w e =
      rw step.approvals_same
        (one step.found (ground (arith, lookup-insert id j x' s.withdrawals, step.withdrawals_set)))
    where
      one :
          lookup id s.withdrawals ≡ some x
          → (if id == j then some x' else lookup j s.withdrawals) ≡ some w
          → HasApprovals w (approvals_of j s)
      one found e = elim (Bool-cases (id == j)) [
        | inl same ↦
            let i : id ≡ j = ground (arith, eq_iff id j) in
            let q : x' ≡ w = ground arith in
            subst (λ k. HasApprovals w (approvals_of k s)) i
              (subst (λ v. HasApprovals v (approvals_of id s)) q (f (h id x found)))
        | inr other ↦ h j w (ground arith)
      ]

  written-IsApproved :
      (id : String) (x' : Withdrawal) (bs : List WithdrawalApproval)
      → t.withdrawals ≡ insert id x' s.withdrawals
      → t.approvals_by_withdrawal_id ≡ insert id bs s.approvals_by_withdrawal_id
      → HasApprovals x' bs
      → IsApproved t
  written-IsApproved id x' bs set listed new j w e = elim (Bool-cases (id == j)) [
    | inl same ↦
        let q : x' ≡ w = ground (arith, lookup-insert id j x' s.withdrawals) in
        let l : bs ≡ approvals_of j t =
          ground (arith, lookup-insert id j bs s.approvals_by_withdrawal_id) in
        subst (λ v. HasApprovals w v) l (subst (λ v. HasApprovals v bs) q new)
    | inr other ↦
        let l : approvals_of j s ≡ approvals_of j t =
          ground (arith, lookup-insert id j bs s.approvals_by_withdrawal_id) in
        subst (λ v. HasApprovals w v) l
          (h j w (ground (arith, lookup-insert id j x' s.withdrawals)))
  ]

module _ {host : Host} {s t : InMemoryLedger} where
  Effect-IsApproved : {now : String} → Effect host now s t → IsApproved s → IsApproved t
  Effect-IsApproved (quiet same listed _) h = λ j w e. rw listed (h j w (ground arith))
  Effect-IsApproved {now} (requests input _ _ set listed _) h =
      written-IsApproved s t h _ (requested host input now s) [] set listed (ground arith)
  Effect-IsApproved (authorises id p r x b step) h =
      replaced-IsApproved s t h step (λ a. moved a refl refl (ground arith))
  Effect-IsApproved (reviews id x b step) h =
      replaced-IsApproved s t h step (λ a. moved a refl refl (ground arith))
  Effect-IsApproved {now} (approves id a input x b c found set listed _) h =
      written-IsApproved s t h id _ (approvals_with input a id now s) set listed (
        approved-HasApprovals now x (approvals_of id s) (new_approval input a id now) (h id x found)
          b c)
  Effect-IsApproved (broadcasts id tx x b step) h =
      replaced-IsApproved s t h step (λ a. moved a refl refl (ground arith))
  Effect-IsApproved (confirms id x b step) h =
      replaced-IsApproved s t h step (λ a. moved a refl refl (ground arith))
  Effect-IsApproved (fails id reason x b step) h =
      replaced-IsApproved s t h step (λ a. moved a refl refl (ground arith))

empty_ledger-IsApproved : IsApproved empty_ledger
unfolding lookup
empty_ledger-IsApproved id w e = ground arith

-- After any calls on a new ledger, in a withdrawal's record and its list of approvals: the record
-- counts the approvals in the list, no admin gave two of them, and if the withdrawal is approved,
-- broadcast or completed they are at least as many as it requires.
pub run-IsApproved :
    (host : Host) (calls : List (String × Call)) (id : String) (w : Withdrawal)
    → lookup id (run host calls empty_ledger).withdrawals ≡ some w
    → HasApprovals w (approvals_of id (run host calls empty_ledger))
run-IsApproved host calls =
    run_inv host IsApproved (λ now s t step. Effect-IsApproved step) calls empty_ledger
      empty_ledger-IsApproved
