-- ===== src/VirtualWallets/Run.antt =====
-- The repository of src/infrastructure/persistence/in-memory-virtual-wallet-repository.ts after any
-- sequence of calls.
use coin_manage.Base.{
  ℕ, String, Option, some, List, [], ◌∷◌, ◌≡◌, refl, arith, inl, inr, Bool-cases, Option-cases, ◌⊎◌,
}
use coin_manage.Base.Map.{lookup}
use coin_manage.Base.Action.{Result-cases}
use coin_manage.Contracts.{Host}
use coin_manage.Ledger.State.{InMemoryLedger}
use coin_manage.VirtualWallets.Types.{is_active, is_disabled, IssueInput, VirtualWalletBinding}
use coin_manage.VirtualWallets.Store.{
  StoredVirtualWalletBinding, InMemoryVirtualWalletRepository, deref, get_active_wallet, assign,
}
use coin_manage.VirtualWallets.Repository.{
  create_wallet, check_issue, issue_virtual_wallet, reissue_virtual_wallet, retire_virtual_wallet,
  disable_virtual_wallet, made_for, retired_for, disabled_from,
}
use coin_manage.VirtualWallets.Repository.Marks.{
  change_binding, with_activation_granted, mark_activation_granted, with_activation_reclaim_pending,
  mark_activation_reclaim_pending, with_activation_reclaimed, mark_activation_reclaimed,
  with_activation_failed, mark_activation_failed, with_resource_delegate_pending,
  mark_resource_delegate_pending, with_resource_delegated, mark_resource_delegated,
  with_resource_release_pending, mark_resource_release_pending, with_resource_released,
  mark_resource_released, with_resource_failed, mark_resource_failed,
}
use coin_manage.VirtualWallets.Calls.{Call, perform, run, empty_repository}
use coin_manage.VirtualWallets.Heaps.{IsWellFormed, Rewrites}
use coin_manage.VirtualWallets.Creation.{retired-Rewrites}
use coin_manage.VirtualWallets.Keeps.{Keeps, Keeps-refl, assign-Keeps, create_wallet-Keeps}

-- A change of what the repository shows of a wallet that `Rewrites` allows.
abbrev IsAllowed : (VirtualWalletBinding → VirtualWalletBinding) → Type 0
IsAllowed change =
    (v : StoredVirtualWalletBinding) → Rewrites v (record v { shown = change v.shown })

module _ (s : InMemoryVirtualWalletRepository) (h : IsWellFormed s) where
  id_found :
      (id : String) (ref : ℕ) (v : StoredVirtualWalletBinding)
      → deref (lookup id s.wallet_by_id) s.heap ≡ some (ref, v)
      → s.heap ref ≡ some v
  id_found id ref v e = ground arith

  change_binding-Keeps :
      (id : String) (change : VirtualWalletBinding → VirtualWalletBinding)
      → IsAllowed change
      → Keeps s (change_binding id change s).1
  change_binding-Keeps id change allowed =
      elim (Option-cases (deref (lookup id s.wallet_by_id) s.heap)) [
        | inl e ↦
            let q : (change_binding id change s).1 ≡ s = unfold change_binding in ground arith in
            rw q (Keeps-refl s h)
        | inr ((ref, v), e) ↦
            let q : (change_binding id change s).1
                ≡ assign ref (record v { shown = change v.shown }) s =
              unfold change_binding in ground arith in
            rw q (assign-Keeps ref v _ s (id_found id ref v e) (allowed v) h)
      ]

  retire_virtual_wallet-Keeps :
      (id : String) (by : Option String) (now : String)
      → Keeps s (retire_virtual_wallet id by now s).1
  retire_virtual_wallet-Keeps id by now =
      elim (Option-cases (deref (lookup id s.wallet_by_id) s.heap)) [
        | inl e ↦
            let q : (retire_virtual_wallet id by now s).1 ≡ s =
              unfold retire_virtual_wallet in ground arith in
            rw q (Keeps-refl s h)
        | inr ((ref, v), e) ↦ elim (Bool-cases (is_active v.shown.status)) [
          | inr idle ↦
              let q : (retire_virtual_wallet id by now s).1 ≡ s =
                unfold retire_virtual_wallet in ground arith in
              rw q (Keeps-refl s h)
          | inl act ↦
              let q : (retire_virtual_wallet id by now s).1
                  ≡ assign ref (record v { shown = retired_for by now v.shown }) s =
                unfold retire_virtual_wallet in ground arith in
              rw q (assign-Keeps ref v _ s (id_found id ref v e) (retired-Rewrites v by now) h)
        ]
      ]

  disable_virtual_wallet-Keeps : (id now : String) → Keeps s (disable_virtual_wallet id now s).1
  disable_virtual_wallet-Keeps id now =
      elim (Option-cases (deref (lookup id s.wallet_by_id) s.heap)) [
        | inl e ↦
            let q : (disable_virtual_wallet id now s).1 ≡ s =
              unfold disable_virtual_wallet in ground arith in
            rw q (Keeps-refl s h)
        | inr ((ref, v), e) ↦ elim (Bool-cases (is_disabled v.shown.status)) [
          | inl idle ↦
              let q : (disable_virtual_wallet id now s).1 ≡ s =
                unfold disable_virtual_wallet in ground arith in
              rw q (Keeps-refl s h)
          | inr open_yet ↦
              let q : (disable_virtual_wallet id now s).1
                  ≡ assign ref (record v { shown = disabled_from now v.shown }) s =
                unfold disable_virtual_wallet in ground arith in
              rw q (assign-Keeps ref v _ s (id_found id ref v e) (ground arith) h)
        ]
      ]

  module _ (host : Host) (input : IssueInput) (now : String) where
    abbrev current : Option (ℕ × StoredVirtualWalletBinding)
    current = get_active_wallet input.user_id input.currency_id s

    pub reissue_virtual_wallet-Keeps : Keeps s (reissue_virtual_wallet host input now s).1
    reissue_virtual_wallet-Keeps = elim (Option-cases (made_for input.idempotency_key s)) [
      | inr ((ref, v), e) ↦
          let q : (reissue_virtual_wallet host input now s).1 ≡ s =
            unfold reissue_virtual_wallet in ground arith in
          rw q (Keeps-refl s h)
      | inl e ↦
          let q : (reissue_virtual_wallet host input now s).1
              ≡ (create_wallet host input current now s).1 =
            unfold reissue_virtual_wallet in ground arith in
          rw q (create_wallet-Keeps host input now s h)
    ]

    -- An issue leaves the state, or creates a wallet where there was no active one.
    issue_virtual_wallet-cases :
        ((issue_virtual_wallet host input now s).1 ≡ s)
        ⊎ ((issue_virtual_wallet host input now s).1 ≡ (create_wallet host input current now s).1)
    issue_virtual_wallet-cases = elim (Option-cases (made_for input.idempotency_key s)) [
      | inr (found, e) ↦ inl (unfold issue_virtual_wallet in ground arith)
      | inl fresh ↦ elim (Option-cases current) [
        | inr (found, e) ↦ inl (unfold issue_virtual_wallet in ground arith)
        | inl none_active ↦ elim (Result-cases (check_issue host input s).0) [
          | inr (x, e) ↦ inl (unfold issue_virtual_wallet check_issue in ground arith)
          | inl (x, e) ↦ inr (unfold issue_virtual_wallet check_issue in ground arith)
        ]
      ]
    ]

    pub issue_virtual_wallet-Keeps : Keeps s (issue_virtual_wallet host input now s).1
    issue_virtual_wallet-Keeps = elim issue_virtual_wallet-cases [
      | inl q ↦ rw q (Keeps-refl s h)
      | inr q ↦ rw q (create_wallet-Keeps host input now s h)
    ]

module _ (host : Host) (now : String) (s : InMemoryVirtualWalletRepository)
    (h : IsWellFormed s) where
  -- From a well-formed repository, every call leaves every wallet there, with its user, currency,
  -- network, address and keys unchanged, makes no retired or disabled wallet active, and leaves the
  -- repository well-formed.
  pub perform-Keeps : (call : Call) → Keeps s (perform host now call s)
  unfolding perform
  perform-Keeps (Call.issue_virtual_wallet input) = issue_virtual_wallet-Keeps s h host input now
  perform-Keeps (Call.reissue_virtual_wallet input) =
      reissue_virtual_wallet-Keeps s h host input now
  perform-Keeps (Call.retire_virtual_wallet id by) = retire_virtual_wallet-Keeps s h id by now
  perform-Keeps (Call.disable_virtual_wallet id) = disable_virtual_wallet-Keeps s h id now
  perform-Keeps (Call.mark_activation_granted id tx_hash) =
      unfold mark_activation_granted in
      change_binding-Keeps s h id (with_activation_granted tx_hash now) (λ v. ground arith)
  perform-Keeps (Call.mark_activation_reclaim_pending id tx_hash) =
      unfold mark_activation_reclaim_pending in
      change_binding-Keeps s h id (with_activation_reclaim_pending tx_hash) (λ v. ground arith)
  perform-Keeps (Call.mark_activation_reclaimed id tx_hash) =
      unfold mark_activation_reclaimed in
      change_binding-Keeps s h id (with_activation_reclaimed tx_hash now) (λ v. ground arith)
  perform-Keeps (Call.mark_activation_failed id message) =
      unfold mark_activation_failed in
      change_binding-Keeps s h id (with_activation_failed message) (λ v. ground arith)
  perform-Keeps (Call.mark_resource_delegate_pending id) =
      unfold mark_resource_delegate_pending in
      change_binding-Keeps s h id with_resource_delegate_pending (λ v. ground arith)
  perform-Keeps (Call.mark_resource_delegated id) =
      unfold mark_resource_delegated in
      change_binding-Keeps s h id (with_resource_delegated now) (λ v. ground arith)
  perform-Keeps (Call.mark_resource_release_pending id) =
      unfold mark_resource_release_pending in
      change_binding-Keeps s h id with_resource_release_pending (λ v. ground arith)
  perform-Keeps (Call.mark_resource_released id) =
      unfold mark_resource_released in
      change_binding-Keeps s h id (with_resource_released now) (λ v. ground arith)
  perform-Keeps (Call.mark_resource_failed id message) =
      unfold mark_resource_failed in
      change_binding-Keeps s h id (with_resource_failed message) (λ v. ground arith)

run-IsWellFormed_from :
    (host : Host) (calls : List (String × Call)) (s : InMemoryVirtualWalletRepository)
    → IsWellFormed s
    → IsWellFormed (run host calls s)
unfolding run
run-IsWellFormed_from host [] s h = h
run-IsWellFormed_from host ((now, call) ∷ calls) s h =
    run-IsWellFormed_from host calls (perform host now call s)
      (perform-Keeps host now s h call).well_formed

pub empty_repository-IsWellFormed :
    (ledger : InMemoryLedger) → IsWellFormed (empty_repository ledger)
unfolding lookup
empty_repository-IsWellFormed ledger = record {
  fresh = λ ref le. refl;
  listed = λ ref w e. absurd (ground arith);
  owned = λ ref u l. absurd (ground arith);
  unique = λ p q v w e e' r. absurd (ground arith);
  by_address = λ a ref e. absurd (ground arith);
  by_id = λ a ref e. absurd (ground arith);
  by_key = λ a ref e. absurd (ground arith);
}

-- After any sequence of calls on a new repository, whatever the ledger answers: a user has at most
-- one active wallet in a currency, every wallet stands in the list of its user and in no other, and
-- the maps by address, by id and by idempotency key lead to wallets that carry their keys.
pub run-IsWellFormed :
    (host : Host) (ledger : InMemoryLedger) (calls : List (String × Call))
    → IsWellFormed (run host calls (empty_repository ledger))
run-IsWellFormed host ledger calls =
    run-IsWellFormed_from host calls (empty_repository ledger)
      (empty_repository-IsWellFormed ledger)
