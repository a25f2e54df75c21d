-- ===== src/VirtualWallets/Keeps.antt =====
-- What every step of src/infrastructure/persistence/in-memory-virtual-wallet-repository.ts keeps: the
-- invariant, and the terms of the wallets.
use coin_manage.Base.{
  ℕ, String, Option, none, some, ◌≡◌, refl, arith, inl, inr, Bool-cases, Option-cases, nat_eq,
}
use coin_manage.Contracts.{Host}
use coin_manage.Ledger.State.{InMemoryLedger, random_uuid}
use coin_manage.VirtualWallets.Types.{IssueInput}
use coin_manage.VirtualWallets.Store.{
  StoredVirtualWalletBinding, InMemoryVirtualWalletRepository, write, get_active_wallet, assign,
  in_ledger,
}
use coin_manage.VirtualWallets.Repository.{
  store_wallet, create_wallet, new_wallet, retire_replaced, retired_for,
}
use coin_manage.VirtualWallets.Heaps.{IsWellFormed, Rewrites, assign-IsWellFormed, nat_eq_iff}
use coin_manage.VirtualWallets.Creation.{
  HasNoActive, store_wallet-IsWellFormed, ledger-IsWellFormed, retired-Rewrites, none-HasNoActive,
  retired-HasNoActive, active_there,
}

-- Each wallet is still there, its terms unchanged, and none became active.
pub record Keeps (s t : InMemoryVirtualWalletRepository) : Type 0 where
  pub well_formed : IsWellFormed t
  pub kept :
      (ref : ℕ) (v : StoredVirtualWalletBinding)
      → s.heap ref ≡ some v
      → (w : StoredVirtualWalletBinding) × (t.heap ref ≡ some w) × Rewrites v w

pub Rewrites-refl : (v : StoredVirtualWalletBinding) → Rewrites v v
Rewrites-refl v = ground arith

Rewrites-trans : {u v w : StoredVirtualWalletBinding} → Rewrites u v → Rewrites v w → Rewrites u w
Rewrites-trans p q = record {
  id_kept = cc (p.id_kept, q.id_kept);
  user_kept = cc (p.user_kept, q.user_kept);
  currency_kept = cc (p.currency_kept, q.currency_kept);
  network_kept = cc (p.network_kept, q.network_kept);
  address_kept = cc (p.address_kept, q.address_kept);
  private_key_kept = cc (p.private_key_kept, q.private_key_kept);
  key_kept = cc (p.key_kept, q.key_kept);
  activity_kept = λ a. p.activity_kept (q.activity_kept a);
}

pub Keeps-refl : (s : InMemoryVirtualWalletRepository) → IsWellFormed s → Keeps s s
Keeps-refl s h = record { well_formed = h; kept = λ ref v e. (v, e, Rewrites-refl v) }

pub Keeps-trans : {r s t : InMemoryVirtualWalletRepository} → Keeps r s → Keeps s t → Keeps r t
Keeps-trans p q = record {
  well_formed = q.well_formed;
  kept = λ ref v e.
      let (w, there, first) = p.kept ref v e in
      let (x, there', second) = q.kept ref w there in (x, there', Rewrites-trans first second);
}

pub assign-Keeps :
    (ref : ℕ) (v w : StoredVirtualWalletBinding) (s : InMemoryVirtualWalletRepository)
    → s.heap ref ≡ some v
    → Rewrites v w
    → IsWellFormed s
    → Keeps s (assign ref w s)
unfolding write
assign-Keeps ref v w s found step h = record {
  well_formed = assign-IsWellFormed ref v w s found step h;
  kept = λ p x e. elim (Bool-cases (nat_eq p ref)) [
    | inl here ↦
        let q : p ≡ ref = (nat_eq_iff p ref).1 here in
        let same : v ≡ x = ground (arith, q) in (w, ground arith, rw same at step)
    | inr other ↦ (x, ground arith, Rewrites-refl x)
  ];
}

store_wallet-Keeps :
    (x : StoredVirtualWalletBinding) (s : InMemoryVirtualWalletRepository)
    → HasNoActive x.shown.user_id x.shown.currency_id s
    → IsWellFormed s
    → Keeps s (store_wallet x s)
store_wallet-Keeps x s alone h = record {
  well_formed = store_wallet-IsWellFormed x s h alone;
  kept = λ p v e. (
    v,
    unfold store_wallet write in ground (arith, h.fresh p, nat_eq_iff p s.allocated),
    Rewrites-refl v,
  );
}

pub ledger-Keeps :
    (s : InMemoryVirtualWalletRepository) (ledger : InMemoryLedger)
    → IsWellFormed s
    → Keeps s (record s { ledger = ledger })
ledger-Keeps s ledger h = record {
  well_formed = ledger-IsWellFormed s ledger h;
  kept = λ ref v e. (v, e, Rewrites-refl v);
}

module _ (host : Host) (input : IssueInput) (now : String) (s : InMemoryVirtualWalletRepository)
    (h : IsWellFormed s) where
  abbrev new_id : String
  new_id = host.random_uuid s.ledger.issued

  abbrev drawn : InMemoryVirtualWalletRepository
  drawn = (in_ledger (random_uuid host) s).1

  created :
      (replaced : Option (ℕ × StoredVirtualWalletBinding))
      → (create_wallet host input replaced now s).1
        ≡ record (store_wallet
            (new_wallet input new_id now)
            (retire_replaced replaced new_id now drawn)) {
              ledger = (create_wallet host input replaced now s).1.ledger;
            }
  unfolding create_wallet random_uuid store_wallet
  created replaced = ground arith

  pub drawn-Keeps : Keeps s drawn
  unfolding random_uuid
  drawn-Keeps = ledger-Keeps s _ h

  drawn-active :
      get_active_wallet input.user_id input.currency_id drawn
      ≡ get_active_wallet input.user_id input.currency_id s
  unfolding random_uuid get_active_wallet
  drawn-active = refl

  drawn-heap : drawn.heap ≡ s.heap
  unfolding random_uuid
  drawn-heap = refl

  pub create_wallet-Keeps :
      Keeps s
        (create_wallet host input (get_active_wallet input.user_id input.currency_id s) now s).1
  create_wallet-Keeps =
      let first = drawn-Keeps in
      let x = new_wallet input new_id now in
      elim (Option-cases (get_active_wallet input.user_id input.currency_id s)) [
        | inl e ↦
            let alone =
              none-HasNoActive input.user_id input.currency_id drawn first.well_formed
                (cc (drawn-active, e)) in
            let second = store_wallet-Keeps x drawn alone first.well_formed in
            rw (e, created none)
              (Keeps-trans first
                (Keeps-trans second (ledger-Keeps (store_wallet x drawn) _ second.well_formed)))
        | inr ((ref, v), e) ↦
            let e' : get_active_wallet input.user_id input.currency_id drawn ≡ some (ref, v) =
              cc (drawn-active, e) in
            let (there, act, mine) =
              active_there input.user_id input.currency_id drawn first.well_formed ref v e' in
            let w = record v { shown = retired_for (some new_id) now v.shown } in
            let second =
              assign-Keeps ref v w drawn there (retired-Rewrites v (some new_id) now)
                first.well_formed in
            let alone =
              retired-HasNoActive input.user_id input.currency_id drawn first.well_formed ref v e'
                (some new_id) now in
            let third = store_wallet-Keeps x (assign ref w drawn) alone second.well_formed in
            rw (e, created (some (ref, v)))
              (Keeps-trans first (
                Keeps-trans second (
                  Keeps-trans third
                    (ledger-Keeps (store_wallet x (assign ref w drawn)) _ third.well_formed))))
      ]
