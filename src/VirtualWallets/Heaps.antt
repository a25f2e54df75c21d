-- ===== src/VirtualWallets/Heaps.antt =====
-- The invariant of src/infrastructure/persistence/in-memory-virtual-wallet-repository.ts, and the two
-- ways in which its methods write objects.
use coin_manage.Base.{
  ℕ, ◌≤◌, String, Bool, true, false, none, some, List, [], ◌∷◌, ◌≡◌, refl, arith, nat_eq, any, inl,
  inr, Bool-cases,
}
use coin_manage.Base.Map.{Map, lookup}
use coin_manage.VirtualWallets.Types.{is_active}
use coin_manage.VirtualWallets.Store.{
  StoredVirtualWalletBinding, Heap, InMemoryVirtualWalletRepository, write, find_wallet, wallets_of,
  assign,
}

abbrev pub is_listed : ℕ → List ℕ → Bool
is_listed ref = any (nat_eq ref)

-- Every reference of the map leads to an object with that key.
abbrev pub Leads : (StoredVirtualWalletBinding → String) → Map ℕ → Heap → Type 0
Leads key m heap =
    (at : String) (ref : ℕ)
    → lookup at m ≡ some ref
    → (w : StoredVirtualWalletBinding) × (heap ref ≡ some w) × (key w ≡ at)

abbrev pub address_of : StoredVirtualWalletBinding → String
address_of w = w.shown.wallet_address

abbrev pub id_of : StoredVirtualWalletBinding → String
id_of w = w.shown.virtual_wallet_id

abbrev pub key_of : StoredVirtualWalletBinding → String
key_of w = w.idempotency_key

-- Both objects are active wallets of one user in one currency.
pub record AreRivals (v w : StoredVirtualWalletBinding) : Type 0 where
  pub user_same : v.shown.user_id ≡ w.shown.user_id
  pub currency_same : v.shown.currency_id ≡ w.shown.currency_id
  pub first_active : is_active v.shown.status ≡ true
  pub second_active : is_active w.shown.status ≡ true

-- A user has at most one active wallet in a currency, every object is in the list of its user and in
-- no other, and the maps lead to the objects that their keys name.
pub record IsWellFormed (s : InMemoryVirtualWalletRepository) : Type 0 where
  pub fresh : (ref : ℕ) → s.allocated ≤ ref → s.heap ref ≡ none
  pub listed :
      (ref : ℕ) (w : StoredVirtualWalletBinding)
      → s.heap ref ≡ some w
      → is_listed ref (wallets_of w.shown.user_id s) ≡ true
  pub owned :
      (ref : ℕ) (user_id : String)
      → is_listed ref (wallets_of user_id s) ≡ true
      → (w : StoredVirtualWalletBinding) × (s.heap ref ≡ some w) × (w.shown.user_id ≡ user_id)
  pub unique :
      (p q : ℕ) (v w : StoredVirtualWalletBinding)
      → s.heap p ≡ some v
      → s.heap q ≡ some w
      → AreRivals v w
      → p ≡ q
  pub by_address : Leads address_of s.wallet_by_address s.heap
  pub by_id : Leads id_of s.wallet_by_id s.heap
  pub by_key : Leads key_of s.wallet_by_idempotency_key s.heap

pub nat_eq_iff : (p q : ℕ) → (p ≡ q → nat_eq p q ≡ true) × (nat_eq p q ≡ true → p ≡ q)
nat_eq_iff p q = (λ e. ground arith, λ e. ground arith)

pub write_self :
    (ref : ℕ) (w : StoredVirtualWalletBinding) (heap : Heap) → write ref w heap ref ≡ some w
unfolding write
write_self ref w heap = ground arith

pub write_other :
    (ref other : ℕ) (w : StoredVirtualWalletBinding) (heap : Heap)
    → nat_eq other ref ≡ false
    → write ref w heap other ≡ heap other
unfolding write
write_other ref other w heap h = ground arith

module _ (p : StoredVirtualWalletBinding → Bool) (heap : Heap) where
  -- What is not found is not there.
  pub find_wallet-none :
      (ref : ℕ) (w : StoredVirtualWalletBinding) (refs : List ℕ)
      → find_wallet p heap refs ≡ none
      → is_listed ref refs ≡ true
      → heap ref ≡ some w
      → p w ≡ false
  unfolding find_wallet
  find_wallet-none ref w [] e l h = absurd (ground arith)
  find_wallet-none ref w (next ∷ refs) e l h = elim (Bool-cases (nat_eq ref next)) [
    | inl same ↦ let q : ref ≡ next = ground arith in ground (arith, q)
    | inr other ↦
        let later : find_wallet p heap refs ≡ none = ground arith in
        find_wallet-none ref w refs later (ground arith) h
  ]

  pub find_wallet-some :
      (ref : ℕ) (w : StoredVirtualWalletBinding) (refs : List ℕ)
      → find_wallet p heap refs ≡ some (ref, w)
      → (heap ref ≡ some w) × (p w ≡ true) × (is_listed ref refs ≡ true)
  unfolding find_wallet
  find_wallet-some ref w [] e = absurd (ground arith)
  find_wallet-some ref w (next ∷ refs) e =
      ground (arith, find_wallet-some ref w refs, nat_eq_iff ref next)

-- What the methods may do to an object: the terms of the wallet stay, and it does not become active.
pub record Rewrites (v w : StoredVirtualWalletBinding) : Type 0 where
  pub id_kept : w.shown.virtual_wallet_id ≡ v.shown.virtual_wallet_id
  pub user_kept : w.shown.user_id ≡ v.shown.user_id
  pub currency_kept : w.shown.currency_id ≡ v.shown.currency_id
  pub network_kept : w.shown.network ≡ v.shown.network
  pub address_kept : w.shown.wallet_address ≡ v.shown.wallet_address
  pub private_key_kept : w.private_key ≡ v.private_key
  pub key_kept : w.idempotency_key ≡ v.idempotency_key
  pub activity_kept : is_active w.shown.status ≡ true → is_active v.shown.status ≡ true

module _ (ref : ℕ) (v w : StoredVirtualWalletBinding) (s : InMemoryVirtualWalletRepository)
    (found : s.heap ref ≡ some v) (step : Rewrites v w) where
  -- What stands in the heap after the object is rewritten stood there before, up to the rewriting.
  before :
      (p : ℕ) (x : StoredVirtualWalletBinding)
      → (assign ref w s).heap p ≡ some x
      → (y : StoredVirtualWalletBinding) × (s.heap p ≡ some y) × Rewrites y x
  before p x e = elim (Bool-cases (nat_eq p ref)) [
    | inl here ↦
        let q : p ≡ ref = (nat_eq_iff p ref).1 here in
        let same : w ≡ x = ground (arith, q, write_self ref w s.heap) in
        (v, ground (arith, q, found), rw same at step)
    | inr other ↦ (
      x,
      ground (arith, write_other ref p w s.heap other),
      record {
        id_kept = refl;
        user_kept = refl;
        currency_kept = refl;
        network_kept = refl;
        address_kept = refl;
        private_key_kept = refl;
        key_kept = refl;
        activity_kept = λ a. a;
      },
    )
  ]

  assign-Leads :
      (key : StoredVirtualWalletBinding → String) (m : Map ℕ)
      → key w ≡ key v
      → Leads key m s.heap
      → Leads key m (assign ref w s).heap
  assign-Leads key m kept h at p e =
      let (x, there, named) = h at p e in
      elim (Bool-cases (nat_eq p ref)) [
        | inl here ↦
            let q : p ≡ ref = (nat_eq_iff p ref).1 here in
            let same : x ≡ v = ground (arith, q) in
            (w, ground (arith, q, write_self ref w s.heap), cc (kept, same, named))
        | inr other ↦ (x, ground (arith, write_other ref p w s.heap other), named)
      ]

  pub assign-IsWellFormed : IsWellFormed s → IsWellFormed (assign ref w s)
  assign-IsWellFormed h = record {
    fresh = λ p le. elim (Bool-cases (nat_eq p ref)) [
      | inl here ↦
          let q : p ≡ ref = (nat_eq_iff p ref).1 here in absurd (ground (arith, h.fresh p le))
      | inr other ↦ ground (arith, write_other ref p w s.heap other, h.fresh p le)
    ];
    listed = λ p x e. let (y, there, kept) = before p x e in rw kept.user_kept (h.listed p y there);
    owned = λ p u l.
        let (x, there, mine) = h.owned p u l in
        elim (Bool-cases (nat_eq p ref)) [
          | inl here ↦
              let q : p ≡ ref = (nat_eq_iff p ref).1 here in
              let same : x ≡ v = ground (arith, q) in
              (w, ground (arith, q, write_self ref w s.heap), cc (step.user_kept, same, mine))
          | inr other ↦ (x, ground (arith, write_other ref p w s.heap other), mine)
        ];
    unique = λ p q x y ep eq rivals.
        let (x', there, kept) = before p x ep in
        let (y', there', kept') = before q y eq in
        h.unique p q x' y' there there' (record {
          user_same = cc (rivals.user_same, kept.user_kept, kept'.user_kept);
          currency_same = cc (rivals.currency_same, kept.currency_kept, kept'.currency_kept);
          first_active = kept.activity_kept rivals.first_active;
          second_active = kept'.activity_kept rivals.second_active;
        });
    by_address = assign-Leads address_of s.wallet_by_address step.address_kept h.by_address;
    by_id = assign-Leads id_of s.wallet_by_id step.id_kept h.by_id;
    by_key = assign-Leads key_of s.wallet_by_idempotency_key step.key_kept h.by_key;
  }
