-- ===== src/VirtualWallets/Creation.antt =====
-- The creation of a wallet keeps the invariant of
-- src/infrastructure/persistence/in-memory-virtual-wallet-repository.ts: the wallet that it replaces is
-- retired first.
use coin_manage.Base.{
  ℕ, String, true, false, ◌||◌, Option, none, some, List, [], ◌∷◌, ◌++◌, ◌≡◌, arith, ◌==◌, eq_iff,
  eq_refl, nat_eq, inl, inr, Bool-cases, if◌then◌else◌,
}
use coin_manage.Base.Map.{Map, lookup, insert, lookup-insert}
use coin_manage.Ledger.State.{InMemoryLedger}
use coin_manage.VirtualWallets.Store.{
  StoredVirtualWalletBinding, InMemoryVirtualWalletRepository, write, is_active_in, wallets_of,
  get_active_wallet, assign,
}
use coin_manage.VirtualWallets.Repository.{store_wallet, retired_for}
use coin_manage.VirtualWallets.Heaps.{
  is_listed, Leads, address_of, id_of, key_of, IsWellFormed, nat_eq_iff, find_wallet-none,
  find_wallet-some, Rewrites, write_self, write_other,
}

-- No object is an active wallet of the user in the currency.
abbrev pub HasNoActive : String → ℕ → InMemoryVirtualWalletRepository → Type 0
HasNoActive user_id currency_id s =
    (ref : ℕ) (w : StoredVirtualWalletBinding)
    → s.heap ref ≡ some w
    → w.shown.user_id ≡ user_id
    → is_active_in currency_id w ≡ false

is_listed-append :
    (p q : ℕ) (refs : List ℕ) → is_listed p (refs ++ q ∷ []) ≡ (is_listed p refs || nat_eq p q)
is_listed-append p q [] = ground arith
is_listed-append p q (next ∷ refs) = ground (arith, is_listed-append p q refs)

module _ (x : StoredVirtualWalletBinding) (s : InMemoryVirtualWalletRepository)
    (h : IsWellFormed s) where
  -- An object of the new heap is the new one, or an old one.
  stored_or_old :
      (p : ℕ) (w : StoredVirtualWalletBinding)
      → (store_wallet x s).heap p ≡ some w
      → if nat_eq p s.allocated then (p ≡ s.allocated) × (w ≡ x) else (s.heap p ≡ some w)
  unfolding store_wallet write
  stored_or_old p w e = ground (arith, nat_eq_iff p s.allocated)

  store_wallet-Leads :
      (key : StoredVirtualWalletBinding → String) (m : Map ℕ)
      → Leads key m s.heap
      → Leads key (insert (key x) s.allocated m) (store_wallet x s).heap
  unfolding store_wallet write
  store_wallet-Leads key m l at p e = elim (Bool-cases (key x == at)) [
    | inl here ↦
        let q : key x ≡ at = ground (arith, eq_iff (key x) at) in
        let r : s.allocated ≡ p = ground (arith, lookup-insert (key x) at s.allocated m) in
        (x, ground arith, q)
    | inr other ↦
        let old : lookup at m ≡ some p = ground (arith, lookup-insert (key x) at s.allocated m) in
        let (w, there, named) = l at p old in (w, ground (arith, h.fresh p), named)
  ]

  wallets_of-store :
      (user_id : String)
      → wallets_of user_id (store_wallet x s) ≡ (
          if x.shown.user_id == user_id
          then wallets_of user_id s ++ s.allocated ∷ []
          else wallets_of user_id s)
  unfolding store_wallet
  wallets_of-store user_id = ground (
    arith,
    eq_iff x.shown.user_id user_id,
    lookup-insert x.shown.user_id user_id (wallets_of x.shown.user_id s ++ s.allocated ∷ [])
        s.wallets_by_user_id,
  )

  still_listed :
      (p : ℕ) (user_id : String)
      → is_listed p (wallets_of user_id s) ≡ true
      → is_listed p (wallets_of user_id (store_wallet x s)) ≡ true
  still_listed p user_id l =
      rw (wallets_of-store user_id)
        (ground (arith, is_listed-append p s.allocated (wallets_of user_id s)))

  new_listed : is_listed s.allocated (wallets_of x.shown.user_id (store_wallet x s)) ≡ true
  new_listed = rw (wallets_of-store x.shown.user_id) (
      ground (
        arith,
        eq_refl x.shown.user_id,
        nat_eq_iff s.allocated s.allocated,
        is_listed-append s.allocated s.allocated (wallets_of x.shown.user_id s),
      ))

  owned_after :
      (p : ℕ) (user_id : String)
      → is_listed p (wallets_of user_id (store_wallet x s)) ≡ true
      → (w : StoredVirtualWalletBinding) × ((store_wallet x s).heap p ≡ some w)
        × (w.shown.user_id ≡ user_id)
  unfolding store_wallet write
  owned_after p user_id l = elim (Bool-cases (is_listed p (wallets_of user_id s))) [
    | inl old ↦ let (w, there, mine) = h.owned p user_id old in (w, ground (arith, h.fresh p), mine)
    | inr new ↦
        let mine : (p ≡ s.allocated) × (x.shown.user_id ≡ user_id) = ground (
          arith,
          wallets_of-store user_id,
          eq_iff x.shown.user_id user_id,
          nat_eq_iff p s.allocated,
          is_listed-append p s.allocated (wallets_of user_id s),
        ) in
        (x, ground (arith, mine.0), mine.1)
  ]

  pub store_wallet-IsWellFormed :
      HasNoActive x.shown.user_id x.shown.currency_id s → IsWellFormed (store_wallet x s)
  store_wallet-IsWellFormed alone = record {
    fresh = λ p le. unfold store_wallet write in ground (arith, h.fresh p);
    listed = λ p w e. elim (Bool-cases (nat_eq p s.allocated)) [
      | inl here ↦
          let new : (p ≡ s.allocated) × (w ≡ x) = ground (arith, stored_or_old p w e) in
          rw (new.0, new.1) new_listed
      | inr other ↦
          let old : s.heap p ≡ some w = ground (arith, stored_or_old p w e) in
          still_listed p w.shown.user_id (h.listed p w old)
    ];
    owned = owned_after;
    unique = λ p q v w ep eq rivals.
        let cp = stored_or_old p v ep in
        let cq = stored_or_old q w eq in
        ground (
          arith,
          cp,
          cq,
          alone p v,
          alone q w,
          h.unique p q v w,
          rivals.user_same,
          rivals.currency_same,
          rivals.first_active,
          rivals.second_active,
          rivals,
          nat_eq_iff v.shown.currency_id x.shown.currency_id,
          nat_eq_iff w.shown.currency_id x.shown.currency_id,
        );
    by_address =
        unfold store_wallet in store_wallet-Leads address_of s.wallet_by_address h.by_address;
    by_id = unfold store_wallet in store_wallet-Leads id_of s.wallet_by_id h.by_id;
    by_key = unfold store_wallet in store_wallet-Leads key_of s.wallet_by_idempotency_key h.by_key;
  }

-- The invariant reads nothing of the ledger.
pub ledger-IsWellFormed :
    (s : InMemoryVirtualWalletRepository) (ledger : InMemoryLedger)
    → IsWellFormed s
    → IsWellFormed (record s { ledger = ledger })
ledger-IsWellFormed s ledger h = record {
  fresh = h.fresh;
  listed = h.listed;
  owned = h.owned;
  unique = h.unique;
  by_address = h.by_address;
  by_id = h.by_id;
  by_key = h.by_key;
}

pub retired-Rewrites :
    (w : StoredVirtualWalletBinding) (replaced_by : Option String) (now : String)
    → Rewrites w (record w { shown = retired_for replaced_by now w.shown })
retired-Rewrites w replaced_by now = ground arith

module _ (u : String) (c : ℕ) (s : InMemoryVirtualWalletRepository) (h : IsWellFormed s) where
  pub none-HasNoActive : get_active_wallet u c s ≡ none → HasNoActive u c s
  unfolding get_active_wallet
  none-HasNoActive e ref w there mine =
      find_wallet-none (is_active_in c) s.heap ref w (wallets_of u s) e
        (ground (arith, h.listed ref w there, mine)) there

  module _ (ref : ℕ) (v : StoredVirtualWalletBinding)
      (e : get_active_wallet u c s ≡ some (ref, v)) where
    pub active_there : (s.heap ref ≡ some v) × (is_active_in c v ≡ true) × (v.shown.user_id ≡ u)
    unfolding get_active_wallet
    active_there =
        let (there, act, l) = find_wallet-some (is_active_in c) s.heap ref v (wallets_of u s) e in
        (there, act, ground (arith, h.owned ref u l))

    pub retired-HasNoActive :
        (by : Option String) (now : String)
        → HasNoActive u c (assign ref (record v { shown = retired_for by now v.shown }) s)
    retired-HasNoActive by now p w there mine = elim (Bool-cases (nat_eq p ref)) [
      | inl here ↦
          let q : p ≡ ref = (nat_eq_iff p ref).1 here in
          ground (arith, q, write_self ref (record v { shown = retired_for by now v.shown }) s.heap)
      | inr other ↦
          let old : s.heap p ≡ some w = ground (
            arith,
            write_other ref p (record v { shown = retired_for by now v.shown }) s.heap other,
          ) in
          elim (Bool-cases (is_active_in c w)) [
            | inr idle ↦ idle
            | inl act ↦
                let (there', act', mine') = active_there in
                let same : p ≡ ref = h.unique p ref w v old there' (record {
                  user_same = cc (mine, mine');
                  currency_same =
                      ground
                        (arith, nat_eq_iff w.shown.currency_id c, nat_eq_iff v.shown.currency_id c);
                  first_active = ground arith;
                  second_active = ground arith;
                }) in
                absurd (ground (arith, nat_eq_iff p ref))
          ]
    ]
