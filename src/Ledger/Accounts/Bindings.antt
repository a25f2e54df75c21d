-- ===== src/Ledger/Accounts/Bindings.antt =====
-- src/ledger/in-memory-ledger.ts: the two maps of wallet bindings are inverse to each other.
use coin_manage.Base.{
  String, true, false, Option, none, some, ◌≡◌, arith, eq_iff, ◌==◌, truthy, if◌then◌else◌,
  Option-cases, Bool-cases, inl, inr,
}
use coin_manage.Base.Map.{Map, lookup, insert, lookup-insert, lookup-erase}
use coin_manage.Ledger.Types.Funds.{WalletBinding}
use coin_manage.Ledger.State.{InMemoryLedger}
use coin_manage.Ledger.Accounts.{bind_wallet_address, taken_by_other, release_previous, new_binding}

-- The address that a user is bound to.
abbrev pub address_of : String → Map WalletBinding → Option String
address_of user_id bindings = elim (lookup user_id bindings) [
  | none ↦ none
  | some binding ↦ some binding.wallet_address
]

-- A user is bound to an address exactly where the address is bound to the user, and no address is
-- bound to the empty user id.
pub record IsInverse (bindings : Map WalletBinding) (users : Map String) : Type 0 where
  pub forth :
      (user_id address : String)
      → address_of user_id bindings ≡ some address
      → lookup address users ≡ some user_id
  pub back :
      (user_id address : String)
      → lookup address users ≡ some user_id
      → address_of user_id bindings ≡ some address
  pub named :
      (user_id address : String) → lookup address users ≡ some user_id → truthy user_id ≡ true

module _ (bindings : Map WalletBinding) (users : Map String) (u a now : String)
    (h : IsInverse bindings users) (named : truthy u ≡ true)
    (free : taken_by_other (lookup a users) u ≡ false) where
  -- The address map after the previous address of the user is released.
  released_users : Map String
  released_users = release_previous (lookup u bindings) a users

  address_of-bound :
      (v : String)
      → address_of v (insert u (new_binding (lookup u bindings) u a now) bindings)
        ≡ (if u == v then some a else address_of v bindings)
  address_of-bound v =
      ground (arith, lookup-insert u v (new_binding (lookup u bindings) u a now) bindings)

  -- Another user's address is not released.
  lookup-released :
      (v b : String) → (u == v) ≡ false → lookup b users ≡ some v → lookup b released_users ≡ some v
  unfolding released_users
  lookup-released v b other e = elim (Option-cases (lookup u bindings)) [
    | inl k ↦ ground arith
    | inr (p, k) ↦ ground (
      arith,
      lookup-erase p.wallet_address b users,
      eq_iff p.wallet_address b,
      eq_iff u v,
      h.forth u p.wallet_address,
    )
  ]

  -- What is left belongs to other users.
  released-lookup :
      (v b : String)
      → (a == b) ≡ false
      → lookup b released_users ≡ some v
      → ((u == v) ≡ false) × (lookup b users ≡ some v)
  unfolding released_users
  released-lookup v b other e = elim (Option-cases (lookup u bindings)) [
    | inl k ↦ ground (arith, eq_iff u v, h.back v b)
    | inr (p, k) ↦ ground (
      arith,
      lookup-erase p.wallet_address b users,
      eq_iff p.wallet_address b,
      eq_iff p.wallet_address a,
      eq_iff a b,
      eq_iff u v,
      h.back v b,
    )
  ]

  bound-forth :
      (v b : String)
      → address_of v (insert u (new_binding (lookup u bindings) u a now) bindings) ≡ some b
      → lookup b (insert a u released_users) ≡ some v
  bound-forth v b e = elim (Bool-cases (u == v)) [
    | inl same ↦
        ground
          (arith, address_of-bound v, lookup-insert a b u released_users, eq_iff a b, eq_iff u v)
    | inr other ↦
        let own : address_of v bindings ≡ some b = ground (arith, address_of-bound v) in
        let found : lookup b users ≡ some v = h.forth v b own in
        let kept : lookup b released_users ≡ some v = lookup-released v b other found in
        let n : truthy v ≡ true = h.named v b found in
        ground (arith, lookup-insert a b u released_users, eq_iff a b, eq_iff u v, eq_iff v u)
  ]

  bound-back :
      (v b : String)
      → lookup b (insert a u released_users) ≡ some v
      → (address_of v (insert u (new_binding (lookup u bindings) u a now) bindings) ≡ some b)
        × (truthy v ≡ true)
  bound-back v b e = elim (Bool-cases (a == b)) [
    | inl same ↦ ground (
      arith,
      address_of-bound v,
      lookup-insert a b u released_users,
      eq_iff a b,
      eq_iff u v,
      named,
    )
    | inr other ↦
        let kept : lookup b released_users ≡ some v =
          ground (arith, lookup-insert a b u released_users) in
        let (apart, found) = released-lookup v b other kept in
        let own : address_of v bindings ≡ some b = h.back v b found in
        (ground (arith, address_of-bound v), h.named v b found)
  ]

  bound-IsInverse :
      IsInverse
        (insert u (new_binding (lookup u bindings) u a now) bindings)
        (insert a u released_users)
  bound-IsInverse = record {
    forth = bound-forth;
    back = λ v b e. (bound-back v b e).0;
    named = λ v b e. (bound-back v b e).1;
  }

-- The state after a binding of a user that is not the empty text, whether it is refused or not.
pub bind_wallet_address-IsInverse :
    (u a now : String) (s : InMemoryLedger)
    → truthy u ≡ true
    → IsInverse s.wallet_bindings_by_user_id s.user_id_by_wallet_address
    → let t = (bind_wallet_address u a now s).1 in
      IsInverse t.wallet_bindings_by_user_id t.user_id_by_wallet_address
unfolding bind_wallet_address
bind_wallet_address-IsInverse u a now s named h =
    elim (Bool-cases (taken_by_other (lookup a s.user_id_by_wallet_address) u)) [
      | inl taken ↦ rw taken h
      | inr free ↦ rw free (
          unfold released_users in
          bound-IsInverse s.wallet_bindings_by_user_id s.user_id_by_wallet_address u a now h named
            free)
    ]
