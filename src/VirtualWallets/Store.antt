-- ===== src/VirtualWallets/Store.antt =====
-- src/infrastructure/persistence/in-memory-virtual-wallet-repository.ts: the fields of the
-- repository and its private helpers. Its four maps share their objects, so that an object is a
-- reference into a heap, and a map holds references.
use coin_manage.Base.{
  ℕ, String, Bool, ◌&&◌, Option, none, some, List, [], ◌∷◌, nat_eq, or_default, if◌then◌else◌,
}
use coin_manage.Base.Map.{Map, lookup}
use coin_manage.Base.Action.{domain_error, Action, gets, or_throw, ◌>>=◌}
use coin_manage.Ledger.State.{InMemoryLedger}
use coin_manage.VirtualWallets.Types.{VirtualWalletBinding, is_active}

-- `StoredVirtualWalletBinding`: `shown` is the part that `VirtualWalletBinding` names.
pub record StoredVirtualWalletBinding : Type 0 where
  pub shown : VirtualWalletBinding
  pub private_key : String
  pub encrypted_private_key : String
  pub idempotency_key : String

abbrev pub Heap : Type 0
Heap = ℕ → Option StoredVirtualWalletBinding

-- The repository, with the ledger that it binds addresses in. `allocated` counts the objects made.
pub record InMemoryVirtualWalletRepository : Type 0 where
  pub heap : Heap
  pub allocated : ℕ
  pub wallets_by_user_id : Map (List ℕ)
  pub wallet_by_address : Map ℕ
  pub wallet_by_id : Map ℕ
  pub wallet_by_idempotency_key : Map ℕ
  pub ledger : InMemoryLedger

abbrev pub Method : Type 0 → Type 0
Method A = Action InMemoryVirtualWalletRepository A

-- A call of the ledger.
abbrev pub in_ledger : {A : Type 0} → Action InMemoryLedger A → Method A
in_ledger call s = let (r, ledger') = call s.ledger in (r, record s { ledger = ledger' })

-- The heap with an object written.
unfoldable pub write : ℕ → StoredVirtualWalletBinding → Heap → Heap
write ref wallet heap other = if nat_eq other ref then some wallet else heap other

-- The object that a map has under a key.
abbrev pub deref : Option ℕ → Heap → Option (ℕ × StoredVirtualWalletBinding)
deref none heap = none
deref (some ref) heap = elim (heap ref) [ none ↦ none | some wallet ↦ some (ref, wallet) ]

-- `wallets.find(p)`
unfoldable pub find_wallet :
    (StoredVirtualWalletBinding → Bool) → Heap → List ℕ → Option (ℕ × StoredVirtualWalletBinding)
find_wallet p heap [] = none
find_wallet p heap (ref ∷ refs) =
    let rest = find_wallet p heap refs in
    elim (heap ref) [ none ↦ rest | some wallet ↦ if p wallet then some (ref, wallet) else rest ]

-- `wallets.at(-1)`
unfoldable pub last_ref : List ℕ → Option ℕ
last_ref [] = none
last_ref (ref ∷ []) = some ref
last_ref (ref ∷ next ∷ refs) = last_ref (next ∷ refs)

-- `this.walletsByUserId.get(userId) ?? []`
abbrev pub wallets_of : String → InMemoryVirtualWalletRepository → List ℕ
wallets_of user_id s = or_default (lookup user_id s.wallets_by_user_id) []

-- `wallet.currencyId === currencyId && wallet.status === 'active'`
abbrev pub is_active_in : ℕ → StoredVirtualWalletBinding → Bool
is_active_in currency_id wallet =
    nat_eq wallet.shown.currency_id currency_id && is_active wallet.shown.status

unfoldable pub get_active_wallet :
    String → ℕ → InMemoryVirtualWalletRepository → Option (ℕ × StoredVirtualWalletBinding)
get_active_wallet user_id currency_id s =
    find_wallet (is_active_in currency_id) s.heap (wallets_of user_id s)

unfoldable pub get_current_wallet_by_user_id :
    String → InMemoryVirtualWalletRepository → Option (ℕ × StoredVirtualWalletBinding)
get_current_wallet_by_user_id user_id s =
    elim (find_wallet (λ w. is_active w.shown.status) s.heap (wallets_of user_id s)) [
      | some found ↦ some found
      | none ↦ deref (last_ref (wallets_of user_id s)) s.heap
    ]

-- `binding.f = …` on the object of a reference.
abbrev pub assign :
    ℕ
    → StoredVirtualWalletBinding
    → InMemoryVirtualWalletRepository
    → InMemoryVirtualWalletRepository
assign ref wallet s = record s { heap = write ref wallet s.heap }

unfoldable pub require_binding : String → Method (ℕ × StoredVirtualWalletBinding)
require_binding virtual_wallet_id = do
  found ← gets (λ s. deref (lookup virtual_wallet_id s.wallet_by_id) s.heap)
  or_throw found (domain_error 404 "NOT_FOUND" "virtual wallet not found")
