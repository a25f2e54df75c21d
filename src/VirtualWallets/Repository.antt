-- ===== src/VirtualWallets/Repository.antt =====
-- src/infrastructure/persistence/in-memory-virtual-wallet-repository.ts: the methods that issue,
-- retire and disable wallets, and those that read them. `nowIso` is an argument everywhere, as in the
-- ledger.
pub mod Marks
use coin_manage.Base.{
  ℕ, ◌+◌, String, Bool, true, false, not, ◌&&◌, ◌||◌, Option, none, some, List, [], ◌∷◌, ◌++◌, map,
  ◌==◌, nat_eq, is_some, or_default, truthy, filter, take, sort, str_le, if◌then◌else◌,
}
use coin_manage.Base.Map.{Map, lookup, insert, values}
use coin_manage.Base.Action.{
  domain_error, Result, ok, err, Action, pure, throw_if, gets, modify, ◌>>=◌, ◌>>◌,
}
use coin_manage.Contracts.{Host}
use coin_manage.Ledger.State.{random_uuid}
use coin_manage.Ledger.Types.Funds.{WalletBinding}
use coin_manage.Ledger.Accounts.{get_wallet_binding, bind_wallet_address, AccountReference}
use coin_manage.VirtualWallets.Types.{
  VirtualWalletStatus, VirtualWalletActivationStatus, VirtualWalletResourceStatus, Network,
  IssuedBy, VirtualWalletBinding, VirtualWalletIssueResult, IssueInput, FoxyaWalletSigner,
  DepositWatchAddress, is_active, is_disabled, same_network, same_activation,
}
use coin_manage.VirtualWallets.Store.{
  StoredVirtualWalletBinding, Heap, InMemoryVirtualWalletRepository, Method, in_ledger, write,
  deref, wallets_of, get_active_wallet, get_current_wallet_by_user_id, assign, require_binding,
}

-- The wallet that an input makes.
abbrev pub new_wallet : IssueInput → String → String → StoredVirtualWalletBinding
new_wallet input virtual_wallet_id now_iso = record {
  shown = record {
    virtual_wallet_id = virtual_wallet_id;
    user_id = input.user_id;
    currency_id = input.currency_id;
    network = input.network;
    wallet_address = input.wallet_address;
    sweep_target_address = input.sweep_target_address;
    issued_by = IssuedBy.hot_wallet;
    status = VirtualWalletStatus.active;
    activation_status = VirtualWalletActivationStatus.pending_trx_grant;
    activation_grant_tx_hash = none;
    activation_granted_at = none;
    activation_reclaim_tx_hash = none;
    activation_reclaimed_at = none;
    activation_last_error = none;
    resource_status = VirtualWalletResourceStatus.idle;
    resource_delegated_at = none;
    resource_released_at = none;
    resource_last_error = none;
    created_at = now_iso;
    retired_at = none;
    disabled_at = none;
    replaced_by_virtual_wallet_id = none;
  };
  private_key = input.private_key;
  encrypted_private_key = input.encrypted_private_key;
  idempotency_key = input.idempotency_key;
}

abbrev pub retired_for : Option String → String → VirtualWalletBinding → VirtualWalletBinding
retired_for replaced_by now_iso b = record b {
  status = VirtualWalletStatus.retired;
  retired_at = some now_iso;
  replaced_by_virtual_wallet_id = replaced_by;
}

abbrev pub disabled_from : String → VirtualWalletBinding → VirtualWalletBinding
disabled_from now_iso b = record b {
  status = VirtualWalletStatus.disabled;
  disabled_at = some now_iso;
}

-- `if (replacedWallet) { … }`
abbrev pub retire_replaced :
    Option (ℕ × StoredVirtualWalletBinding)
    → String
    → String
    → InMemoryVirtualWalletRepository
    → InMemoryVirtualWalletRepository
retire_replaced none virtual_wallet_id now_iso s = s
retire_replaced (some (ref, wallet)) virtual_wallet_id now_iso s =
    assign ref (record wallet { shown = retired_for (some virtual_wallet_id) now_iso wallet.shown })
      s

-- The new object, and the four maps that come to hold it.
unfoldable pub store_wallet :
    StoredVirtualWalletBinding → InMemoryVirtualWalletRepository → InMemoryVirtualWalletRepository
store_wallet stored s = record s {
  heap = write s.allocated stored s.heap;
  allocated = s.allocated + 1;
  wallets_by_user_id =
      insert stored.shown.user_id (wallets_of stored.shown.user_id s ++ s.allocated ∷ [])
        s.wallets_by_user_id;
  wallet_by_address = insert stored.shown.wallet_address s.allocated s.wallet_by_address;
  wallet_by_id = insert stored.shown.virtual_wallet_id s.allocated s.wallet_by_id;
  wallet_by_idempotency_key = insert stored.idempotency_key s.allocated s.wallet_by_idempotency_key;
}

-- The answer that repeats a wallet.
abbrev pub repeated : StoredVirtualWalletBinding → VirtualWalletIssueResult
repeated wallet = record { binding = wallet.shown; duplicated = true }

-- The wallet that an idempotency key has made.
abbrev pub made_for :
    String → InMemoryVirtualWalletRepository → Option (ℕ × StoredVirtualWalletBinding)
made_for key s = deref (lookup key s.wallet_by_idempotency_key) s.heap

-- `existingByAddress && existingByAddress.userId !== input.userId`
abbrev pub held_by_other : Option (ℕ × StoredVirtualWalletBinding) → String → Bool
held_by_other none user_id = false
held_by_other (some (ref, wallet)) user_id = not (wallet.shown.user_id == user_id)

abbrev pub by_user : String → AccountReference
by_user user_id = record { user_id = some user_id; wallet_address = none }

module _ (host : Host) where
  -- The ledger binds the address last, and what was stored before stays where it throws.
  unfoldable pub create_wallet :
      IssueInput
      → Option (ℕ × StoredVirtualWalletBinding)
      → String
      → Method VirtualWalletIssueResult
  unfolding random_uuid
  create_wallet input replaced now_iso = do
    virtual_wallet_id ← in_ledger (random_uuid host)
    let stored = new_wallet input virtual_wallet_id now_iso
    modify (retire_replaced replaced virtual_wallet_id now_iso)
    modify (store_wallet stored)
    in_ledger (bind_wallet_address input.user_id input.wallet_address now_iso)
    pure (record { binding = stored.shown; duplicated = false })

  -- The tests of an issue that is no repetition.
  unfoldable pub check_issue : IssueInput → Method (Unit {0})
  check_issue input = do
    bound ← in_ledger (λ l. (get_wallet_binding (by_user input.user_id) l, l))
    throw_if (is_some bound) (
        domain_error 409 "USER_ALREADY_HAS_BOUND_WALLET_ADDRESS"
          "user already has a wallet address bound outside virtual wallet issuance")
    existing ← gets (λ s. deref (lookup input.wallet_address s.wallet_by_address) s.heap)
    throw_if (held_by_other existing input.user_id)
        (domain_error 409 "WALLET_ADDRESS_IN_USE" "wallet address is already bound to another user")

  unfoldable pub issue_virtual_wallet : IssueInput → String → Method VirtualWalletIssueResult
  unfolding create_wallet check_issue
  issue_virtual_wallet input now_iso s = elim (made_for input.idempotency_key s) [
    | some (ref, wallet) ↦ (ok (repeated wallet), s)
    | none ↦ elim (get_active_wallet input.user_id input.currency_id s) [
      | some (ref, wallet) ↦ (ok (repeated wallet), s)
      | none ↦ (check_issue input >> create_wallet input none now_iso) s
    ]
  ]

  unfoldable pub reissue_virtual_wallet : IssueInput → String → Method VirtualWalletIssueResult
  unfolding create_wallet
  reissue_virtual_wallet input now_iso s = elim (made_for input.idempotency_key s) [
    | some (ref, wallet) ↦ (ok (repeated wallet), s)
    | none ↦ create_wallet input (get_active_wallet input.user_id input.currency_id s) now_iso s
  ]

unfoldable pub retire_virtual_wallet : String → Option String → String → Method VirtualWalletBinding
unfolding require_binding
retire_virtual_wallet virtual_wallet_id replaced_by now_iso = do
  (ref, wallet) ← require_binding virtual_wallet_id
  if not (is_active wallet.shown.status) then pure wallet.shown else do
    let updated = retired_for replaced_by now_iso wallet.shown
    modify (assign ref (record wallet { shown = updated }))
    pure updated

unfoldable pub disable_virtual_wallet : String → String → Method VirtualWalletBinding
unfolding require_binding
disable_virtual_wallet virtual_wallet_id now_iso = do
  (ref, wallet) ← require_binding virtual_wallet_id
  if is_disabled wallet.shown.status then pure wallet.shown else do
    let updated = disabled_from now_iso wallet.shown
    modify (assign ref (record wallet { shown = updated }))
    pure updated

-- An absent string, or the empty one, reads as not given.
abbrev given : Option String → Option String
given none = none
given (some text) = if truthy text then some text else none

abbrev shown_of : Option (ℕ × StoredVirtualWalletBinding) → Option VirtualWalletBinding
shown_of none = none
shown_of (some (ref, wallet)) = some wallet.shown

unfoldable pub get_virtual_wallet :
    AccountReference → InMemoryVirtualWalletRepository → Result (Option VirtualWalletBinding)
get_virtual_wallet input s = elim (given input.user_id) [
  | some user_id ↦ ok (shown_of (get_current_wallet_by_user_id user_id s))
  | none ↦ elim (given input.wallet_address) [
    | some address ↦ ok (shown_of (deref (lookup address s.wallet_by_address) s.heap))
    | none ↦ err (domain_error 400 "VALIDATION_ERROR" "userId or walletAddress is required")
  ]
]

-- `[...this.walletByAddress.values()]`
unfoldable pub objects : Heap → List ℕ → List StoredVirtualWalletBinding
objects heap [] = []
objects heap (ref ∷ refs) =
    let rest = objects heap refs in elim (heap ref) [ none ↦ rest | some wallet ↦ wallet ∷ rest ]

unfoldable pub list_virtual_wallets_by_activation_status :
    VirtualWalletActivationStatus
    → Option ℕ
    → InMemoryVirtualWalletRepository
    → List VirtualWalletBinding
list_virtual_wallets_by_activation_status status limit s =
    map (λ (w : StoredVirtualWalletBinding). w.shown)
      (take (or_default limit 100) (
        sort (λ (a b : StoredVirtualWalletBinding). str_le a.shown.created_at b.shown.created_at)
          (filter
            (λ (w : StoredVirtualWalletBinding).
              is_active w.shown.status && same_activation w.shown.activation_status status)
            (objects s.heap (values s.wallet_by_address)))))

unfoldable pub list_watch_addresses :
    Network → InMemoryVirtualWalletRepository → List DepositWatchAddress
list_watch_addresses network s =
    map
      (λ (w : StoredVirtualWalletBinding). record {
        user_id = w.shown.user_id;
        currency_id = w.shown.currency_id;
        address = w.shown.wallet_address;
        network = "TRON";
      })
      (filter
        (λ (w : StoredVirtualWalletBinding).
          same_network w.shown.network network && is_active w.shown.status)
        (objects s.heap (values s.wallet_by_address)))

-- `input.network && binding.network !== input.network`, negated
abbrev pub network_fits : Option Network → Network → Bool
network_fits none network = true
network_fits (some wanted) network = same_network network wanted

unfoldable pub get_wallet_signer_by_address :
    String → ℕ → Option Network → InMemoryVirtualWalletRepository → Option FoxyaWalletSigner
get_wallet_signer_by_address address currency_id network s =
    elim (deref (lookup address s.wallet_by_address) s.heap) [
      | none ↦ none
      | some (ref, wallet) ↦
          if not (nat_eq wallet.shown.currency_id currency_id)
            || not (is_active wallet.shown.status)
          then none
          else if not (network_fits network wallet.shown.network)
          then none
          else some (record {
            user_id = wallet.shown.user_id;
            currency_id = wallet.shown.currency_id;
            address = wallet.shown.wallet_address;
            private_key = wallet.private_key;
          })
    ]
