-- ===== src/Ledger/Accounts.antt =====
-- src/ledger/in-memory-ledger.ts: accounts and the wallet addresses bound to them.
pub mod Bindings
pub mod BindingRuns
mod Tests
use coin_manage.Base.{
  String, Bool, false, not, ◌&&◌, Option, none, some, ◌==◌, truthy, or_default, if◌then◌else◌,
}
use coin_manage.Base.Map.{Map, lookup, insert, erase}
use coin_manage.Base.Action.{
  Error, domain_error, Result, ok, err, pure, throw_if, gets, modify, ◌>>=◌, ◌>>◌,
}
use coin_manage.Ledger.Types.Funds.{Account, WalletBinding}
use coin_manage.Ledger.State.{InMemoryLedger, Method, create_empty_account}

-- `{...account, walletAddress: binding?.walletAddress}`
unfoldable pub enrich_account : Account → InMemoryLedger → Account
enrich_account account s = record account {
  wallet_address = elim (lookup account.user_id s.wallet_bindings_by_user_id) [
    | none ↦ none
    | some binding ↦ some binding.wallet_address
  ];
}

unfoldable pub get_account : String → String → Method Account
unfolding enrich_account create_empty_account
get_account user_id now_iso s =
    let account = or_default (lookup user_id s.accounts) (create_empty_account user_id now_iso s) in
    let s' = record s { accounts = insert user_id account s.accounts } in
    (ok (enrich_account account s'), s')

-- `existing && existing !== userId`
abbrev pub taken_by_other : Option String → String → Bool
taken_by_other none user_id = false
taken_by_other (some existing) user_id = truthy existing && not (existing == user_id)

-- The deletion of the address that the user was bound to, if it is another one.
abbrev pub release_previous : Option WalletBinding → String → Map String → Map String
release_previous none wallet_address m = m
release_previous (some previous) wallet_address m =
    if previous.wallet_address == wallet_address then m else erase previous.wallet_address m

abbrev pub new_binding : Option WalletBinding → String → String → String → WalletBinding
new_binding previous user_id wallet_address now_iso = record {
  user_id = user_id;
  wallet_address = wallet_address;
  created_at = elim previous [ none ↦ now_iso | some binding ↦ binding.created_at ];
}

-- `if (account) account.walletAddress = …`
abbrev pub set_account_address : String → String → Map Account → Map Account
set_account_address user_id wallet_address accounts = elim (lookup user_id accounts) [
  | none ↦ accounts
  | some account ↦ insert user_id (record account { wallet_address = some wallet_address }) accounts
]

unfoldable pub bind_wallet_address : String → String → String → Method WalletBinding
bind_wallet_address user_id wallet_address now_iso = do
  existing ← gets (λ s. lookup wallet_address s.user_id_by_wallet_address)
  throw_if (taken_by_other existing user_id)
      (domain_error 409 "WALLET_ADDRESS_IN_USE" "wallet address is already bound to another user")
  previous ← gets (λ s. lookup user_id s.wallet_bindings_by_user_id)
  modify (λ s. record s {
    wallet_bindings_by_user_id =
        insert user_id (new_binding previous user_id wallet_address now_iso)
          s.wallet_bindings_by_user_id;
    user_id_by_wallet_address =
        insert wallet_address user_id
          (release_previous previous wallet_address s.user_id_by_wallet_address);
    accounts = set_account_address user_id wallet_address s.accounts;
  })
  pure (new_binding previous user_id wallet_address now_iso)

-- `{ userId?, walletAddress? }`
pub record AccountReference : Type 0 where
  pub user_id : Option String
  pub wallet_address : Option String

abbrev reference_required : Error
reference_required = domain_error 400 "VALIDATION_ERROR" "userId or walletAddress is required"

-- An absent string, or the empty one, reads as not given.
abbrev given : Option String → Option String
given none = none
given (some s) = if truthy s then some s else none

unfoldable pub get_wallet_binding :
    AccountReference → InMemoryLedger → Result (Option WalletBinding)
get_wallet_binding input s = elim (given input.user_id) [
  | some user_id ↦ ok (lookup user_id s.wallet_bindings_by_user_id)
  | none ↦ elim (given input.wallet_address) [
    | none ↦ err reference_required
    | some address ↦ elim (given (lookup address s.user_id_by_wallet_address)) [
      | none ↦ ok none
      | some user_id ↦ ok (lookup user_id s.wallet_bindings_by_user_id)
    ]
  ]
]

unfoldable pub resolve_user_id : AccountReference → InMemoryLedger → Result String
resolve_user_id input s = elim (given input.user_id) [
  | some user_id ↦ elim (given input.wallet_address) [
    | none ↦ ok user_id
    | some address ↦
        if taken_by_other (lookup address s.user_id_by_wallet_address) user_id
        then err (
            domain_error 409 "ACCOUNT_REFERENCE_CONFLICT"
              "userId and walletAddress point to different accounts")
        else ok user_id
  ]
  | none ↦ elim (given input.wallet_address) [
    | none ↦ err reference_required
    | some address ↦ elim (given (lookup address s.user_id_by_wallet_address)) [
      | none ↦
          err
            (domain_error 404 "WALLET_ADDRESS_NOT_FOUND" "wallet address is not bound to any user")
      | some user_id ↦ ok user_id
    ]
  ]
]

unfoldable pub get_account_by_wallet_address : String → String → Method Account
get_account_by_wallet_address wallet_address now_iso = do
  user_id ← (λ s.
      (resolve_user_id (record { user_id = none; wallet_address = some wallet_address }) s, s))
  get_account user_id now_iso
