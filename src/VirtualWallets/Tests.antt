-- ===== src/VirtualWallets/Tests.antt =====
-- The repository of src/infrastructure/persistence/in-memory-virtual-wallet-repository.ts at work on a
-- few wallets, and the theorems on it.
use coin_manage.Base.{ℕ, String, true, false, none, some, ◌≡◌, refl, List, [], ◌∷◌, if◌then◌else◌}
use coin_manage.Base.Int.{pos}
use coin_manage.Base.Map.{lookup, insert}
use coin_manage.Base.Action.{domain_error, Result, ok, err}
use coin_manage.Ledger.State.{random_uuid}
use coin_manage.Ledger.Accounts.{
  AccountReference, bind_wallet_address, get_wallet_binding, taken_by_other,
}
use coin_manage.Ledger.Calls.{
  empty_ledger, Call as LedgerCall, run as run_ledger, perform as perform_ledger,
}
use coin_manage.Ledger.Tests.{host, ticks}
use coin_manage.VirtualWallets.Types.{
  VirtualWalletBinding, VirtualWalletIssueResult, IssueInput, FoxyaWalletSigner, mainnet, is_active,
}
use coin_manage.VirtualWallets.Store.{
  StoredVirtualWalletBinding, InMemoryVirtualWalletRepository, write, find_wallet,
  get_active_wallet, get_current_wallet_by_user_id,
}
use coin_manage.VirtualWallets.Repository.{
  create_wallet, check_issue, store_wallet, issue_virtual_wallet, reissue_virtual_wallet, repeated,
  get_virtual_wallet, get_wallet_signer_by_address, made_for, network_fits,
}
use coin_manage.VirtualWallets.Calls.{Call, perform, run, empty_repository}
use coin_manage.VirtualWallets.Heaps.{IsWellFormed}
use coin_manage.VirtualWallets.Keeps.{Keeps}
use coin_manage.VirtualWallets.Run.{perform-Keeps, run-IsWellFormed, empty_repository-IsWellFormed}
use coin_manage.VirtualWallets.Issues.{
  next_wallet, issue_virtual_wallet-repeats, issue_virtual_wallet-unbound,
  get_wallet_signer_by_address-active,
}
use coin_manage.VirtualWallets.Policy.{
  evaluate, assert_withdrawal_allowed, can_credit_deposit, is_free, assert_withdrawal_allowed_lem,
}
use coin_manage.VirtualWallets.Service.{
  Services, ServiceInput, SyncRequest, GeneratedVirtualWalletAccount, issue_internal, sync_request,
  issue_internal-synchronised,
}

abbrev today : String
today = "2024-05-01T00:00:00.000Z"

abbrev request : String → String → String → IssueInput
request user address key = record {
  user_id = user;
  currency_id = 1;
  network = mainnet;
  wallet_address = address;
  private_key = "secret";
  encrypted_private_key = "sealed";
  sweep_target_address = "T-hot";
  idempotency_key = key;
}

abbrev empty : InMemoryVirtualWalletRepository
empty = empty_repository empty_ledger

-- Ann's wallet is issued, replaced and, at last, disabled.
abbrev calls : List (String × Call)
calls =
    (today, Call.issue_virtual_wallet (request "ann" "T-1" "k1"))
    ∷ (today, Call.reissue_virtual_wallet (request "ann" "T-2" "k2"))
    ∷ (today, Call.mark_activation_granted (ticks 0) none)
    ∷ (today, Call.disable_virtual_wallet (ticks 1))
    ∷ []

abbrev later_state : InMemoryVirtualWalletRepository
later_state = run host calls empty

later_state-IsWellFormed : IsWellFormed later_state
later_state-IsWellFormed = run-IsWellFormed host empty_ledger calls

run-IsWellFormed_example : IsWellFormed (run host calls (empty_repository empty_ledger))
run-IsWellFormed_example = run-IsWellFormed host empty_ledger calls

perform-Keeps_example :
    Keeps later_state
      (perform host today (Call.reissue_virtual_wallet (request "ann" "T-3" "k3")) later_state)
perform-Keeps_example =
    perform-Keeps host today later_state later_state-IsWellFormed
      (Call.reissue_virtual_wallet (request "ann" "T-3" "k3"))

abbrev first : IssueInput
first = request "ann" "T-1" "k1"

abbrev issued : VirtualWalletIssueResult
issued = record { binding = (next_wallet host first today empty).shown; duplicated = false }

first_issued : (issue_virtual_wallet host first today empty).0 ≡ ok issued
unfolding issue_virtual_wallet create_wallet check_issue store_wallet write get_active_wallet
    find_wallet get_wallet_binding bind_wallet_address random_uuid lookup insert ticks
first_issued = refl

issue_virtual_wallet-repeats_example :
    let t = (issue_virtual_wallet host first today empty).1 in
    (issue_virtual_wallet host (request "bob" "T-7" "k1") today t
      ≡ (ok (record issued { duplicated = true }), t))
    × (reissue_virtual_wallet host (request "bob" "T-7" "k1") today t
        ≡ (ok (record issued { duplicated = true }), t))
issue_virtual_wallet-repeats_example =
    issue_virtual_wallet-repeats host first today empty (request "bob" "T-7" "k1") today issued refl
      first_issued refl

-- Bob has bound T-9 in the ledger.
abbrev bound : InMemoryVirtualWalletRepository
bound =
    empty_repository
      (run_ledger host ((today, LedgerCall.bind_wallet_address "bob" "T-9") ∷ []) empty_ledger)

bound_fresh : made_for "k1" bound ≡ none
unfolding lookup
bound_fresh = refl

bound_inactive : get_active_wallet "ann" 1 bound ≡ none
unfolding get_active_wallet find_wallet lookup
bound_inactive = refl

bound_passes : (check_issue host (request "ann" "T-9" "k1") bound).0 ≡ ok tt
unfolding check_issue get_wallet_binding run_ledger perform_ledger bind_wallet_address lookup insert
bound_passes = refl

bound_taken : taken_by_other (lookup "T-9" bound.ledger.user_id_by_wallet_address) "ann" ≡ true
unfolding run_ledger perform_ledger bind_wallet_address lookup insert
bound_taken = refl

issue_virtual_wallet-unbound_example :
    let input = request "ann" "T-9" "k1" in
    let (r, t) = issue_virtual_wallet host input today bound in
    (r
      ≡ err (
          domain_error 409 "WALLET_ADDRESS_IN_USE"
            "wallet address is already bound to another user"))
    × (t.ledger.user_id_by_wallet_address ≡ bound.ledger.user_id_by_wallet_address)
    × (t.ledger.wallet_bindings_by_user_id ≡ bound.ledger.wallet_bindings_by_user_id)
    × (issue_virtual_wallet host input today t
        ≡ (ok (repeated (next_wallet host input today bound)), t))
issue_virtual_wallet-unbound_example =
    issue_virtual_wallet-unbound host (request "ann" "T-9" "k1") today bound today bound_fresh
      bound_inactive bound_passes bound_taken

abbrev first_state : InMemoryVirtualWalletRepository
first_state = run host ((today, Call.issue_virtual_wallet first) ∷ []) empty

abbrev ann_signer : FoxyaWalletSigner
ann_signer = record { user_id = "ann"; currency_id = 1; address = "T-1"; private_key = "secret" }

signer_found : get_wallet_signer_by_address "T-1" 1 (some mainnet) first_state ≡ some ann_signer
unfolding get_wallet_signer_by_address run perform issue_virtual_wallet create_wallet check_issue
    store_wallet write get_active_wallet find_wallet get_wallet_binding bind_wallet_address
    random_uuid lookup insert ticks
signer_found = refl

get_wallet_signer_by_address-active_example :
    (ref : ℕ) × (w : StoredVirtualWalletBinding) × (first_state.heap ref ≡ some w)
    × (is_active w.shown.status ≡ true)
    × (w.shown.wallet_address ≡ "T-1")
    × (w.shown.currency_id ≡ 1)
    × (network_fits (some mainnet) w.shown.network ≡ true)
    × (ann_signer.address ≡ "T-1")
    × (ann_signer.user_id ≡ w.shown.user_id)
    × (ann_signer.private_key ≡ w.private_key)
get_wallet_signer_by_address-active_example =
    get_wallet_signer_by_address-active "T-1" 1 (some mainnet) first_state ann_signer
      (run-IsWellFormed host empty_ledger ((today, Call.issue_virtual_wallet first) ∷ []))
      signer_found

abbrev ann : AccountReference
ann = record { user_id = some "ann"; wallet_address = none }

abbrev ann_binding : VirtualWalletBinding
ann_binding = issued.binding

ann_found : get_virtual_wallet ann first_state ≡ ok (some ann_binding)
unfolding get_virtual_wallet get_current_wallet_by_user_id run perform issue_virtual_wallet
    create_wallet check_issue store_wallet write get_active_wallet find_wallet get_wallet_binding
    bind_wallet_address random_uuid lookup insert ticks
ann_found = refl

assert_withdrawal_allowed_lem_example :
    (assert_withdrawal_allowed host 60 (pos 0) ann first_state ≡ (
      if is_free host 60 (pos 0) (some ann_binding)
      then ok (some ann_binding)
      else err (
          domain_error 409 "WITHDRAWAL_NOT_READY"
            (evaluate host 60 (pos 0) (some ann_binding)).reason)))
    × (can_credit_deposit host 60 (pos 0) ann first_state
        ≡ ok (record {
          binding = some ann_binding;
          gate = evaluate host 60 (pos 0) (some ann_binding);
        }))
    × ((evaluate host 60 (pos 0) (some ann_binding)).deposit_allowed
        ≡ is_free host 60 (pos 0) (some ann_binding))
assert_withdrawal_allowed_lem_example =
    assert_withdrawal_allowed_lem host 60 (pos 0) ann first_state (some ann_binding) ann_found

abbrev client : SyncRequest → Result (Unit {0})
client sent = ok tt

abbrev services : Services
services = record {
  encrypt = λ text. "sealed";
  hot_wallet_address = "T-hot";
  sync_client = some client;
}

abbrev service_input : ServiceInput
service_input = record {
  user_id = "ann";
  currency_id = 1;
  network = mainnet;
  idempotency_key = "k1";
}

abbrev account : Result GeneratedVirtualWalletAccount
account = ok (record { address = "T-1"; private_key = "secret" })

service_issued :
    (issue_internal host services service_input false account today empty).0 ≡ ok issued
unfolding issue_internal get_wallet_signer_by_address issue_virtual_wallet create_wallet check_issue
    store_wallet write get_active_wallet find_wallet get_wallet_binding bind_wallet_address
    random_uuid lookup insert ticks
service_issued = refl

issue_internal-synchronised_example :
    let t = (issue_internal host services service_input false account today empty).1 in
    (signer : FoxyaWalletSigner) × (ref : ℕ) × (w : StoredVirtualWalletBinding) × (t.heap ref
      ≡ some w)
    × (is_active w.shown.status ≡ true)
    × (w.shown.wallet_address ≡ issued.binding.wallet_address)
    × (w.shown.currency_id ≡ issued.binding.currency_id)
    × (signer.private_key ≡ w.private_key)
    × (client (sync_request issued signer) ≡ ok tt)
issue_internal-synchronised_example =
    issue_internal-synchronised host services service_input false account today empty client issued
      (empty_repository-IsWellFormed empty_ledger) refl service_issued
