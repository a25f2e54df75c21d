-- ===== src/VirtualWallets/Service.antt =====
-- src/application/services/virtual-wallet-service.ts: an account is generated, the repository issues the
-- wallet, and the wallet is synchronised with its key. The account, the cipher and the client that
-- takes the synchronisation are the caller's.
use coin_manage.Base.{
  ℕ, String, Bool, true, false, not, ◌||◌, Option, none, some, ◌≡◌, arith, inl, inr, Option-cases,
  truthy, if◌then◌else◌,
}
use coin_manage.Base.Action.{Error, domain_error, Result, ok, err}
use coin_manage.Contracts.{Host}
use coin_manage.VirtualWallets.Types.{
  Network, IssueInput, VirtualWalletIssueResult, FoxyaWalletSigner, is_active,
}
use coin_manage.VirtualWallets.Store.{InMemoryVirtualWalletRepository, Method}
use coin_manage.VirtualWallets.Repository.{
  issue_virtual_wallet, reissue_virtual_wallet, get_wallet_signer_by_address,
}
use coin_manage.VirtualWallets.Store.{StoredVirtualWalletBinding}
use coin_manage.VirtualWallets.Heaps.{IsWellFormed}
use coin_manage.VirtualWallets.Run.{issue_virtual_wallet-Keeps, reissue_virtual_wallet-Keeps}
use coin_manage.VirtualWallets.Issues.{get_wallet_signer_by_address-active}

pub record GeneratedVirtualWalletAccount : Type 0 where
  pub address : String
  pub private_key : String

pub record ServiceInput : Type 0 where
  pub user_id : String
  pub currency_id : ℕ
  pub network : Network
  pub idempotency_key : String

-- What `syncVirtualWallet` is sent; `verified` is always false.
pub record SyncRequest : Type 0 where
  pub user_id : String
  pub currency_id : ℕ
  pub network : Network
  pub address : String
  pub private_key : String
  pub verified : Bool

-- `encrypt` of the key cipher, the address of the hot wallet, and the client, where there is one: it
-- answers or throws.
pub record Services : Type 0 where
  pub encrypt : String → String
  pub hot_wallet_address : String
  pub sync_client : Option (SyncRequest → Result (Unit {0}))

abbrev pub issue_input : Services → ServiceInput → GeneratedVirtualWalletAccount → IssueInput
issue_input services input generated = record {
  user_id = input.user_id;
  currency_id = input.currency_id;
  network = input.network;
  wallet_address = generated.address;
  private_key = generated.private_key;
  encrypted_private_key = services.encrypt generated.private_key;
  sweep_target_address = services.hot_wallet_address;
  idempotency_key = input.idempotency_key;
}

abbrev pub signer_missing : Error
signer_missing =
    domain_error 500 "VIRTUAL_WALLET_SIGNER_NOT_FOUND"
      "virtual wallet signer could not be loaded after issuance"

-- `!signer?.privateKey`, negated
abbrev pub has_key : Option FoxyaWalletSigner → Option FoxyaWalletSigner
has_key none = none
has_key (some signer) = if truthy signer.private_key then some signer else none

abbrev pub sync_request : VirtualWalletIssueResult → FoxyaWalletSigner → SyncRequest
sync_request issued signer = record {
  user_id = issued.binding.user_id;
  currency_id = issued.binding.currency_id;
  network = issued.binding.network;
  address = signer.address;
  private_key = signer.private_key;
  verified = false;
}

-- The signer that the repository has for an issued wallet.
abbrev pub signer_of :
    VirtualWalletIssueResult → InMemoryVirtualWalletRepository → Option FoxyaWalletSigner
signer_of issued s = has_key (
    get_wallet_signer_by_address issued.binding.wallet_address issued.binding.currency_id
      (some issued.binding.network) s)

-- The end of an issue: the client, where there is one, is sent the wallet.
unfoldable pub synchronise :
    Services
    → VirtualWalletIssueResult
    → InMemoryVirtualWalletRepository
    → Result VirtualWalletIssueResult
synchronise services issued s = elim services.sync_client [
  | none ↦ ok issued
  | some client ↦ elim (signer_of issued s) [
    | none ↦ err signer_missing
    | some signer ↦ elim (client (sync_request issued signer)) [ ok _ ↦ ok issued | err x ↦ err x ]
  ]
]

module _ (host : Host) (services : Services) where
  -- `issueInternal`; `generated` is what `generateAccount` answers.
  unfoldable pub issue_internal :
      ServiceInput
      → Bool
      → Result GeneratedVirtualWalletAccount
      → String
      → Method VirtualWalletIssueResult
  unfolding synchronise
  issue_internal input reissue generated now_iso s = elim generated [
    | err x ↦ (err x, s)
    | ok account ↦
        if not (truthy account.address) || not (truthy account.private_key)
        then (
          err (
              domain_error 500 "VIRTUAL_WALLET_GENERATION_FAILED"
                "failed to generate virtual wallet account"),
          s,
        )
        else let issue =
            if reissue then reissue_virtual_wallet host else issue_virtual_wallet host in
          let (r, t) = issue (issue_input services input account) now_iso s in
          elim r [ err x ↦ (err x, t) | ok issued ↦ (synchronise services issued t, t) ]
  ]

  unfoldable pub issue :
      ServiceInput → Result GeneratedVirtualWalletAccount → String → Method VirtualWalletIssueResult
  issue input = issue_internal input false

  unfoldable pub reissue :
      ServiceInput → Result GeneratedVirtualWalletAccount → String → Method VirtualWalletIssueResult
  reissue input = issue_internal input true

  issue_internal-IsWellFormed :
      (input : ServiceInput) (again : Bool) (generated : Result GeneratedVirtualWalletAccount)
      (now : String) (s : InMemoryVirtualWalletRepository)
      → IsWellFormed s
      → IsWellFormed (issue_internal input again generated now s).1
  issue_internal-IsWellFormed input again (err x) now s h = unfold issue_internal in h
  issue_internal-IsWellFormed input true (ok account) now s h =
      unfold issue_internal in
      ground (
        arith,
        (reissue_virtual_wallet-Keeps s h host (issue_input services input account)
            now).well_formed,
      )
  issue_internal-IsWellFormed input false (ok account) now s h =
      unfold issue_internal in
      ground (
        arith,
        (issue_virtual_wallet-Keeps s h host (issue_input services input account) now).well_formed,
      )

  -- On a well-formed repository, an issue or a reissue that succeeds on a service with a client has
  -- sent it the key of an active wallet, one that the repository has at the issued address in the
  -- issued currency, and the client has taken it.
  pub issue_internal-synchronised :
      (input : ServiceInput) (again : Bool) (generated : Result GeneratedVirtualWalletAccount)
      (now : String) (s : InMemoryVirtualWalletRepository)
      (client : SyncRequest → Result (Unit {0})) (issued : VirtualWalletIssueResult)
      → IsWellFormed s
      → services.sync_client ≡ some client
      → (issue_internal input again generated now s).0 ≡ ok issued
      → let t = (issue_internal input again generated now s).1 in
        (signer : FoxyaWalletSigner) × (ref : ℕ) × (w : StoredVirtualWalletBinding) × (t.heap ref
          ≡ some w)
        × (is_active w.shown.status ≡ true)
        × (w.shown.wallet_address ≡ issued.binding.wallet_address)
        × (w.shown.currency_id ≡ issued.binding.currency_id)
        × (signer.private_key ≡ w.private_key)
        × (client (sync_request issued signer) ≡ ok tt)
  issue_internal-synchronised input again generated now s client issued h there e =
      let t = (issue_internal input again generated now s).1 in
      let ended : synchronise services issued t ≡ ok issued =
        unfold issue_internal synchronise in ground arith in
      elim (Option-cases (signer_of issued t)) [
        | inl missing ↦ absurd (unfold synchronise in ground arith)
        | inr (signer, found) ↦
            let got : get_wallet_signer_by_address issued.binding.wallet_address
                  issued.binding.currency_id (some issued.binding.network) t
                ≡ some signer =
              ground arith in
            let wf : IsWellFormed t = issue_internal-IsWellFormed input again generated now s h in
            let (ref, w, at, act, address, currency, fits, same, user, key) =
              get_wallet_signer_by_address-active issued.binding.wallet_address
                issued.binding.currency_id (some issued.binding.network) t signer wf got in
            (signer, ref, w, at, act, address, currency, key, unfold synchronise in ground arith)
      ]
