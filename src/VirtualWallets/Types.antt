-- ===== src/VirtualWallets/Types.antt =====
-- src/domain/virtual-wallet/types.ts and the inputs of the repository's methods.
use coin_manage.Base.{ℕ, String, Bool, true, false, Option}

pub data VirtualWalletStatus : Type 0 where
  active retired disabled : VirtualWalletStatus

pub data VirtualWalletActivationStatus : Type 0 where
  pending_trx_grant trx_granted reclaim_pending reclaimed failed : VirtualWalletActivationStatus

pub data VirtualWalletResourceStatus : Type 0 where
  idle delegate_pending delegated release_pending released failed : VirtualWalletResourceStatus

pub data Network : Type 0 where
  mainnet testnet : Network

pub data IssuedBy : Type 0 where
  hot_wallet : IssuedBy

pub record VirtualWalletBinding : Type 0 where
  pub virtual_wallet_id : String
  pub user_id : String
  pub currency_id : ℕ
  pub network : Network
  pub wallet_address : String
  pub sweep_target_address : String
  pub issued_by : IssuedBy
  pub status : VirtualWalletStatus
  pub activation_status : VirtualWalletActivationStatus
  pub activation_grant_tx_hash : Option String
  pub activation_granted_at : Option String
  pub activation_reclaim_tx_hash : Option String
  pub activation_reclaimed_at : Option String
  pub activation_last_error : Option String
  pub resource_status : VirtualWalletResourceStatus
  pub resource_delegated_at : Option String
  pub resource_released_at : Option String
  pub resource_last_error : Option String
  pub created_at : String
  pub retired_at : Option String
  pub disabled_at : Option String
  pub replaced_by_virtual_wallet_id : Option String

pub record VirtualWalletIssueResult : Type 0 where
  pub binding : VirtualWalletBinding
  pub duplicated : Bool

-- The input of an issue and of a reissue, less the time.
pub record IssueInput : Type 0 where
  pub user_id : String
  pub currency_id : ℕ
  pub network : Network
  pub wallet_address : String
  pub private_key : String
  pub encrypted_private_key : String
  pub sweep_target_address : String
  pub idempotency_key : String

-- `FoxyaWalletSigner`
pub record FoxyaWalletSigner : Type 0 where
  pub user_id : String
  pub currency_id : ℕ
  pub address : String
  pub private_key : String

-- `DepositWatchAddress`; its network is always `TRON`.
pub record DepositWatchAddress : Type 0 where
  pub user_id : String
  pub currency_id : ℕ
  pub address : String
  pub network : String

-- `status === 'active'`
abbrev pub is_active : VirtualWalletStatus → Bool
is_active VirtualWalletStatus.active = true
is_active _ = false

-- `status === 'disabled'`
abbrev pub is_disabled : VirtualWalletStatus → Bool
is_disabled VirtualWalletStatus.disabled = true
is_disabled _ = false

-- `left === right` on networks
abbrev pub same_network : Network → Network → Bool
same_network Network.mainnet Network.mainnet = true
same_network Network.testnet Network.testnet = true
same_network _ _ = false

-- `left === right` on activation statuses
abbrev pub same_activation : VirtualWalletActivationStatus → VirtualWalletActivationStatus → Bool
same_activation VirtualWalletActivationStatus.pending_trx_grant
      VirtualWalletActivationStatus.pending_trx_grant =
    true
same_activation VirtualWalletActivationStatus.trx_granted
      VirtualWalletActivationStatus.trx_granted =
    true
same_activation VirtualWalletActivationStatus.reclaim_pending
      VirtualWalletActivationStatus.reclaim_pending =
    true
same_activation VirtualWalletActivationStatus.reclaimed VirtualWalletActivationStatus.reclaimed =
    true
same_activation VirtualWalletActivationStatus.failed VirtualWalletActivationStatus.failed = true
same_activation _ _ = false
