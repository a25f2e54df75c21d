-- ===== src/VirtualWallets/Repository/Marks.antt =====
-- src/infrastructure/persistence/in-memory-virtual-wallet-repository.ts: the progress of a wallet's
-- activation and of its resources.
use coin_manage.Base.{String, Option, none, some}
use coin_manage.Base.Action.{modify, pure, ◌>>=◌, ◌>>◌}
use coin_manage.VirtualWallets.Types.{
  VirtualWalletActivationStatus, VirtualWalletResourceStatus, VirtualWalletBinding,
}
use coin_manage.VirtualWallets.Store.{Method, assign, require_binding}

-- The object is found and changed in place.
unfoldable pub change_binding :
    String → (VirtualWalletBinding → VirtualWalletBinding) → Method VirtualWalletBinding
unfolding require_binding
change_binding virtual_wallet_id change = do
  (ref, wallet) ← require_binding virtual_wallet_id
  let updated = change wallet.shown
  modify (assign ref (record wallet { shown = updated }))
  pure updated

abbrev pub with_activation_granted :
    Option String → String → VirtualWalletBinding → VirtualWalletBinding
with_activation_granted tx_hash now_iso b = record b {
  activation_status = VirtualWalletActivationStatus.trx_granted;
  activation_grant_tx_hash = tx_hash;
  activation_granted_at = some now_iso;
  activation_last_error = none;
}

unfoldable pub mark_activation_granted :
    String → Option String → String → Method VirtualWalletBinding
unfolding change_binding
mark_activation_granted id tx_hash now_iso =
    change_binding id (with_activation_granted tx_hash now_iso)

abbrev pub with_activation_reclaim_pending :
    Option String → VirtualWalletBinding → VirtualWalletBinding
with_activation_reclaim_pending tx_hash b = record b {
  activation_status = VirtualWalletActivationStatus.reclaim_pending;
  activation_reclaim_tx_hash = tx_hash;
  activation_last_error = none;
}

unfoldable pub mark_activation_reclaim_pending :
    String → Option String → Method VirtualWalletBinding
unfolding change_binding
mark_activation_reclaim_pending id tx_hash =
    change_binding id (with_activation_reclaim_pending tx_hash)

abbrev pub with_activation_reclaimed :
    Option String → String → VirtualWalletBinding → VirtualWalletBinding
with_activation_reclaimed tx_hash now_iso b = record b {
  activation_status = VirtualWalletActivationStatus.reclaimed;
  activation_reclaim_tx_hash = tx_hash;
  activation_reclaimed_at = some now_iso;
  activation_last_error = none;
}

unfoldable pub mark_activation_reclaimed :
    String → Option String → String → Method VirtualWalletBinding
unfolding change_binding
mark_activation_reclaimed id tx_hash now_iso =
    change_binding id (with_activation_reclaimed tx_hash now_iso)

abbrev pub with_activation_failed : String → VirtualWalletBinding → VirtualWalletBinding
with_activation_failed message b = record b {
  activation_status = VirtualWalletActivationStatus.failed;
  activation_last_error = some message;
}

unfoldable pub mark_activation_failed : String → String → Method VirtualWalletBinding
unfolding change_binding
mark_activation_failed id message = change_binding id (with_activation_failed message)

abbrev pub with_resource_delegate_pending : VirtualWalletBinding → VirtualWalletBinding
with_resource_delegate_pending b = record b {
  resource_status = VirtualWalletResourceStatus.delegate_pending;
  resource_last_error = none;
}

unfoldable pub mark_resource_delegate_pending : String → Method VirtualWalletBinding
unfolding change_binding
mark_resource_delegate_pending id = change_binding id (with_resource_delegate_pending)

abbrev pub with_resource_delegated : String → VirtualWalletBinding → VirtualWalletBinding
with_resource_delegated now_iso b = record b {
  resource_status = VirtualWalletResourceStatus.delegated;
  resource_delegated_at = some now_iso;
  resource_last_error = none;
}

unfoldable pub mark_resource_delegated : String → String → Method VirtualWalletBinding
unfolding change_binding
mark_resource_delegated id now_iso = change_binding id (with_resource_delegated now_iso)

abbrev pub with_resource_release_pending : VirtualWalletBinding → VirtualWalletBinding
with_resource_release_pending b = record b {
  resource_status = VirtualWalletResourceStatus.release_pending;
  resource_last_error = none;
}

unfoldable pub mark_resource_release_pending : String → Method VirtualWalletBinding
unfolding change_binding
mark_resource_release_pending id = change_binding id (with_resource_release_pending)

abbrev pub with_resource_released : String → VirtualWalletBinding → VirtualWalletBinding
with_resource_released now_iso b = record b {
  resource_status = VirtualWalletResourceStatus.released;
  resource_released_at = some now_iso;
  resource_last_error = none;
}

unfoldable pub mark_resource_released : String → String → Method VirtualWalletBinding
unfolding change_binding
mark_resource_released id now_iso = change_binding id (with_resource_released now_iso)

abbrev pub with_resource_failed : String → VirtualWalletBinding → VirtualWalletBinding
with_resource_failed message b = record b {
  resource_status = VirtualWalletResourceStatus.failed;
  resource_last_error = some message;
}

unfoldable pub mark_resource_failed : String → String → Method VirtualWalletBinding
unfolding change_binding
mark_resource_failed id message = change_binding id (with_resource_failed message)
