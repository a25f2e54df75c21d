-- ===== src/VirtualWallets/Calls.antt =====
-- The state-changing methods of src/infrastructure/persistence/in-memory-virtual-wallet-repository.ts
-- as calls, one after the other.
use coin_manage.Base.{String, Option, none, List, [], ◌∷◌}
use coin_manage.Contracts.{Host}
use coin_manage.Ledger.State.{InMemoryLedger}
use coin_manage.VirtualWallets.Types.{IssueInput}
use coin_manage.VirtualWallets.Store.{InMemoryVirtualWalletRepository}
use coin_manage.VirtualWallets.Repository
use coin_manage.VirtualWallets.Repository.Marks

pub data Call : Type 0 where
  issue_virtual_wallet reissue_virtual_wallet : IssueInput → Call
  retire_virtual_wallet : String → Option String → Call
  disable_virtual_wallet : String → Call
  mark_activation_granted mark_activation_reclaim_pending : String → Option String → Call
  mark_activation_reclaimed : String → Option String → Call
  mark_activation_failed : String → String → Call
  mark_resource_delegate_pending mark_resource_delegated : String → Call
  mark_resource_release_pending mark_resource_released : String → Call
  mark_resource_failed : String → String → Call

-- The state after one call, made at the time `now`.
unfoldable pub perform :
    Host → String → Call → InMemoryVirtualWalletRepository → InMemoryVirtualWalletRepository
perform host now (Call.issue_virtual_wallet input) s =
    (Repository.issue_virtual_wallet host input now s).1
perform host now (Call.reissue_virtual_wallet input) s =
    (Repository.reissue_virtual_wallet host input now s).1
perform host now (Call.retire_virtual_wallet id by) s =
    (Repository.retire_virtual_wallet id by now s).1
perform host now (Call.disable_virtual_wallet id) s = (Repository.disable_virtual_wallet id now s).1
perform host now (Call.mark_activation_granted id tx_hash) s =
    (Marks.mark_activation_granted id tx_hash now s).1
perform host now (Call.mark_activation_reclaim_pending id tx_hash) s =
    (Marks.mark_activation_reclaim_pending id tx_hash s).1
perform host now (Call.mark_activation_reclaimed id tx_hash) s =
    (Marks.mark_activation_reclaimed id tx_hash now s).1
perform host now (Call.mark_activation_failed id message) s =
    (Marks.mark_activation_failed id message s).1
perform host now (Call.mark_resource_delegate_pending id) s =
    (Marks.mark_resource_delegate_pending id s).1
perform host now (Call.mark_resource_delegated id) s = (Marks.mark_resource_delegated id now s).1
perform host now (Call.mark_resource_release_pending id) s =
    (Marks.mark_resource_release_pending id s).1
perform host now (Call.mark_resource_released id) s = (Marks.mark_resource_released id now s).1
perform host now (Call.mark_resource_failed id message) s =
    (Marks.mark_resource_failed id message s).1

unfoldable pub run :
    Host → List (String × Call) → InMemoryVirtualWalletRepository → InMemoryVirtualWalletRepository
run host [] s = s
run host ((now, call) ∷ calls) s = run host calls (perform host now call s)

-- A new repository on a ledger.
abbrev pub empty_repository : InMemoryLedger → InMemoryVirtualWalletRepository
empty_repository ledger = record {
  heap = λ ref. none;
  allocated = 0;
  wallets_by_user_id = [];
  wallet_by_address = [];
  wallet_by_id = [];
  wallet_by_idempotency_key = [];
  ledger = ledger;
}
