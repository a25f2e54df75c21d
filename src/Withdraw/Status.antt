-- ===== src/Withdraw/Status.antt =====
-- src/domain/ledger/withdraw-sync-status.ts and src/domain/ledger/withdraw-display-status.ts: the status of a
-- withdrawal as other systems and users are shown it.
use coin_manage.Base.{String, Bool, true, false, some, List, ltb, if◌then◌else◌, ◌≡◌, arith}
use coin_manage.Base.Map.{lookup}
use coin_manage.Contracts.{Host}
use coin_manage.Ledger.Calls.{Call, perform, run, empty_ledger}
use coin_manage.Ledger.Solvency.{IsDistinct}
use coin_manage.Ledger.Lifecycle.History.{perform-Advances}
use coin_manage.Ledger.Types.Funds.{Withdrawal, WithdrawalStatus}
use coin_manage.Ledger.Lifecycle.Status.{may_become}

pub data SyncStatus : Type 0 where
  processing sent completed failed : SyncStatus

pub data WithdrawalDisplayStatus : Type 0 where
  submitted under_review approved sending completed failed rejected : WithdrawalDisplayStatus

unfoldable pub map_withdrawal_to_sync_status : Withdrawal → SyncStatus
map_withdrawal_to_sync_status withdrawal = elim withdrawal.status [
  | WithdrawalStatus.tx_broadcasted ↦ SyncStatus.sent
  | WithdrawalStatus.completed ↦ SyncStatus.completed
  | WithdrawalStatus.failed ↦ SyncStatus.failed
  | WithdrawalStatus.rejected ↦ SyncStatus.failed
  | other ↦ SyncStatus.processing
]

unfoldable pub map_withdrawal_display_status : Withdrawal → WithdrawalDisplayStatus
map_withdrawal_display_status withdrawal = elim withdrawal.status [
  | WithdrawalStatus.ledger_reserved ↦ WithdrawalDisplayStatus.submitted
  | WithdrawalStatus.pending_admin ↦
      if ltb 0 withdrawal.approval_count
      then WithdrawalDisplayStatus.under_review
      else WithdrawalDisplayStatus.submitted
  | WithdrawalStatus.admin_approved ↦ WithdrawalDisplayStatus.approved
  | WithdrawalStatus.tx_broadcasted ↦ WithdrawalDisplayStatus.sending
  | WithdrawalStatus.completed ↦ WithdrawalDisplayStatus.completed
  | WithdrawalStatus.failed ↦ WithdrawalDisplayStatus.failed
  | WithdrawalStatus.rejected ↦ WithdrawalDisplayStatus.rejected
]

-- What a shown status may be after one more call. Only what was shown as sent is completed.
abbrev pub shown_may_become : SyncStatus → SyncStatus → Bool
shown_may_become SyncStatus.processing SyncStatus.processing = true
shown_may_become SyncStatus.processing SyncStatus.sent = true
shown_may_become SyncStatus.processing SyncStatus.failed = true
shown_may_become SyncStatus.sent SyncStatus.sent = true
shown_may_become SyncStatus.sent SyncStatus.completed = true
shown_may_become SyncStatus.sent SyncStatus.failed = true
shown_may_become SyncStatus.completed SyncStatus.completed = true
shown_may_become SyncStatus.failed SyncStatus.failed = true
shown_may_become _ _ = false

shown_edge :
    (w w' : Withdrawal)
    → may_become w.status w'.status ≡ true
    → shown_may_become (map_withdrawal_to_sync_status w) (map_withdrawal_to_sync_status w') ≡ true
unfolding map_withdrawal_to_sync_status
shown_edge w w' edge = ground arith

-- After any calls on a new ledger, where randomUUID never repeats itself, whatever is called next,
-- the status of a withdrawal that the other system is told stays as it is, or goes from processing
-- to sent or failed, or from sent to completed or failed: what was not told as sent before is never
-- told as completed, and completed and failed stay.
pub perform-sync_status :
    (host : Host)
    → IsDistinct host
    → (calls : List (String × Call)) (now : String) (call : Call) (id : String) (w : Withdrawal)
    → lookup id (run host calls empty_ledger).withdrawals ≡ some w
    → (w' : Withdrawal) × (lookup id
          (perform host now call (run host calls empty_ledger)).withdrawals
        ≡ some w')
      × (shown_may_become (map_withdrawal_to_sync_status w) (map_withdrawal_to_sync_status w')
          ≡ true)
perform-sync_status host distinct calls now call id w e =
    let (w', found, step) = perform-Advances host distinct calls now call id w e in
    (w', found, shown_edge w w' step.edge)
