-- ===== src/Withdraw.antt =====
-- What stands around a withdrawal outside the ledger: the policies on destinations, the guard of the
-- hot wallet, the queue of jobs in memory, and the status that others are shown.
pub mod Policy
pub mod Guard
pub mod GuardLaws
pub mod Queue
pub mod Status
pub mod Sync
pub mod SyncFrames
pub mod Service
pub mod Broadcasts
pub mod Dispatch
pub mod Dispatches
pub mod Approval
pub mod Approvals
pub mod Reconcile
mod BroadcastTests
mod Tests
