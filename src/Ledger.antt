-- ===== src/Ledger.antt =====
-- src/ledger: the in-memory ledger and its types.
pub mod Types
pub mod State
pub mod Accounts
pub mod Deposits
pub mod Transfers
pub mod Requests
pub mod Fees
pub mod Withdrawals
pub mod Sweeps
pub mod Jobs
pub mod Solvency
pub mod Audit
pub mod Consumers
pub mod Outbox
pub mod Summary
pub mod Calls
pub mod Lifecycle
pub mod Conservation
pub mod Repeats
pub mod Tests
pub mod Frames
