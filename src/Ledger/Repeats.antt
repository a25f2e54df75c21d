-- ===== src/Ledger/Repeats.antt =====
-- src/ledger/in-memory-ledger.ts: calls that are repeated.
pub mod Credit
pub mod Deposit
pub mod Request
pub mod Transfer
mod Tests
