-- ===== src/VirtualWallets.antt =====
-- The virtual wallets that the hot wallet issues to users, and the gate that their life cycle puts
-- before deposits and withdrawals: src/domain/virtual-wallet,
-- src/infrastructure/persistence/in-memory-virtual-wallet-repository.ts and
-- src/application/services/virtual-wallet-lifecycle-policy-service.ts.
pub mod Types
pub mod Store
pub mod Repository
pub mod Calls
pub mod Heaps
pub mod Creation
pub mod Keeps
pub mod Run
pub mod Issues
pub mod Policy
pub mod Service
mod Tests
