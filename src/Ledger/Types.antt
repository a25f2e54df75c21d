-- ===== src/Ledger/Types.antt =====
-- src/ledger/types.ts. A field marked `?` is an `Option`, a `bigint` is a ℤ, a timestamp is its
-- ISO text. The outbox's payloads are the contracts of `Contracts.antt`.
pub mod Funds
pub mod Records
pub mod Events
