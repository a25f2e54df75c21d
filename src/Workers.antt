-- ===== src/Workers.antt =====
-- The services around the ledger that run on their own: circuit breakers, the runner of event
-- consumers, the outbox publisher, and the states of the offline workflow.
pub mod Breakers
pub mod OfflineBreaker
pub mod Consumer
pub mod ConsumerRuns
pub mod ConsumerFrames
pub mod Publisher
pub mod PublisherCycles
mod Tests
