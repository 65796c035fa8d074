-- ===== src/Event.antt =====
-- internal/event: the event envelope (`Model`), the rate limit and the acceptance of batches
-- (`RateLimit`, `Ingest`), and the consumer that turns the log into rollups (`Rollup`, `Consumer`).
pub mod Model
pub mod Validity
pub mod Clock
pub mod RateLimit
pub mod Ceiling
pub mod Ingest
pub mod Rows
pub mod Acceptance
pub mod Dedup
pub mod Hll
pub mod Rollup
pub mod Replay
pub mod Exactness
pub mod Consumer
pub mod LogConsumer
pub mod Redelivery
pub mod Pending
pub mod Progress
mod Scenarios
