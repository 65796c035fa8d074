-- ===== src/Delivery.antt =====
-- internal/delivery: the size ceiling of a payload, the buckets of an experiment, the log of changes,
-- and the delta of a synchronization.
pub mod Payload
pub mod Prefix
pub mod Allocation
pub mod Natural
pub mod Allotted
pub mod Variants
pub mod Counted
pub mod Assigned
pub mod Bundle
pub mod Cache
pub mod Edits
pub mod Overlay
pub mod Withheld
pub mod Assembly
pub mod Requests
pub mod Sourced
pub mod Coherence
pub mod Warm
pub mod Confirm
pub mod Confirmed
pub mod Changelog
pub mod Delta
pub mod Sent
pub mod Retention
mod Scenarios
