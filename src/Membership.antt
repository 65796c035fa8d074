-- ===== src/Membership.antt =====
-- internal/membership: the ordinals of channels, the two indexes of segment membership, and how they are kept.
pub mod Bitmaps
pub mod Ordinal
pub mod Index
pub mod Incremental
pub mod Batch
pub mod Bits
pub mod Agreement
pub mod Updated
pub mod Rebuilt
pub mod Inserted
pub mod Recomputed
pub mod Table
mod Scenarios
