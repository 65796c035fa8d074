-- ===== src/Assign.antt =====
-- internal/experiment/assign: assignment of an identity to a variant or the holdout by
-- computation: a hash bucket (`Bucket`) looked up in a table of ranges (`RangeTable`).
pub mod Bucket
pub mod RangeTable
pub mod Intervals
pub mod Accepts
pub mod Reweight
pub mod Overflow
pub mod Assignment
mod Scenarios
