-- ===== src/Audience.antt =====
-- internal/audience: the registry of attributes, the checks of a predicate, and its compilation to SQL.
pub mod Registry
pub mod Expr
pub mod Compile
pub mod Spans
pub mod Emitted
pub mod Placeholders
pub mod Grammar
pub mod Leaves
pub mod SemVer
pub mod SemVerOrder
pub mod Supported
pub mod Vocabulary
pub mod Words
mod Scenarios
