-- ===== src/Definition.antt =====
-- internal/definition: the campaign's entities, its lifecycle, and the checks of a save.
pub mod Model
pub mod Lifecycle
pub mod Validate
pub mod Weights
pub mod Accepted
mod Scenarios
