-- ===== src/Orchestrator.antt =====
-- orchestrator/: the development cycle that plans, builds, tests, reviews, merges and releases.
pub mod State
pub mod Gates
pub mod Focus
pub mod Merge
pub mod Store
pub mod Cycle
