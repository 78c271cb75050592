-- ===== src/Lotus/Binding.antt =====
-- The binding matcher of lotus/pkg/binding.
pub mod Defs
pub mod Registry
pub mod Passes
pub mod Score
pub mod Upkeep
pub mod Removal
pub mod Runs
pub mod Best
