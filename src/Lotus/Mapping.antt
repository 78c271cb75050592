-- ===== src/Lotus/Mapping.antt =====
-- The mapping engine, lotus/pkg/mapping, with the types, fields, links and steps that it works on.
pub mod Outcome
pub mod Types
pub mod Fields
pub mod Linq
pub mod Links
pub mod Steps
pub mod Plan
pub mod Paths
pub mod Target
pub mod Writes
pub mod Output
pub mod Run
pub mod Execute
