-- ===== src/Ivy/Criteria.antt =====
-- ivy/pkg/criteria/criteria.go: the conditions of criteria-based relationships.
pub mod Paths
pub mod Nested
pub mod Defs
pub mod Operators
pub mod Split
pub mod Containment
