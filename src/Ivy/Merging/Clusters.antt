-- ===== src/Ivy/Merging/Clusters.antt =====
-- The merge engine, ivy/pkg/merging/engine.go: golden records and the clusters behind them.
pub mod Store
pub mod Golden
pub mod Engine
pub mod Dispatch
pub mod Members
pub mod Live
pub mod Statements
pub mod Consistent
pub mod Together
pub mod Sources
pub mod Outcome
pub mod Record
pub mod Primary
pub mod Gather
pub mod Absorb
pub mod Success
pub mod Tidy
pub mod Origin
pub mod Blocked
pub mod Ended
pub mod Total
pub mod Union
pub mod Unites
