-- ===== src/Ivy/Matching.antt =====
-- The matching service of ivy/pkg/matching/service.go.
pub mod Defs
pub mod Blocking
pub mod Scoring
pub mod Candidates
pub mod Index
pub mod Indexing
pub mod Specs
pub mod Rows
pub mod Indexed
pub mod Service
pub mod NoMerge
pub mod Required
pub mod Gates
pub mod Fairness
pub mod Bounds
pub mod BestRule
pub mod Outcomes
pub mod Total
pub mod Anchors
