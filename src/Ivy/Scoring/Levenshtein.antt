-- ===== src/Ivy/Scoring/Levenshtein.antt =====
-- The edit distance of ivy/pkg/matching/scoring.go, its specification, and the proof that it
-- computes it.
pub mod Defs
pub mod Script
pub mod Table
pub mod Metric
