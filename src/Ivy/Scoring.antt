-- ===== src/Ivy/Scoring.antt =====
-- String comparison of ivy/pkg/matching/scoring.go.
pub mod Levenshtein
