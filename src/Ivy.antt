-- ===== src/Ivy.antt =====
-- The entity resolution service (ivy/pkg).
pub mod Criteria
pub mod Merging
pub mod Deletion
pub mod Stream
pub mod Matching
pub mod Scoring
