-- ===== src/Ivy/Merging.antt =====
-- Entity merging of ivy/pkg/merging.
pub mod Fields
pub mod Clusters
