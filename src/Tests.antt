-- ===== src/Tests.antt =====
-- Runs of the models on concrete inputs, and each theorem at one of them.
mod Base
mod Scoring
mod Criteria
mod Merging
mod Binding
mod Mapping
mod Steps
mod Target
mod Matching
mod Service
mod Clusters
mod Stream
