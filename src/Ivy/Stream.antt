-- ===== src/Ivy/Stream.antt =====
-- The processors of the change events: ivy/pkg/processor/merge_processor.go and the dispatch of
-- ivy/pkg/processor/deletion_processor.go.
pub mod Events
pub mod Merges
pub mod Deletions
pub mod Settled
pub mod Cascade
pub mod Messages
pub mod Runs
