-- ===== src/Ivy/Deletion.antt =====
-- What follows the deletion of a staged entity: ivy/pkg/processor/deletion_processor.go.
pub mod Processor
pub mod Members
pub mod Consistent
