-- ===== src/Ivy/Merging/Fields.antt =====
-- The field merger, ivy/pkg/merging/field_merger.go.
pub mod Defs
pub mod CollectAll
pub mod Merge
pub mod Sorting
pub mod Selection
pub mod Lengths
pub mod Collection
pub mod Distinct
pub mod Origins
pub mod Provenance
