-- ===== src/Lotus.antt =====
-- The mapping service (lotus/pkg).
pub mod Binding
pub mod Mapping
