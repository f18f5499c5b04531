-- ===== src/Layout.antt =====
-- The memory layout of the struct types of lib/ref/struct.js and the union types of
-- lib/ref/union.js.
pub mod Struct
pub mod Union
pub mod Align
pub mod Repeated
pub mod StructLaws
pub mod PackedLaws
pub mod UnionLaws
pub mod Quirks
pub mod Names
pub mod Construction
