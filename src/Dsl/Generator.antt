-- ===== src/Dsl/Generator.antt =====
-- brane-dsl/src/generator/generator.rs
pub mod Writer
pub mod Compile
pub mod Statements
