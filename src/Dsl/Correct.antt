-- ===== src/Dsl/Correct.antt =====
-- The code that `expr_to_opcodes` of brane-dsl/src/generator/generator.rs writes, run on the
-- machine of brane-bvm/src/vm.rs.
pub mod Semantics
pub mod Exchange
pub mod Kinds
pub mod Chunks
pub mod Machine
pub mod Operators
pub mod Steps
pub mod Variables
pub mod Operands
pub mod Jumps
pub mod Expressions
