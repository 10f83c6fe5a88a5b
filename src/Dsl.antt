-- ===== src/Dsl.antt =====
-- brane-dsl: the syntax tree of a script, and its compilation to byte code.
pub mod Ast
pub mod Generator
pub mod Correct
pub mod Bytes
pub mod Scanner
pub mod Compiler
pub mod Run
pub mod Syntax
mod Tests
