-- ===== src/Dsl/Syntax/Dispatch.antt =====
-- `parse_stmt` of brane-dsl/src/parser/bscript.rs takes the alternative of its construct.
pub mod Front
pub mod Behind
pub mod Lets
pub use Front.{
  Takes, Takes-for, Takes-assign, Takes-on, Takes-block, Takes-parallel, Takes-let_parallel,
  Takes-class, Takes-func,
}
pub use Behind.{Takes-expr, Takes-if, Takes-import, Takes-return, Takes-while}
pub use Lets.{Takes-let_assign, alternatives-brace}
