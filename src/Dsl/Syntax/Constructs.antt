-- ===== src/Dsl/Syntax/Constructs.antt =====
-- What each parser of brane-dsl/src/parser/bscript.rs gives on its own construct.
pub mod Simple
pub mod Blocks
pub mod Groups
pub use Simple.{
  let_assign_stmt-done, assign_stmt-done, expr_stmt-done, return_stmt-done, import_stmt-done,
  import_stmt-version,
}
pub use Blocks.{
  on_stmt-done, block_stmt-done, while_stmt-done, if_stmt-then, if_stmt-else, for_stmt-done,
}
pub use Groups.{
  parallel_stmt-done, parallel_stmt-let, declare_func_stmt-done, declare_class_stmt-done,
  declare_property_stmt-done,
}
