-- ===== src/Dsl/Generator/Compile.antt =====
-- `compile`, `compile_function`, `stmt_to_opcodes` and `expr_to_opcodes`.
use brane.Prelude.{◌+◌, ◌%◌, true, false, List, Outcome, ok, panic, ◌>>=◌}
use brane.Value.{Value}
use brane.Bytecode.Opcodes.{Opcode}
use brane.Bytecode.Chunk.{ChunkMut}
use brane.Dsl.Ast
use brane.Dsl.Ast.{Ident, Lit, BinOp, UnOp, Expr, Exprs, Stmt, Stmts, Methods}
use brane.Dsl.Generator.Writer.{Local, op, op_byte, op_constant, ident_to_opcodes}

unfoldable pub literal_to_opcodes : Lit → ChunkMut → ChunkMut
literal_to_opcodes (Lit.boolean true) c = op Opcode.true' c
literal_to_opcodes (Lit.boolean false) c = op Opcode.false' c
literal_to_opcodes (Lit.integer i) c = op_constant Opcode.constant (Value.integer i) c
literal_to_opcodes (Lit.real r) c = op_constant Opcode.constant (Value.real r) c
literal_to_opcodes (Lit.string s) c = op_constant Opcode.constant (Value.unicode s) c
literal_to_opcodes Lit.unit c = op Opcode.unit c

-- the instructions of an operator behind its operands
unfoldable pub operator_to_opcodes : BinOp → ChunkMut → Outcome ⊥ ChunkMut
operator_to_opcodes BinOp.add c = ok (op Opcode.add c)
operator_to_opcodes BinOp.sub c = ok (op Opcode.substract c)
operator_to_opcodes BinOp.mul c = ok (op Opcode.multiply c)
operator_to_opcodes BinOp.div c = ok (op Opcode.divide c)
operator_to_opcodes BinOp.eq c = ok (op Opcode.equal c)
operator_to_opcodes BinOp.lt c = ok (op Opcode.less c)
operator_to_opcodes BinOp.gt c = ok (op Opcode.greater c)
operator_to_opcodes BinOp.le c = ok (op Opcode.not' (op Opcode.greater c))
operator_to_opcodes BinOp.ge c = ok (op Opcode.not' (op Opcode.less c))
operator_to_opcodes BinOp.ne c = ok (op Opcode.not' (op Opcode.equal c))
operator_to_opcodes BinOp.and c = ok (op Opcode.and c)
operator_to_opcodes BinOp.or c = ok (op Opcode.or c)
operator_to_opcodes BinOp.dot c = panic

unfoldable pub unary_to_opcodes : UnOp → ChunkMut → Outcome ⊥ ChunkMut
unary_to_opcodes UnOp.neg c = ok (op Opcode.negate c)
unary_to_opcodes UnOp.not' c = ok (op Opcode.not' c)
unary_to_opcodes _ c = panic

-- The locals are read and never changed.
unfoldable mutual
  pub expr_to_opcodes : Expr → List Local → ChunkMut → Outcome ⊥ ChunkMut
  expr_to_opcodes (Expr.binary BinOp.dot lhs (Expr.ident ident)) locals c = do
    c₁ ← expr_to_opcodes lhs locals c
    ok (op_constant Opcode.get_property (Value.unicode ident) c₁)
  expr_to_opcodes (Expr.binary BinOp.dot lhs (Expr.call ident arguments)) locals c = do
    c₁ ← expr_to_opcodes lhs locals c
    let arguments_n = (Ast.count arguments + 1) % 256
    c₂ ← skip_first arguments locals (op_constant Opcode.get_method (Value.unicode ident) c₁)
    ok (op_byte Opcode.call arguments_n c₂)
  expr_to_opcodes (Expr.binary operator lhs rhs) locals c = do
    c₁ ← expr_to_opcodes lhs locals c
    c₂ ← expr_to_opcodes rhs locals c₁
    operator_to_opcodes operator c₂
  expr_to_opcodes (Expr.unary operator operand) locals c = do
    c₁ ← expr_to_opcodes operand locals c
    unary_to_opcodes operator c₁
  expr_to_opcodes (Expr.literal l) locals c = ok (literal_to_opcodes l c)
  expr_to_opcodes (Expr.ident i) locals c =
      ok (ident_to_opcodes Opcode.get_local Opcode.get_global i locals c)
  expr_to_opcodes (Expr.call f arguments) locals c = do
    c₁ ←
        exprs_to_opcodes arguments locals
          (ident_to_opcodes Opcode.get_local Opcode.get_global f locals c)
    ok (op_byte Opcode.call (Ast.count arguments % 256) c₁)
  expr_to_opcodes (Expr.instance' class properties) locals c = do
    c₁ ← properties_to_opcodes properties locals c
    ok (
        op_byte Opcode.new (Ast.count_stmts properties % 256)
          (ident_to_opcodes Opcode.get_local Opcode.get_global class locals c₁))
  expr_to_opcodes (Expr.array entries) locals c = do
    c₁ ← reversed_to_opcodes entries locals c
    ok (op_byte Opcode.array (Ast.count entries % 256) c₁)
  expr_to_opcodes (Expr.index target at_index) locals c = do
    c₁ ← expr_to_opcodes target locals c
    c₂ ← expr_to_opcodes at_index locals c₁
    ok (op Opcode.index c₂)
  expr_to_opcodes (Expr.pattern' _) locals c = panic

  pub exprs_to_opcodes : Exprs → List Local → ChunkMut → Outcome ⊥ ChunkMut
  exprs_to_opcodes Exprs.nil locals c = ok c
  exprs_to_opcodes (Exprs.cons e es) locals c = do
    c₁ ← expr_to_opcodes e locals c
    exprs_to_opcodes es locals c₁

  -- `iter().skip(1)`
  pub skip_first : Exprs → List Local → ChunkMut → Outcome ⊥ ChunkMut
  skip_first Exprs.nil locals c = ok c
  skip_first (Exprs.cons _ es) locals c = exprs_to_opcodes es locals c

  -- `iter().rev()`
  pub reversed_to_opcodes : Exprs → List Local → ChunkMut → Outcome ⊥ ChunkMut
  reversed_to_opcodes Exprs.nil locals c = ok c
  reversed_to_opcodes (Exprs.cons e es) locals c = do
    c₁ ← reversed_to_opcodes es locals c
    expr_to_opcodes e locals c₁

  -- the properties of an instance: each its value and its name
  pub properties_to_opcodes : Stmts → List Local → ChunkMut → Outcome ⊥ ChunkMut
  properties_to_opcodes Stmts.end locals c = ok c
  properties_to_opcodes (Stmts.stmt p ps) locals c = do
    c₁ ← property_to_opcodes p locals c
    properties_to_opcodes ps locals c₁

  pub property_to_opcodes : Stmt → List Local → ChunkMut → Outcome ⊥ ChunkMut
  property_to_opcodes (Stmt.assign name value) locals c = do
    c₁ ← expr_to_opcodes value locals c
    ok (literal_to_opcodes (Lit.string name) c₁)
  property_to_opcodes _ locals c = panic
