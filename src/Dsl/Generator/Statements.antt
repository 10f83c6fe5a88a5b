-- ===== src/Dsl/Generator/Statements.antt =====
-- `compile`, `compile_function` and `stmt_to_opcodes`. A scope is an `i32` that is not negative.
use brane.Prelude.{
  ℕ, suc, ◌%◌, Option, none, some, String, List, [], ◌∷◌, map, length, Outcome, ok, panic, ◌>>=◌,
}
use brane.Value
use brane.Value.{Value, spec_class, SpecFunction, no_methods, method}
use brane.Bytecode.Opcodes.{Opcode}
use brane.Bytecode.Chunk
use brane.Bytecode.Chunk.{ChunkMut, FunctionMut, write, write_pair, to_spec}
use brane.Dsl.Ast
use brane.Dsl.Ast.{Ident, Expr, Stmt, Stmts, Methods}
use brane.Dsl.Generator.Writer.{
  Local, Gen, op, op_byte, op_constant, ident_to_opcodes, placeholder, patch, jump_back, end_scope,
  bind_name,
}
use brane.Dsl.Generator.Compile.{expr_to_opcodes}

-- an expression where a statement is compiled
abbrev pub emit_expr : Expr → Gen → Outcome ⊥ Gen
emit_expr e g = do c ← expr_to_opcodes e g.locals g.chunk; ok (record g { chunk = c })

abbrev pub emit : (ChunkMut → ChunkMut) → Gen → Gen
emit f g = record g { chunk = f g.chunk }

-- the locals that a function begins with: itself and its parameters
abbrev pub parameters_at : ℕ → List Ident → List Local
parameters_at scope params =
    record { name = "func"; depth = scope } ∷ map (λ p. record { name = p; depth = scope }) params

-- `compile_function`, with the compilation of its body as an argument
unfoldable pub compile_function :
    (Gen → Outcome ⊥ Gen) → ℕ → List Ident → String → Outcome ⊥ FunctionMut
compile_function body scope params name = do
  g ← body (record { chunk = Chunk.default; locals = parameters_at scope params })
  ok (Chunk.new name (length params % 256) (op Opcode.return (op Opcode.unit g.chunk)))

-- The position of a placeholder is behind the jump that it belongs to.
abbrev pub plh_pos_of : Gen → ℕ
plh_pos_of g = suc (length g.chunk.code)

-- `while`, and `for` after its initializer, with the compilation of what it repeats
unfoldable pub loop_to_opcodes : Expr → (Gen → Outcome ⊥ Gen) → Gen → Outcome ⊥ Gen
loop_to_opcodes condition body g = do
  let loop_start = length g.chunk.code
  g₁ ← emit_expr condition g
  let plh_pos = plh_pos_of g₁
  g₂ ← body (emit (λ c. op Opcode.pop (placeholder Opcode.jump_if_false c)) g₁)
  ok (emit (λ c. op Opcode.pop (patch plh_pos (jump_back loop_start c))) g₂)

-- `if`, with the compilation of its two blocks
unfoldable pub if_to_opcodes :
    Expr → (Gen → Outcome ⊥ Gen) → (Gen → Outcome ⊥ Gen) → Gen → Outcome ⊥ Gen
if_to_opcodes condition consequent alternative g = do
  g₁ ← emit_expr condition g
  let plh_pos = plh_pos_of g₁
  g₂ ← consequent (emit (λ c. op Opcode.pop (placeholder Opcode.jump_if_false c)) g₁)
  let else_jump_pos = plh_pos_of g₂
  g₃ ← alternative (emit (λ c. op Opcode.pop (patch plh_pos (placeholder Opcode.jump c))) g₂)
  ok (emit (patch else_jump_pos) g₃)

-- the result of a parallel statement: bound to a name, or dropped
abbrev pub end_parallel : Option Ident → ℕ → Gen → Gen
end_parallel none scope g = emit (op Opcode.pop) g
end_parallel (some ident) scope g = bind_name ident scope g

-- a function as a constant
abbrev pub constant_function : FunctionMut → ChunkMut → ChunkMut
constant_function f = op_constant Opcode.constant (Value.function (to_spec f))

unfoldable mutual
  pub stmt_to_opcodes : Stmt → ℕ → Gen → Outcome ⊥ Gen
  stmt_to_opcodes (Stmt.import ident) scope g =
      ok (emit (op_constant Opcode.import (Value.unicode ident)) g)
  stmt_to_opcodes (Stmt.declare_class ident properties methods) scope g = do
    ms ← methods_to_opcodes methods
    ok (
        emit
          (λ c.
            op_constant Opcode.define_global (Value.unicode ident)
              (op_constant Opcode.class (Value.class (spec_class ident properties ms)) c))
          g)
  stmt_to_opcodes (Stmt.assign ident e) scope g = do
    g₁ ← emit_expr e g
    ok (emit (ident_to_opcodes Opcode.set_local Opcode.set_global ident g₁.locals) g₁)
  stmt_to_opcodes (Stmt.let_assign ident e) scope g = do
    g₁ ← emit_expr e g
    ok (bind_name ident scope g₁)
  stmt_to_opcodes (Stmt.block b) scope g = do
    g₁ ← stmts_to_opcodes b (suc scope) g
    ok (end_scope (suc scope) g₁)
  stmt_to_opcodes (Stmt.for initializer condition increment consequent) scope g = do
    g₁ ← stmt_to_opcodes initializer (suc scope) g
    loop_to_opcodes condition
        (λ h. stmts_to_opcodes consequent (suc scope) h >>= λ h₁.
          stmt_to_opcodes increment (suc scope) h₁)
        g₁
  stmt_to_opcodes (Stmt.while condition consequent) scope g =
      loop_to_opcodes condition
        (λ h. stmts_to_opcodes consequent (suc scope) h >>= λ h₁. ok (end_scope (suc scope) h₁)) g
  stmt_to_opcodes (Stmt.if_then condition consequent) scope g =
      if_to_opcodes condition
        (λ h. stmts_to_opcodes consequent (suc scope) h >>= λ h₁. ok (end_scope (suc scope) h₁)) ok
        g
  stmt_to_opcodes (Stmt.if_else condition consequent alternative) scope g =
      if_to_opcodes condition
        (λ h. stmts_to_opcodes consequent (suc scope) h >>= λ h₁. ok (end_scope (suc scope) h₁))
        (λ h. stmts_to_opcodes alternative (suc scope) h >>= λ h₁. ok (end_scope (suc scope) h₁)) g
  stmt_to_opcodes (Stmt.expr e) scope g = do g₁ ← emit_expr e g; ok (emit (op Opcode.pop) g₁)
  stmt_to_opcodes (Stmt.property _ _) scope g = panic
  stmt_to_opcodes Stmt.return_unit scope g = ok (emit (λ c. op Opcode.return (op Opcode.unit c)) g)
  stmt_to_opcodes (Stmt.return e) scope g = do g₁ ← emit_expr e g; ok (emit (op Opcode.return) g₁)
  stmt_to_opcodes (Stmt.declare_func ident params body) scope g = do
    f ← compile_function (λ h. stmts_to_opcodes body (suc scope) h) (suc scope) params ident
    ok (
        emit (λ c. op_constant Opcode.define_global (Value.unicode ident) (constant_function f c))
          g)
  stmt_to_opcodes (Stmt.on location b) scope g = do
    g₁ ← emit_expr location g
    g₂ ← stmts_to_opcodes b scope (emit (op Opcode.loc_push) g₁)
    ok (emit (op Opcode.loc_pop) (end_scope scope g₂))
  stmt_to_opcodes (Stmt.parallel let_assign blocks) scope g = do
    c ← branches_to_opcodes blocks scope g.chunk
    ok (
        end_parallel let_assign scope
          (record g { chunk = op_byte Opcode.parallel (Ast.count_stmts blocks % 256) c }))

  pub stmts_to_opcodes : Stmts → ℕ → Gen → Outcome ⊥ Gen
  stmts_to_opcodes Stmts.end scope g = ok g
  stmts_to_opcodes (Stmts.stmt s ss) scope g = do
    g₁ ← stmt_to_opcodes s scope g
    stmts_to_opcodes ss scope g₁

  -- the methods of a class; all are functions
  pub methods_to_opcodes : Methods → Outcome ⊥ Value.Methods
  methods_to_opcodes Methods.no_methods = ok no_methods
  methods_to_opcodes (Methods.method k s ms) = do
    f ← method_to_opcodes s
    fs ← methods_to_opcodes ms
    ok (method k f fs)

  pub method_to_opcodes : Stmt → Outcome ⊥ SpecFunction
  method_to_opcodes (Stmt.declare_func ident params body) = do
    f ← compile_function (λ h. stmts_to_opcodes body 1 h) 1 params ident
    ok (to_spec f)
  method_to_opcodes _ = panic

  -- the branches of a parallel statement, the last first
  pub branches_to_opcodes : Stmts → ℕ → ChunkMut → Outcome ⊥ ChunkMut
  branches_to_opcodes Stmts.end scope c = ok c
  branches_to_opcodes (Stmts.stmt b bs) scope c = do
    c₁ ← branches_to_opcodes bs scope c
    f ← compile_function (λ h. stmt_to_opcodes b scope h) scope [] ""
    ok (constant_function f c₁)

unfoldable pub compile : Stmts → Outcome ⊥ FunctionMut
compile program = do
  g ← stmts_to_opcodes program 0 (record { chunk = Chunk.default; locals = [] })
  ok (Chunk.main g.chunk)
