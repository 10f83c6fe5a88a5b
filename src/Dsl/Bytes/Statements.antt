-- ===== src/Dsl/Bytes/Statements.antt =====
-- The bytes of statements and of whole scripts.
use brane.Prelude.{ℕ, suc, [], ok, arith}
use brane.Value.{Value, spec_class}
use brane.Bytecode.Opcodes.{Opcode}
use brane.Bytecode.Chunk
use brane.Bytecode.Chunk.{ChunkMut, write_bytes, write_pair, write, to_spec}
use brane.Dsl.Ast.{Stmt, Stmts, Methods}
use brane.Dsl.Generator.Writer.{Gen}
use brane.Dsl.Generator.Statements.{
  emit_expr, compile_function, stmt_to_opcodes, stmts_to_opcodes, methods_to_opcodes,
  branches_to_opcodes, method_to_opcodes,
}
use brane.Dsl.Bytes.{
  FunctionBytes, MethodsBytes, Bytes, Of, Of-bind, op-Bytes, op_byte-Bytes, op_constant-Bytes,
  ident-Bytes,
}
use brane.Dsl.Bytes.Pieces.{
  GenBytes, end_scope-Bytes, bind_name-Bytes, emit_expr-Bytes, FuncBytes, compile_function-Bytes,
  to_spec-Bytes, loop-Bytes, if-Bytes, end_parallel-Bytes, block-Bytes,
}

mutual
  unfolding stmt_to_opcodes

  stmt-Bytes :
      (st : Stmt) (scope : ℕ) (g : Gen) → GenBytes g → Of GenBytes (stmt_to_opcodes st scope g)
  stmt-Bytes (Stmt.import ident) scope g h =
      op_constant-Bytes Opcode.import (Value.unicode ident) g.chunk tt h
  stmt-Bytes (Stmt.declare_class ident properties methods) scope g h =
      Of-bind MethodsBytes GenBytes (methods_to_opcodes methods) _ (methods-Bytes methods) (λ ms k.
        op_constant-Bytes Opcode.define_global (Value.unicode ident) _ tt (
          op_constant-Bytes Opcode.class (Value.class (spec_class ident properties ms)) g.chunk k
            h))
  stmt-Bytes (Stmt.assign ident e) scope g h =
      Of-bind GenBytes GenBytes (emit_expr e g) _ (emit_expr-Bytes e g h)
        (λ g₁ k. ident-Bytes Opcode.set_local Opcode.set_global ident g₁.locals g₁.chunk k)
  stmt-Bytes (Stmt.let_assign ident e) scope g h =
      Of-bind GenBytes GenBytes (emit_expr e g) _ (emit_expr-Bytes e g h)
        (λ g₁ k. bind_name-Bytes ident scope g₁ k)
  stmt-Bytes (Stmt.block b) scope g h =
      block-Bytes (suc scope) (stmts_to_opcodes b (suc scope) g) (stmts-Bytes b (suc scope) g h)
  stmt-Bytes (Stmt.for initializer condition increment consequent) scope g h =
      Of-bind GenBytes GenBytes (stmt_to_opcodes initializer (suc scope) g) _
        (stmt-Bytes initializer (suc scope) g h)
        (λ g₁ k.
          loop-Bytes condition _ g₁
            (λ h₁ k₁.
              Of-bind GenBytes GenBytes (stmts_to_opcodes consequent (suc scope) h₁) _
                (stmts-Bytes consequent (suc scope) h₁ k₁)
                (λ h₂ k₂. stmt-Bytes increment (suc scope) h₂ k₂))
            k)
  stmt-Bytes (Stmt.while condition consequent) scope g h =
      loop-Bytes condition _ g
        (λ h₁ k₁. block-Bytes (suc scope) _ (stmts-Bytes consequent (suc scope) h₁ k₁)) h
  stmt-Bytes (Stmt.if_then condition consequent) scope g h =
      if-Bytes condition _ ok g
        (λ h₁ k₁. block-Bytes (suc scope) _ (stmts-Bytes consequent (suc scope) h₁ k₁))
        (λ h₁ k₁. k₁) h
  stmt-Bytes (Stmt.if_else condition consequent alternative) scope g h =
      if-Bytes condition _ _ g
        (λ h₁ k₁. block-Bytes (suc scope) _ (stmts-Bytes consequent (suc scope) h₁ k₁))
        (λ h₁ k₁. block-Bytes (suc scope) _ (stmts-Bytes alternative (suc scope) h₁ k₁)) h
  stmt-Bytes (Stmt.expr e) scope g h =
      Of-bind GenBytes GenBytes (emit_expr e g) _ (emit_expr-Bytes e g h)
        (λ g₁ k. op-Bytes Opcode.pop g₁.chunk k)
  stmt-Bytes (Stmt.property _ _) scope g h = tt
  stmt-Bytes Stmt.return_unit scope g h = op-Bytes Opcode.return _ (op-Bytes Opcode.unit g.chunk h)
  stmt-Bytes (Stmt.return e) scope g h =
      Of-bind GenBytes GenBytes (emit_expr e g) _ (emit_expr-Bytes e g h)
        (λ g₁ k. op-Bytes Opcode.return g₁.chunk k)
  stmt-Bytes (Stmt.declare_func ident params body) scope g h =
      Of-bind FuncBytes GenBytes
        (compile_function (λ h₁. stmts_to_opcodes body (suc scope) h₁) (suc scope) params ident) _
        (compile_function-Bytes _ (suc scope) params ident
          (λ h₁ k₁. stmts-Bytes body (suc scope) h₁ k₁))
        (λ f k. op_constant-Bytes Opcode.define_global (Value.unicode ident) _ tt (
          op_constant-Bytes Opcode.constant (Value.function (to_spec f)) g.chunk (to_spec-Bytes f k)
            h))
  stmt-Bytes (Stmt.on location b) scope g h =
      Of-bind GenBytes GenBytes (emit_expr location g) _ (emit_expr-Bytes location g h) (λ g₁ k.
        Of-bind GenBytes GenBytes (stmts_to_opcodes b scope _) _
          (stmts-Bytes b scope _ (op-Bytes Opcode.loc_push g₁.chunk k))
          (λ g₂ k₂. op-Bytes Opcode.loc_pop _ (end_scope-Bytes scope g₂ k₂)))
  stmt-Bytes (Stmt.parallel let_assign blocks) scope g h =
      Of-bind Bytes GenBytes (branches_to_opcodes blocks scope g.chunk) _
        (branches-Bytes blocks scope g.chunk h)
        (λ c k.
          end_parallel-Bytes let_assign scope _ (op_byte-Bytes Opcode.parallel _ c (omega arith) k))

  stmts-Bytes :
      (ss : Stmts) (scope : ℕ) (g : Gen) → GenBytes g → Of GenBytes (stmts_to_opcodes ss scope g)
  stmts-Bytes Stmts.end scope g h = h
  stmts-Bytes (Stmts.stmt st ss) scope g h =
      Of-bind GenBytes GenBytes (stmt_to_opcodes st scope g) _ (stmt-Bytes st scope g h)
        (λ g₁ k. stmts-Bytes ss scope g₁ k)

  branches-Bytes :
      (bs : Stmts) (scope : ℕ) (c : ChunkMut) → Bytes c → Of Bytes (branches_to_opcodes bs scope c)
  branches-Bytes Stmts.end scope c h = h
  branches-Bytes (Stmts.stmt b bs) scope c h =
      Of-bind Bytes Bytes (branches_to_opcodes bs scope c) _ (branches-Bytes bs scope c h) (λ c₁ k.
        Of-bind FuncBytes Bytes (compile_function (λ h₁. stmt_to_opcodes b scope h₁) scope [] "") _
          (compile_function-Bytes _ scope [] "" (λ h₁ k₁. stmt-Bytes b scope h₁ k₁))
          (λ f q.
            op_constant-Bytes Opcode.constant (Value.function (to_spec f)) c₁ (to_spec-Bytes f q)
              k))

  methods-Bytes : (ms : Methods) → Of MethodsBytes (methods_to_opcodes ms)
  methods-Bytes Methods.no_methods = tt
  methods-Bytes (Methods.method k st ms) =
      Of-bind FunctionBytes MethodsBytes (method_to_opcodes st) _ (method-Bytes st) (λ f p.
        Of-bind MethodsBytes MethodsBytes (methods_to_opcodes ms) _ (methods-Bytes ms)
          (λ fs ps. (p, ps)))

  method-Bytes : (st : Stmt) → Of FunctionBytes (method_to_opcodes st)
  method-Bytes (Stmt.declare_func ident params body) =
      Of-bind FuncBytes FunctionBytes
        (compile_function (λ h. stmts_to_opcodes body 1 h) 1 params ident) _
        (compile_function-Bytes _ 1 params ident (λ h k. stmts-Bytes body 1 h k))
        (λ f k. to_spec-Bytes f k)
  method-Bytes _ = tt
