-- ===== src/Dsl/Bytes.antt =====
-- The numbers that the compiler writes to a chunk are bytes.
pub mod Pieces
pub mod Statements
use brane.Prelude.{
  ℕ, zero, suc, ◌+◌, ◌-◌, ◌%◌, ◌/◌, ◌<◌, Bool, true, false, Option-cases, inl, inr, none, some,
  String, List, [], ◌∷◌, ◌++◌, length, set, Outcome, ok, err, panic, ◌>>=◌, arith,
}
use brane.Value.{
  Value, Values, SpecClass, spec_class, Methods, no_methods, method, SpecFunction, spec_function,
  push,
}
use brane.Value
use brane.Bytecode.Opcodes.{Opcode, to_u8}
use brane.Bytecode.Chunk
use brane.Bytecode.Chunk.{ChunkMut, write, write_pair, write_bytes, add_constant}
use brane.Dsl.Ast
use brane.Dsl.Ast.{Ident, Lit, BinOp, UnOp, Expr, Exprs, Stmt, Stmts}
use brane.Dsl.Generator.Writer.{Local, op, op_byte, op_constant, position, ident_to_opcodes}
use brane.Dsl.Generator.Compile.{
  literal_to_opcodes, operator_to_opcodes, unary_to_opcodes, expr_to_opcodes, exprs_to_opcodes,
  skip_first, reversed_to_opcodes, properties_to_opcodes, property_to_opcodes,
}

abbrev pub AllBytes : List ℕ → Type 0
AllBytes [] = Unit
AllBytes (b ∷ bs) = (b < 256) × AllBytes bs

-- the same of the functions among constants, and of their constants
abbrev mutual
  pub ValueBytes : Value → Type 0
  ValueBytes (Value.function f) = FunctionBytes f
  ValueBytes (Value.class (spec_class _ _ ms)) = MethodsBytes ms
  ValueBytes _ = Unit

  pub ValuesBytes : Values → Type 0
  ValuesBytes Values.nil = Unit
  ValuesBytes (Values.cons v vs) = ValueBytes v × ValuesBytes vs

  pub MethodsBytes : Methods → Type 0
  MethodsBytes no_methods = Unit
  MethodsBytes (method _ f ms) = FunctionBytes f × MethodsBytes ms

  pub FunctionBytes : SpecFunction → Type 0
  FunctionBytes (spec_function _ _ code constants) = AllBytes code × ValuesBytes constants

abbrev pub Bytes : ChunkMut → Type 0
Bytes c = AllBytes c.code × ValuesBytes c.constants

ValuesBytes-push :
    (vs : Values) (v : Value) → ValuesBytes vs → ValueBytes v → ValuesBytes (push vs v)
ValuesBytes-push Values.nil v p q = (q, tt)
ValuesBytes-push (Values.cons w vs) v (h, p) q = (h, ValuesBytes-push vs v p q)

pub AllBytes-append : (xs ys : List ℕ) → AllBytes xs → AllBytes ys → AllBytes (xs ++ ys)
AllBytes-append [] ys p q = q
AllBytes-append (x ∷ xs) ys (h, p) q = (h, AllBytes-append xs ys p q)

-- what holds of a result, if there is one
abbrev pub Of {ℓ} : {A : Type 0} → (A → Type ℓ) → Outcome ⊥ A → Type ℓ
Of P (ok a) = P a
Of P (err e) = Unit
Of P panic = Unit

pub Of-bind :
    {A B : Type 0} (P : A → Type 0) (Q : B → Type 0) (r : Outcome ⊥ A) (f : A → Outcome ⊥ B)
    → Of P r
    → ((a : A) → P a → Of Q (f a))
    → Of Q (r >>= f)
Of-bind P Q (ok a) f p q = q a p
Of-bind P Q panic f p q = tt
Of-bind P Q (err e) f p q = tt

to_u8-bound : (o : Opcode) → to_u8 o < 256
to_u8-bound o = ground arith

pub op-Bytes : (o : Opcode) (c : ChunkMut) → Bytes c → Bytes (op o c)
unfolding write
op-Bytes o c (h, k) = (AllBytes-append c.code (to_u8 o ∷ []) h (to_u8-bound o, tt), k)

pub op_byte-Bytes : (o : Opcode) (b : ℕ) (c : ChunkMut) → b < 256 → Bytes c → Bytes (op_byte o b c)
unfolding write_pair write
op_byte-Bytes o b c small h =
    let (p, k) = op-Bytes o c h in
    (AllBytes-append (c.code ++ to_u8 o ∷ []) (b ∷ []) p (small, tt), k)

pub op_constant-Bytes :
    (o : Opcode) (v : Value) (c : ChunkMut) → ValueBytes v → Bytes c → Bytes (op_constant o v c)
unfolding op_constant add_constant
op_constant-Bytes o v c q (h, k) =
    op_byte-Bytes o _ (record c { constants = push c.constants v }) (omega arith)
      (h, ValuesBytes-push c.constants v k q)

pub ident-Bytes :
    (o p : Opcode) (i : String) (locals : List Local) (c : ChunkMut)
    → Bytes c
    → Bytes (ident_to_opcodes o p i locals c)
unfolding ident_to_opcodes
ident-Bytes o p i locals c h = elim (Option-cases (position i locals)) [
  | inl global ↦ rw (ident_to_opcodes, global) (op_constant-Bytes p (Value.unicode i) c tt h)
  | inr (index, local) ↦
      rw (ident_to_opcodes, local) (op_byte-Bytes o (index % 256) c (omega arith) h)
]

literal-Bytes : (l : Lit) (c : ChunkMut) → Bytes c → Bytes (literal_to_opcodes l c)
unfolding literal_to_opcodes
literal-Bytes (Lit.boolean true) c h = op-Bytes Opcode.true' c h
literal-Bytes (Lit.boolean false) c h = op-Bytes Opcode.false' c h
literal-Bytes (Lit.integer i) c h = op_constant-Bytes Opcode.constant (Value.integer i) c tt h
literal-Bytes (Lit.real r) c h = op_constant-Bytes Opcode.constant (Value.real r) c tt h
literal-Bytes (Lit.string s) c h = op_constant-Bytes Opcode.constant (Value.unicode s) c tt h
literal-Bytes Lit.unit c h = op-Bytes Opcode.unit c h

operator-Bytes : (o : BinOp) (c : ChunkMut) → Bytes c → Of Bytes (operator_to_opcodes o c)
unfolding operator_to_opcodes
operator-Bytes BinOp.add c h = op-Bytes Opcode.add c h
operator-Bytes BinOp.sub c h = op-Bytes Opcode.substract c h
operator-Bytes BinOp.mul c h = op-Bytes Opcode.multiply c h
operator-Bytes BinOp.div c h = op-Bytes Opcode.divide c h
operator-Bytes BinOp.eq c h = op-Bytes Opcode.equal c h
operator-Bytes BinOp.lt c h = op-Bytes Opcode.less c h
operator-Bytes BinOp.gt c h = op-Bytes Opcode.greater c h
operator-Bytes BinOp.le c h = op-Bytes Opcode.not' _ (op-Bytes Opcode.greater c h)
operator-Bytes BinOp.ge c h = op-Bytes Opcode.not' _ (op-Bytes Opcode.less c h)
operator-Bytes BinOp.ne c h = op-Bytes Opcode.not' _ (op-Bytes Opcode.equal c h)
operator-Bytes BinOp.and c h = op-Bytes Opcode.and c h
operator-Bytes BinOp.or c h = op-Bytes Opcode.or c h
operator-Bytes BinOp.dot c h = tt

unary-Bytes : (o : UnOp) (c : ChunkMut) → Bytes c → Of Bytes (unary_to_opcodes o c)
unfolding unary_to_opcodes
unary-Bytes UnOp.neg c h = op-Bytes Opcode.negate c h
unary-Bytes UnOp.not' c h = op-Bytes Opcode.not' c h
unary-Bytes _ c h = tt

mutual
  unfolding expr_to_opcodes

  -- Compiling an expression into a chunk of bytes gives a chunk of bytes, if it gives one.
  pub expr-Bytes :
      (e : Expr) (locals : List Local) (c : ChunkMut)
      → Bytes c
      → Of Bytes (expr_to_opcodes e locals c)
  expr-Bytes (Expr.binary BinOp.dot lhs (Expr.ident ident)) locals c h =
      Of-bind Bytes Bytes (expr_to_opcodes lhs locals c) _ (expr-Bytes lhs locals c h)
        (λ c₁ k. op_constant-Bytes Opcode.get_property (Value.unicode ident) c₁ tt k)
  expr-Bytes (Expr.binary BinOp.dot lhs (Expr.call ident arguments)) locals c h =
      Of-bind Bytes Bytes (expr_to_opcodes lhs locals c) _ (expr-Bytes lhs locals c h) (λ c₁ k.
        Of-bind Bytes Bytes (skip_first arguments locals _) _
          (skip-Bytes arguments locals _
            (op_constant-Bytes Opcode.get_method (Value.unicode ident) c₁ tt k))
          (λ c₂ k₂. op_byte-Bytes Opcode.call _ c₂ (omega arith) k₂))
  expr-Bytes (Expr.binary operator lhs rhs) locals c h =
      Of-bind Bytes Bytes (expr_to_opcodes lhs locals c) _ (expr-Bytes lhs locals c h) (λ c₁ k.
        Of-bind Bytes Bytes (expr_to_opcodes rhs locals c₁) _ (expr-Bytes rhs locals c₁ k)
          (λ c₂ k₂. operator-Bytes operator c₂ k₂))
  expr-Bytes (Expr.unary operator operand) locals c h =
      Of-bind Bytes Bytes (expr_to_opcodes operand locals c) _ (expr-Bytes operand locals c h)
        (λ c₁ k. unary-Bytes operator c₁ k)
  expr-Bytes (Expr.literal l) locals c h = literal-Bytes l c h
  expr-Bytes (Expr.ident i) locals c h = ident-Bytes Opcode.get_local Opcode.get_global i locals c h
  expr-Bytes (Expr.call f arguments) locals c h =
      Of-bind Bytes Bytes (exprs_to_opcodes arguments locals _) _
        (exprs-Bytes arguments locals _
          (ident-Bytes Opcode.get_local Opcode.get_global f locals c h))
        (λ c₁ k. op_byte-Bytes Opcode.call _ c₁ (omega arith) k)
  expr-Bytes (Expr.instance' class properties) locals c h =
      Of-bind Bytes Bytes (properties_to_opcodes properties locals c) _
        (properties-Bytes properties locals c h)
        (λ c₁ k.
          op_byte-Bytes Opcode.new _ _ (omega arith)
            (ident-Bytes Opcode.get_local Opcode.get_global class locals c₁ k))
  expr-Bytes (Expr.array entries) locals c h =
      Of-bind Bytes Bytes (reversed_to_opcodes entries locals c) _
        (reversed-Bytes entries locals c h)
        (λ c₁ k. op_byte-Bytes Opcode.array _ c₁ (omega arith) k)
  expr-Bytes (Expr.index target at_index) locals c h =
      Of-bind Bytes Bytes (expr_to_opcodes target locals c) _ (expr-Bytes target locals c h)
        (λ c₁ k.
          Of-bind Bytes Bytes (expr_to_opcodes at_index locals c₁) _
            (expr-Bytes at_index locals c₁ k) (λ c₂ k₂. op-Bytes Opcode.index c₂ k₂))
  expr-Bytes (Expr.pattern' _) locals c h = tt

  exprs-Bytes :
      (es : Exprs) (locals : List Local) (c : ChunkMut)
      → Bytes c
      → Of Bytes (exprs_to_opcodes es locals c)
  exprs-Bytes Exprs.nil locals c h = h
  exprs-Bytes (Exprs.cons e es) locals c h =
      Of-bind Bytes Bytes (expr_to_opcodes e locals c) _ (expr-Bytes e locals c h)
        (λ c₁ k. exprs-Bytes es locals c₁ k)

  skip-Bytes :
      (es : Exprs) (locals : List Local) (c : ChunkMut)
      → Bytes c
      → Of Bytes (skip_first es locals c)
  skip-Bytes Exprs.nil locals c h = h
  skip-Bytes (Exprs.cons _ es) locals c h = exprs-Bytes es locals c h

  reversed-Bytes :
      (es : Exprs) (locals : List Local) (c : ChunkMut)
      → Bytes c
      → Of Bytes (reversed_to_opcodes es locals c)
  reversed-Bytes Exprs.nil locals c h = h
  reversed-Bytes (Exprs.cons e es) locals c h =
      Of-bind Bytes Bytes (reversed_to_opcodes es locals c) _ (reversed-Bytes es locals c h)
        (λ c₁ k. expr-Bytes e locals c₁ k)

  properties-Bytes :
      (ps : Stmts) (locals : List Local) (c : ChunkMut)
      → Bytes c
      → Of Bytes (properties_to_opcodes ps locals c)
  properties-Bytes Stmts.end locals c h = h
  properties-Bytes (Stmts.stmt p ps) locals c h =
      Of-bind Bytes Bytes (property_to_opcodes p locals c) _ (property-Bytes p locals c h)
        (λ c₁ k. properties-Bytes ps locals c₁ k)

  property-Bytes :
      (p : Stmt) (locals : List Local) (c : ChunkMut)
      → Bytes c
      → Of Bytes (property_to_opcodes p locals c)
  property-Bytes (Stmt.assign name value) locals c h =
      Of-bind Bytes Bytes (expr_to_opcodes value locals c) _ (expr-Bytes value locals c h)
        (λ c₁ k. literal-Bytes (Lit.string name) c₁ k)
  property-Bytes _ locals c h = tt
