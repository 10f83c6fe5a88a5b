-- ===== src/Dsl/Bytes/Pieces.antt =====
-- The bytes of jumps, scopes, loops, branches and functions; jumps are two bytes of a `u16`.
use brane.Prelude.{
  ℕ, zero, suc, ◌+◌, ◌-◌, ◌%◌, ◌/◌, ◌<◌, Bool-cases, inl, inr, none, some, Option, String, List, [],
  ◌∷◌, ◌++◌, length, set, ltb, Outcome, ok, ◌>>=◌, arith,
}
use brane.Value.{Value}
use brane.Bytecode.Opcodes.{Opcode}
use brane.Bytecode.Chunk
use brane.Bytecode.Chunk.{ChunkMut, FunctionMut, write_bytes, write_pair, write, to_spec}
use brane.Dsl.Ast.{Ident, Expr}
use brane.Dsl.Generator.Writer.{
  Gen, op, placeholder, patch, jump_back, pop_code, end_scope, bind_name,
}
use brane.Dsl.Generator.Compile.{expr_to_opcodes}
use brane.Dsl.Generator.Statements.{
  emit_expr, compile_function, loop_to_opcodes, if_to_opcodes, end_parallel,
}
use brane.Dsl.Bytes.{
  FunctionBytes, AllBytes, AllBytes-append, Bytes, Of, Of-bind, op-Bytes, op_byte-Bytes,
  op_constant-Bytes, expr-Bytes,
}

abbrev pub GenBytes : Gen → Type 0
GenBytes g = Bytes g.chunk

AllBytes-set : (xs : List ℕ) (i b : ℕ) → b < 256 → AllBytes xs → AllBytes (set xs i b)
AllBytes-set [] i b h p = tt
AllBytes-set (x ∷ xs) zero b h (_, p) = (h, p)
AllBytes-set (x ∷ xs) (suc i) b h (q, p) = (q, AllBytes-set xs i b h p)

high-byte : (n : ℕ) → n % 65536 / 256 < 256
high-byte n = omega arith

low-byte : (n : ℕ) → n % 65536 % 256 < 256
low-byte n = omega arith

patch-Bytes : (plh_pos : ℕ) (c : ChunkMut) → Bytes c → Bytes (patch plh_pos c)
unfolding patch
patch-Bytes plh_pos c (h, k) =
    let d = length c.code - plh_pos - 2 in
    (
      AllBytes-set _ (plh_pos + 1) (d % 65536 % 256) (low-byte d)
          (AllBytes-set c.code plh_pos (d % 65536 / 256) (high-byte d) h),
      k,
    )

jump_back-Bytes : (loop_start : ℕ) (c : ChunkMut) → Bytes c → Bytes (jump_back loop_start c)
unfolding jump_back write_bytes
jump_back-Bytes loop_start c h =
    let d = length (op Opcode.jump_back c).code - loop_start + 2 in
    let (p, k) = op-Bytes Opcode.jump_back c h in
    (AllBytes-append (op Opcode.jump_back c).code _ p (high-byte d, (low-byte d, tt)), k)

placeholder-Bytes : (o : Opcode) (c : ChunkMut) → Bytes c → Bytes (placeholder o c)
unfolding write_pair write
placeholder-Bytes o c h =
    let (p, k) = op-Bytes o c h in
    (
      AllBytes-append ((op o c).code ++ 0 ∷ []) (0 ∷ [])
          (AllBytes-append (op o c).code (0 ∷ []) p (omega arith, tt)) (omega arith, tt),
      k,
    )

pop_code-Bytes : (n : ℕ) (c : ChunkMut) → n < 256 → Bytes c → Bytes (pop_code n c)
pop_code-Bytes zero c small h = h
pop_code-Bytes (suc zero) c small h = op-Bytes Opcode.pop c h
pop_code-Bytes (suc (suc n)) c small h = op_byte-Bytes Opcode.pop_n (suc (suc n)) c small h

pub end_scope-Bytes : (scope : ℕ) (g : Gen) → GenBytes g → GenBytes (end_scope scope g)
unfolding end_scope
end_scope-Bytes scope g h = pop_code-Bytes _ g.chunk (omega arith) h

pub bind_name-Bytes :
    (ident : String) (scope : ℕ) (g : Gen) → GenBytes g → GenBytes (bind_name ident scope g)
unfolding bind_name
bind_name-Bytes ident scope g h = elim (Bool-cases (ltb 0 scope)) [
  | inl inside ↦ rw (bind_name, inside) h
  | inr outside ↦
      rw (bind_name, outside)
        (op_constant-Bytes Opcode.define_global (Value.unicode ident) g.chunk tt h)
]

pub emit_expr-Bytes : (e : Expr) (g : Gen) → GenBytes g → Of GenBytes (emit_expr e g)
emit_expr-Bytes e g h =
    Of-bind Bytes GenBytes (expr_to_opcodes e g.locals g.chunk) _ (expr-Bytes e g.locals g.chunk h)
      (λ c k. k)

-- the code and the constants of a compiled function
abbrev pub FuncBytes : FunctionMut → Type 0
FuncBytes f = Bytes f.chunk

pub compile_function-Bytes :
    (body : Gen → Outcome ⊥ Gen) (scope : ℕ) (params : List Ident) (name : String)
    → ((g : Gen) → GenBytes g → Of GenBytes (body g))
    → Of FuncBytes (compile_function body scope params name)
unfolding compile_function Chunk.new Chunk.default
compile_function-Bytes body scope params name h =
    Of-bind GenBytes FuncBytes (body _) _ (h _ (tt, tt))
      (λ g k. op-Bytes Opcode.return _ (op-Bytes Opcode.unit g.chunk k))

pub to_spec-Bytes : (f : FunctionMut) → FuncBytes f → FunctionBytes (to_spec f)
unfolding to_spec
to_spec-Bytes f h = h

pub loop-Bytes :
    (condition : Expr) (body : Gen → Outcome ⊥ Gen) (g : Gen)
    → ((h : Gen) → GenBytes h → Of GenBytes (body h))
    → GenBytes g
    → Of GenBytes (loop_to_opcodes condition body g)
unfolding loop_to_opcodes
loop-Bytes condition body g b h =
    Of-bind GenBytes GenBytes (emit_expr condition g) _ (emit_expr-Bytes condition g h) (λ g₁ k.
      Of-bind GenBytes GenBytes (body _) _
        (b _ (op-Bytes Opcode.pop _ (placeholder-Bytes Opcode.jump_if_false g₁.chunk k)))
        (λ g₂ k₂.
          op-Bytes Opcode.pop _
            (patch-Bytes _ _ (jump_back-Bytes (length g.chunk.code) g₂.chunk k₂))))

pub if-Bytes :
    (condition : Expr) (consequent alternative : Gen → Outcome ⊥ Gen) (g : Gen)
    → ((h : Gen) → GenBytes h → Of GenBytes (consequent h))
    → ((h : Gen) → GenBytes h → Of GenBytes (alternative h))
    → GenBytes g
    → Of GenBytes (if_to_opcodes condition consequent alternative g)
unfolding if_to_opcodes
if-Bytes condition consequent alternative g b b' h =
    Of-bind GenBytes GenBytes (emit_expr condition g) _ (emit_expr-Bytes condition g h) (λ g₁ k.
      Of-bind GenBytes GenBytes (consequent _) _
        (b _ (op-Bytes Opcode.pop _ (placeholder-Bytes Opcode.jump_if_false g₁.chunk k)))
        (λ g₂ k₂.
          Of-bind GenBytes GenBytes (alternative _) _
            (b' _
              (op-Bytes Opcode.pop _ (patch-Bytes _ _ (placeholder-Bytes Opcode.jump g₂.chunk k₂))))
            (λ g₃ k₃. patch-Bytes _ g₃.chunk k₃)))

pub end_parallel-Bytes :
    (name : Option Ident) (scope : ℕ) (g : Gen) → GenBytes g → GenBytes (end_parallel name scope g)
end_parallel-Bytes none scope g h = op-Bytes Opcode.pop g.chunk h
end_parallel-Bytes (some ident) scope g h = bind_name-Bytes ident scope g h

-- a block in its own scope
pub block-Bytes :
    (scope : ℕ) (r : Outcome ⊥ Gen)
    → Of GenBytes r
    → Of GenBytes (r >>= λ h. ok (end_scope scope h))
block-Bytes scope r k = Of-bind GenBytes GenBytes r _ k (λ g p. end_scope-Bytes scope g p)
