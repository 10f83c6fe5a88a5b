-- ===== src/Dsl/Correct/Expressions.antt =====
-- The code of an expression, and the expression with its comparisons exchanged.
use brane.Prelude.{
  ℕ, ◌+◌, ◌≡◌, ◌≢◌, refl, ◌∙◌, sym, subst, Option, none, some, String, List, [], ◌∷◌, ◌++◌, length,
  ok_inj, ok, ◌>>=◌,
}
use brane.Prelude.Options.{bind-some}
use brane.Bytecode.Opcodes.{Opcode}
use brane.Bytecode.Chunk.{ChunkMut}
use brane.Vm.Slot.{Slot, F64}
use brane.Vm.State.{Op}
use brane.Vm.Run.{run}
use brane.Dsl.Ast.{BinOp, Expr}
use brane.Dsl.Generator.Writer.{Local}
use brane.Dsl.Generator.Compile.{expr_to_opcodes, operator_to_opcodes}
use brane.Dsl.Correct.Semantics.{Datum, eval, eval_binary, eval_unary}
use brane.Dsl.Correct.Exchange.{exchange, exchanged, exchanged-unordered, IsUnordered}
use brane.Dsl.Correct.Kinds.{eval-exchanged}
use brane.Dsl.Correct.Chunks.{Extends}
use brane.Dsl.Correct.Machine.{Frame, at}
use brane.Dsl.Correct.Operators.{Shows}
use brane.Dsl.Correct.Steps.{Fits, Steps, dot-none}
use brane.Dsl.Correct.Variables.{Agrees}
use brane.Dsl.Correct.Operands.{
  Compiled, literal-Compiled, ident-Compiled, unary-Compiled, binary-Compiled,
}

-- Every operator but the dot compiles its operands and then itself.
expr_to_opcodes-binary :
    (o : BinOp) (a b d : Datum) (l r : Expr) (locals : List Local) (c : ChunkMut)
    → eval_binary (exchange o) a b ≡ some d
    → expr_to_opcodes (Expr.binary o l r) locals c ≡ (
        expr_to_opcodes l locals c >>= λ c₁.
        expr_to_opcodes r locals c₁ >>= λ c₂. operator_to_opcodes o c₂)
unfolding expr_to_opcodes exchange
expr_to_opcodes-binary BinOp.dot a b d l r locals c e = absurd (dot-none a b d e)
expr_to_opcodes-binary _ a b d l r locals c e = refl

none≢some : (d : Datum) → none ≢ some d
none≢some d e = cc

module _ (f64 : F64) (external : Opcode → Op (Unit {0})) (env : String → Option Datum) where
  eval-binary :
      (o : BinOp) (l r : Expr) (d : Datum)
      → eval env (Expr.binary o l r) ≡ some d
      → (a : Datum) × (eval env l ≡ some a)
        × (b : Datum) × (eval env r ≡ some b)
        × (eval_binary o a b ≡ some d)
  unfolding eval
  eval-binary o l r d h =
      let (a, p, h') = bind-some (eval env l) _ d h in
      let (b, q, e) = bind-some (eval env r) _ d h' in (a, p, b, q, e)

  Expr-Compiled :
      (e : Expr) (locals : List Local) (c : ChunkMut) (d : Datum)
      → eval env (exchanged e) ≡ some d
      → Compiled f64 external env (expr_to_opcodes e locals c) locals c d
  unfolding eval exchanged expr_to_opcodes
  Expr-Compiled (Expr.literal l) locals c d h = literal-Compiled f64 external env l locals c d h
  Expr-Compiled (Expr.ident i) locals c d h = ident-Compiled f64 external env i locals c d h
  Expr-Compiled (Expr.unary o e) locals c d h =
      let (a, p, q) = bind-some (eval env (exchanged e)) (eval_unary o) d h in
      unary-Compiled f64 external env o a d (expr_to_opcodes e locals c) locals c
        (Expr-Compiled e locals c a p) q
  Expr-Compiled (Expr.binary o l r) locals c d h =
      let (a, p, b, q, e) = eval-binary (exchange o) (exchanged l) (exchanged r) d h in
      let left = Expr-Compiled l locals c a p in
      rw (expr_to_opcodes-binary o a b d l r locals c e) (
        binary-Compiled f64 external env o a b d (expr_to_opcodes l locals c)
          (λ c₁. expr_to_opcodes r locals c₁) locals c left (Expr-Compiled r locals left.chunk b q)
          e)
  Expr-Compiled _ locals c d h = absurd (none≢some d h)

  -- An expression that denotes a datum with its comparisons exchanged is compiled.
  pub exchanged-compiles :
      (e : Expr) (locals : List Local) (c : ChunkMut) (d : Datum)
      → eval env (exchanged e) ≡ some d
      → (c' : ChunkMut) × (expr_to_opcodes e locals c ≡ ok c') × Extends c c'
  exchanged-compiles e locals c d h =
      let compiled = Expr-Compiled e locals c d h in
      (compiled.chunk, compiled.compiles, compiled.extends)

  -- An expression that denotes a datum is compiled without a panic, and the chunk keeps every byte
  -- and every constant that it had, each in its place.
  pub eval-compiles :
      (e : Expr) (locals : List Local) (c : ChunkMut) (d : Datum)
      → eval env e ≡ some d
      → (c' : ChunkMut) × (expr_to_opcodes e locals c ≡ ok c') × Extends c c'
  eval-compiles e locals c d h =
      let (d', h') = eval-exchanged env e d h in exchanged-compiles e locals c d' h'

  run-same :
      (m : Frame) (s : List Slot) (c chunk c' : ChunkMut) (d : Datum)
      → c' ≡ chunk
      → (x : Slot) × Shows x d × Steps f64 external m c s chunk (s ++ x ∷ [])
      → (x : Slot) × Shows x d
        × (k : ℕ) × ((n : ℕ)
            → run f64 external (k + n) (at m (length c.code) s)
              ≡ run f64 external n (at m (length c'.code) (s ++ x ∷ [])))
  run-same m s c chunk c' d e (x, shows, runs) = (x, shows, runs.rounds, rw e runs.goes_on)

  -- The code of an expression, run in a function whose code and constants begin with those of the
  -- chunk, of which there are at most 256, on a machine that keeps what the environment names: where
  -- the expression denotes a datum once `<` and `>` are exchanged in it, and `<=` and `>=`, the loop
  -- gets from the start of that code to its end without an error, and leaves the stack as it was
  -- with one more slot on top, which shows that datum. The exchange is there because the machine
  -- compares the operands of these four operators in the wrong order.
  pub run-expr_to_opcodes :
      (e : Expr) (locals : List Local) (c c' : ChunkMut) (d : Datum) (m : Frame) (s : List Slot)
      → eval env (exchanged e) ≡ some d
      → expr_to_opcodes e locals c ≡ ok c'
      → Fits m c'
      → Agrees env locals m s
      → (x : Slot) × Shows x d
        × (k : ℕ) × ((n : ℕ)
            → run f64 external (k + n) (at m (length c.code) s)
              ≡ run f64 external n (at m (length c'.code) (s ++ x ∷ [])))
  run-expr_to_opcodes e locals c c' d m s h compiles fits agrees =
      let compiled = Expr-Compiled e locals c d h in
      let same : c' ≡ compiled.chunk = ok_inj (sym compiles ∙ compiled.compiles) in
      run-same m s c compiled.chunk c' d same (compiled.steps m s (rw same at fits) agrees)

  -- The code of an expression in which none of `<`, `>`, `<=` and `>=` is an operator, and which
  -- denotes a datum, run in a function whose code and constants begin with those of the chunk, of
  -- which there are at most 256, on a machine that keeps what the environment names: the loop gets
  -- from the start of that code to its end without an error, and leaves the stack as it was with one
  -- more slot on top, which shows the datum.
  pub run-unordered :
      (e : Expr) (locals : List Local) (c c' : ChunkMut) (d : Datum) (m : Frame) (s : List Slot)
      → IsUnordered e
      → eval env e ≡ some d
      → expr_to_opcodes e locals c ≡ ok c'
      → Fits m c'
      → Agrees env locals m s
      → (x : Slot) × Shows x d
        × (k : ℕ) × ((n : ℕ)
            → run f64 external (k + n) (at m (length c.code) s)
              ≡ run f64 external n (at m (length c'.code) (s ++ x ∷ [])))
  run-unordered e locals c c' d m s plain h =
      run-expr_to_opcodes e locals c c' d m s
        (subst (λ w. eval env w ≡ some d) (sym (exchanged-unordered e plain)) h)
