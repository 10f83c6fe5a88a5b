-- ===== src/Dsl/Run/Branches.antt =====
-- What `anonymous` of brane-bvm/src/vm.rs makes of a compiled function that returns a value, as
-- the branches of a parallel statement do.
use brane.Prelude.{
  ℕ, suc, ◌+◌, ◌≤◌, ◌≡◌, refl, sym, ap, subst, ◌∙◌, true, none, some, Option, String, List, [], ◌∷◌,
  length, get_elem?, Outcome, ok, ok_inj,
}
use brane.Value.{Value, count, spec_function}
use brane.Bytecode.Opcodes.{Opcode, to_u8}
use brane.Bytecode.Chunk
use brane.Bytecode.Chunk.{ChunkMut, FunctionMut, to_spec}
use brane.Vm.Slot.{Slot, F64, to_list}
use brane.Vm.State.{Vm, Op}
use brane.Vm.Ops.Control.{op_return}
use brane.Vm.Ops.Returns.{returned-append}
use brane.Vm.Run.{dispatch, run, step}
use brane.Vm.Calls.Main.{Outside, external, start, run_all, anonymous}
use brane.Dsl.Ast.{Expr, Stmt}
use brane.Dsl.Generator.Writer.{Local, op}
use brane.Dsl.Generator.Compile.{expr_to_opcodes}
use brane.Dsl.Generator.Statements.{stmt_to_opcodes, compile_function}
use brane.Dsl.Correct.Semantics.{Datum, eval}
use brane.Dsl.Correct.Exchange.{exchanged}
use brane.Dsl.Correct.Kinds.{eval-exchanged}
use brane.Dsl.Correct.Chunks.{Extends, Extends-op, Extends-trans, fetch-op}
use brane.Dsl.Correct.Machine.{Frame, at, step-at}
use brane.Dsl.Correct.Steps.{Fits, Fits-Extends}
use brane.Dsl.Correct.Expressions.{exchanged-compiles, run-expr_to_opcodes}
use brane.Dsl.Run.Start.{idle, Started, start-Started}

-- the machine when `anonymous` starts
abbrev pub halting : Vm → Vm
halting vm = record vm { options = record vm.options { global_return_halts = true } }

-- the machine after the return of a function without a caller
abbrev returned_at : Frame → List Slot → Vm
returned_at m s = record m.vm { frames = []; stack = record { inner = s; use_const = true } }

op_return-only :
    (m : Frame) (a : ℕ) (f x : Slot)
    → m.stack_offset ≡ 1
    → m.callers ≡ []
    → m.vm.options.global_return_halts ≡ true
    → op_return (at m a (f ∷ x ∷ [])) ≡ (ok tt, returned_at m (f ∷ x ∷ []))
unfolding op_return
op_return-only m a f x o c g = rw (c, g, o, returned-append (f ∷ []) [] x true) refl

-- A return from the only frame ends the loop, with the function still below the value.
run-return :
    (f64 : F64) (ext : Opcode → Op (Unit {0})) (m : Frame) (a n : ℕ) (f x : Slot)
    → get_elem? m.code a ≡ some (to_u8 Opcode.return)
    → m.stack_offset ≡ 1
    → m.callers ≡ []
    → m.vm.options.global_return_halts ≡ true
    → run f64 ext (suc n) (at m a (f ∷ x ∷ [])) ≡ (ok true, returned_at m (f ∷ x ∷ []))
unfolding run dispatch
run-return f64 ext m a n f x h o c g =
    let e = step-at f64 ext m Opcode.return a (f ∷ x ∷ []) h in
    let r = op_return-only m (suc a) f x o c g in
    let p : step f64 ext (at m a (f ∷ x ∷ [])) ≡ (ok true, returned_at m (f ∷ x ∷ [])) =
      e ∙ rw (r, g) refl in
    rw (run, p, p) refl

abbrev pub no_names : String → Option Datum
no_names _ = none

-- the function that is compiled for a branch, and its first local, which is itself
abbrev pub branch_of : Expr → ℕ → Outcome ⊥ FunctionMut
branch_of e scope = compile_function (λ h. stmt_to_opcodes (Stmt.return e) scope h) scope [] ""

abbrev itself : ℕ → List Local
itself scope = record { name = "func"; depth = scope } ∷ []

-- the chunk of the branch, once its expression is compiled
abbrev ending : ChunkMut → ChunkMut
ending c = op Opcode.return (op Opcode.unit (op Opcode.return c))

branch-chunk :
    (e : Expr) (scope : ℕ) (f : FunctionMut) (c : ChunkMut)
    → branch_of e scope ≡ ok f
    → expr_to_opcodes e (itself scope) Chunk.default ≡ ok c
    → f ≡ Chunk.new "" 0 (ending c)
unfolding compile_function stmt_to_opcodes
branch-chunk e scope f c h p = let q = rw p at h in sym (ok_inj q)

Extends-ending : (c : ChunkMut) → Extends (op Opcode.return c) (ending c)
Extends-ending c =
    Extends-trans (Extends-op Opcode.unit (op Opcode.return c))
      (Extends-op Opcode.return (op Opcode.unit (op Opcode.return c)))

-- the loop that gets to the return, and the return
returns :
    (o : Outside) (e : Expr) (scope : ℕ) (c : ChunkMut) (d : Datum) (vm vm₁ : Vm)
    → eval no_names (exchanged e) ≡ some d
    → expr_to_opcodes e (itself scope) Chunk.default ≡ ok c
    → count c.constants ≤ 256
    → (st : Started (ending c) (halting vm) vm₁)
    → (k : ℕ) × (x : Slot) × ((n : ℕ)
        → run_all o (k + suc n) vm₁ ≡ (ok true, returned_at st.frame (st.function_slot ∷ x ∷ [])))
unfolding run_all Chunk.default Chunk.write
returns o e scope c d vm vm₁ h compiles few st =
    let fits : Fits st.frame (op Opcode.return c) =
      Fits-Extends st.frame (Extends-ending c) (st.loaded, few) in
    let (x, shows, k, goes_on) =
      run-expr_to_opcodes o.f64 (external o) no_names e (itself scope) Chunk.default c d st.frame
        (st.function_slot ∷ []) h compiles (Fits-Extends st.frame (Extends-op Opcode.return c) fits)
        (λ name d' p. cc) in
    (
      k,
      x,
      λ n.
          ap (run o.f64 (external o) (k + suc n)) st.is_at
          ∙ goes_on (suc n)
          ∙ run-return o.f64 (external o) st.frame (length c.code) n st.function_slot x
              (fetch-op st.frame.code (to_list st.frame.constants) Opcode.return c fits.0) st.offset
              st.callers (ap (λ p. p.global_return_halts) st.options),
    )

anonymous-run :
    (o : Outside) (n : ℕ) (c : ChunkMut) (vm vm₁ : Vm) (m : Frame) (f x : Slot)
    → start o (spec_function 0 "" c.code c.constants) (halting (idle vm)) ≡ (ok tt, vm₁)
    → run_all o n vm₁ ≡ (ok true, returned_at m (f ∷ x ∷ []))
    → anonymous o n (spec_function 0 "" c.code c.constants) (idle vm)
      ≡ (ok (some Value.unit), returned_at m (f ∷ x ∷ []))
unfolding anonymous
anonymous-run o n c vm vm₁ m f x begun ran = rw (begun, ran) refl

-- what `anonymous` answers
abbrev AnswersUnit : Outside → FunctionMut → Vm → Type 0
AnswersUnit o f vm =
    (k : ℕ) × (vm₂ : Vm) × ((n : ℕ)
      → anonymous o (k + suc n) (to_spec f) (idle vm) ≡ (ok (some Value.unit), vm₂))

chunk-AnswersUnit :
    (o : Outside) (e : Expr) (scope : ℕ) (c : ChunkMut) (d : Datum) (vm vm₁ : Vm)
    → eval no_names (exchanged e) ≡ some d
    → expr_to_opcodes e (itself scope) Chunk.default ≡ ok c
    → count c.constants ≤ 256
    → start o (to_spec (Chunk.new "" 0 (ending c))) (halting (idle vm)) ≡ (ok tt, vm₁)
    → AnswersUnit o (Chunk.new "" 0 (ending c)) vm
unfolding to_spec Chunk.new
chunk-AnswersUnit o e scope c d vm vm₁ h compiles few begun =
    let st = start-Started o "" (ending c) (halting vm) vm₁ begun in
    let (k, x, ran) = returns o e scope c d vm vm₁ h compiles few st in
    (
      k,
      returned_at st.frame (st.function_slot ∷ x ∷ []),
      λ n. anonymous-run o (k + suc n) (ending c) vm vm₁ st.frame st.function_slot x begun (ran n),
    )

-- A branch that returns an expression without names that denotes a datum, with at most 256
-- constants: where its start succeeds on a machine at rest, enough rounds of `anonymous` answer
-- unit, whatever the datum.
pub anonymous-return :
    (o : Outside) (e : Expr) (scope : ℕ) (f : FunctionMut) (d : Datum) (vm vm₁ : Vm)
    → eval no_names e ≡ some d
    → branch_of e scope ≡ ok f
    → count f.chunk.constants ≤ 256
    → start o (to_spec f) (halting (idle vm)) ≡ (ok tt, vm₁)
    → (k : ℕ) × (vm₂ : Vm) × ((n : ℕ)
        → anonymous o (k + suc n) (to_spec f) (idle vm) ≡ (ok (some Value.unit), vm₂))
unfolding Chunk.write Chunk.new
anonymous-return o e scope f d vm vm₁ h compiled few begun =
    let (d₂, h₂) = eval-exchanged no_names e d h in
    let (c, compiles, _) =
      exchanged-compiles o.f64 (external o) no_names e (itself scope) Chunk.default d₂ h₂ in
    let is = branch-chunk e scope f c compiled compiles in
    let few' = subst (λ g. count g.chunk.constants ≤ 256) is few in
    let begun' = subst (λ g. start o (to_spec g) (halting (idle vm)) ≡ (ok tt, vm₁)) is begun in
    subst (λ g. AnswersUnit o g vm) (sym is)
      (chunk-AnswersUnit o e scope c d₂ vm vm₁ h₂ compiles few' begun')
