-- ===== src/Dsl/Run/Session.antt =====
-- A script compiled by brane-dsl and run by `main` of brane-bvm/src/vm.rs, as a line of a REPL is.
use brane.Prelude.{
  ℕ, suc, ◌+◌, ◌≤◌, ◌≡◌, refl, sym, ap, subst, ◌∙◌, true, none, some, List, [], ◌∷◌, length,
  get_elem?, split_last, ok, ok_inj, arith,
}
use brane.Value.{count}
use brane.Bytecode.Opcodes.{Opcode}
use brane.Bytecode.Chunk
use brane.Bytecode.Chunk.{ChunkMut, FunctionMut, to_spec}
use brane.Vm.Slot.{Slot, F64}
use brane.Vm.Stack
use brane.Vm.Frames.{read_u8}
use brane.Vm.State.{Vm, Op, Globals, frame_u8}
use brane.Vm.Run.{run, step}
use brane.Vm.Calls.Main.{Outside, external, start, run_all, main, cleared}
use brane.Dsl.Ast.{Stmts}
use brane.Dsl.Generator.Statements.{stmts_to_opcodes, compile}
use brane.Dsl.Correct.Machine.{Frame, at}
use brane.Dsl.Correct.Steps.{Fits}
use brane.Dsl.Run.Globals.{with_globals, Leads}
use brane.Dsl.Run.Denotation.{Env, exec_all, exchanged_stmts}
use brane.Dsl.Run.Scripts.{Holds, stmts-Executes}
use brane.Dsl.Run.Start.{idle, start-Started}

get_elem?-end : {A : Type 0} (xs : List A) → get_elem? xs (length xs) ≡ none
get_elem?-end [] = refl
get_elem?-end (x ∷ xs) = get_elem?-end xs

-- Behind the code the loop ends.
run-end :
    (f64 : F64) (ext : Opcode → Op (Unit {0})) (m : Frame) (s : List Slot) (i n : ℕ)
    → i ≡ length m.code
    → run f64 ext (suc n) (at m i s) ≡ (ok true, at m i s)
unfolding run step frame_u8 read_u8
run-end f64 ext m s i n e =
    let p : get_elem? m.code i ≡ none = rw e (get_elem?-end m.code) in ground arith

compile-chunk :
    (ss : Stmts) (f : FunctionMut) (c : ChunkMut)
    → compile ss ≡ ok f
    → stmts_to_opcodes ss 0 (record { chunk = Chunk.default; locals = [] })
      ≡ ok (record { chunk = c; locals = [] })
    → f ≡ Chunk.main c
unfolding compile
compile-chunk ss f c e p = let q = rw p at e in sym (ok_inj q)

-- What is left of a machine at the end of a function that was called from a machine at rest.
cleared-end :
    (o : Outside) (m : Frame) (i : ℕ) (x : Slot)
    → m.callers ≡ []
    → m.vm.options.clear_after_main ≡ true
    → cleared o (ok true, at m i (x ∷ [])) ≡ (ok (some tt), idle m.vm)
unfolding Stack.pop split_last
cleared-end o m i x p q = rw (q, p) refl

main-started :
    (o : Outside) (n : ℕ) (f : FunctionMut) (vm vm₁ : Vm)
    → start o (to_spec f) (idle vm) ≡ (ok tt, vm₁)
    → main o n f (idle vm) ≡ cleared o (run_all o n vm₁)
unfolding main
main-started o n f vm vm₁ e = rw e refl

-- the loop that gets to the end of the code, and what `main` then does
ended :
    (o : Outside) (m : Frame) (g : Globals) (c : ChunkMut) (vm₁ : Vm) (x : Slot)
    → vm₁ ≡ at m 0 (x ∷ [])
    → m.code ≡ c.code
    → m.callers ≡ []
    → m.vm.options.clear_after_main ≡ true
    → (leads : Leads o.f64
        (external o)
        (at m 0 (x ∷ []))
        (at (with_globals m g) (length c.code) (x ∷ [])))
    → (n : ℕ)
    → cleared o (run_all o (leads.rounds + 1 + n) vm₁) ≡ (ok (some tt), idle (with_globals m g).vm)
unfolding run_all
ended o m g c vm₁ x is_at code callers clears leads n =
    let split : leads.rounds + 1 + n ≡ leads.rounds + suc n = omega arith in
    let end =
      run-end o.f64 (external o) (with_globals m g) (x ∷ []) (length c.code) n
        (ap length (sym code)) in
    let ran : run o.f64 (external o) (leads.rounds + 1 + n) vm₁
        ≡ (ok true, at (with_globals m g) (length c.code) (x ∷ [])) =
      rw (split, is_at) (leads.goes_on (suc n) ∙ end) in
    ap (cleared o) ran ∙ cleared-end o (with_globals m g) (length c.code) x callers clears

-- what `main` makes of a script, and how the globals stand then
abbrev pub Finishes : Outside → FunctionMut → Vm → Env → Type 0
Finishes o f vm env' =
    (k : ℕ) × (vm₂ : Vm) × ((n : ℕ) → main o (k + n) f (idle vm) ≡ (ok (some tt), idle vm₂))
    × Holds env' vm₂.globals

chunk-Finishes :
    (o : Outside) (ss : Stmts) (env env' : Env) (c : ChunkMut) (vm vm₁ : Vm)
    (runs : (m : Frame) (s : List Slot)
      → Fits m c
      → Holds env m.vm.globals
      → (g : Globals) × Holds env' g
        × Leads o.f64 (external o) (at m 0 s) (at (with_globals m g) (length c.code) s))
    → count c.constants ≤ 256
    → Holds env vm.globals
    → vm.options.clear_after_main ≡ true
    → start o (to_spec (Chunk.main c)) (idle vm) ≡ (ok tt, vm₁)
    → Finishes o (Chunk.main c) vm env'
unfolding to_spec Chunk.main
chunk-Finishes o ss env env' c vm vm₁ runs few holds clears begun =
    let st = start-Started o "main" c vm vm₁ begun in
    let (g, holds', leads) =
      runs st.frame (st.function_slot ∷ []) (st.loaded, few)
        (subst (λ h. Holds env h) (sym st.globals) holds) in
    (
      leads.rounds + 1,
      (with_globals st.frame g).vm,
      λ n.
          main-started o (leads.rounds + 1 + n) (Chunk.main c) vm vm₁ begun
          ∙ ended o st.frame g c vm₁ st.function_slot st.is_at st.code st.callers
              (ap (λ p. p.clear_after_main) st.options ∙ clears) leads n,
      holds',
    )

-- A script of `let`, assignments and expressions outside every scope, which denotes an environment
-- in the one that the globals show once `<` and `>` are exchanged in it, and `<=` and `>=`, and whose
-- code has at most 256 constants: where its start succeeds on a machine at rest that clears after
-- `main`, enough rounds of `main` end without an error, the globals then show that environment, and
-- the machine is at rest. The exchange is there because the machine compares the operands of these
-- four operators in the wrong order.
pub main-compile :
    (o : Outside) (ss : Stmts) (env env' : Env) (f : FunctionMut) (vm vm₁ : Vm)
    → exec_all env (exchanged_stmts ss) ≡ some env'
    → compile ss ≡ ok f
    → count f.chunk.constants ≤ 256
    → Holds env vm.globals
    → vm.options.clear_after_main ≡ true
    → start o (to_spec f) (idle vm) ≡ (ok tt, vm₁)
    → (k : ℕ) × (vm₂ : Vm) × ((n : ℕ) → main o (k + n) f (idle vm) ≡ (ok (some tt), idle vm₂))
      × Holds env' vm₂.globals
unfolding Chunk.main Chunk.default
main-compile o ss env env' f vm vm₁ h compiled few holds clears begun =
    let code = stmts-Executes o.f64 (external o) ss env env' Chunk.default h in
    let is : f ≡ Chunk.main code.chunk = compile-chunk ss f code.chunk compiled code.compiles in
    let few' = subst (λ g. count g.chunk.constants ≤ 256) is few in
    let begun' = subst (λ g. start o (to_spec g) (idle vm) ≡ (ok tt, vm₁)) is begun in
    subst (λ g. Finishes o g vm env') (sym is)
      (chunk-Finishes o ss env env' code.chunk vm vm₁ code.runs few' holds clears begun')
