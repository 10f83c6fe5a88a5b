-- ===== src/Dsl/Run/Scripts.antt =====
-- The code that is compiled for a script without blocks: `let`, assignments and expressions outside
-- every scope, where each name is a global.
use brane.Prelude.{
  suc, ◌≡◌, refl, ap, subst, ◌∙◌, Bool, true, false, ◌||◌, Bool-cases, inl, inr, some, some_inj,
  String, str_eq, List, [], ◌∷◌, ◌++◌, length, Outcome, ok,
}
use brane.Prelude.Options.{bind-some}
use brane.Value.{Value}
use brane.Bytecode.Opcodes.{Opcode}
use brane.Bytecode.Chunk.{ChunkMut}
use brane.Vm.Slot.{Slot, F64, to_list}
use brane.Vm.Stack.{plain}
use brane.Vm.State.{Vm, Op, Globals, find, put}
use brane.Vm.Globals.{find-put}
use brane.Vm.Ops.Variables.{op_set_global, op_define_global, contains}
use brane.Vm.Run.{dispatch, halts}
use brane.Dsl.Ast.{Expr, Stmt, Stmts}
use brane.Dsl.Generator.Writer.{Gen, position, op, op_constant, bind_name, ident_to_opcodes}
use brane.Dsl.Generator.Compile.{expr_to_opcodes}
use brane.Dsl.Generator.Statements.{stmt_to_opcodes, stmts_to_opcodes}
use brane.Dsl.Correct.Semantics.{Datum, eval}
use brane.Dsl.Correct.Exchange.{exchanged}
use brane.Dsl.Correct.Chunks.{
  Extends, Extends-refl, Extends-op, Extends-op_constant, Extends-trans, fetch-op,
  fetch-op_constant, length-op, length-op_constant,
}
use brane.Dsl.Correct.Machine.{Frame, at}
use brane.Dsl.Correct.Operators.{Shows}
use brane.Dsl.Correct.Steps.{Fits, Fits-Extends}
use brane.Dsl.Correct.Variables.{Agrees}
use brane.Dsl.Correct.Expressions.{exchanged-compiles, run-expr_to_opcodes}
use brane.Dsl.Run.Denotation.{Env, bind, exec, exec_all, exchanged_stmt, exchanged_stmts}
use brane.Dsl.Run.Globals.{
  with_globals, Shows-plain, set_global-at, pop-at, Leads, Leads-refl, Leads-trans, Leads-step,
}

-- the globals show what the names stand for
abbrev pub Holds : Env → Globals → Type 0
Holds env g =
    (name : String) (d : Datum)
    → env name ≡ some d
    → (x : Slot) × (find name g ≡ some x) × Shows x d

Holds-Agrees : (env : Env) (m : Frame) (s : List Slot) → Holds env m.vm.globals → Agrees env [] m s
unfolding position
Holds-Agrees env m s h name d e = h name d e

Holds-bind :
    (env : Env) (g : Globals) (k : String) (d : Datum) (x : Slot)
    → Holds env g
    → Shows x d
    → Holds (bind k d env) (put k (plain x) g)
Holds-bind env g k d x h shows name e p = elim (Bool-cases (str_eq k name)) [
  | inl same ↦
      let q : some d ≡ some e = rw same at p in
      let found : find name (put k (plain x) g) ≡ some (plain x) =
        find-put k name (plain x) g ∙ rw same refl in
      (plain x, found, rw (some_inj q) at (Shows-plain x d shows))
  | inr other ↦
      let q : env name ≡ some e = rw other at p in
      let (y, there, shows') = h name e q in
      let found : find name (put k (plain x) g) ≡ some y =
        find-put k name (plain x) g ∙ rw other there in
      (y, found, shows')
]

module _ (f64 : F64) (external : Opcode → Op (Unit {0})) where
  -- the instruction that makes a global of the value on top
  named-Leads :
      (o : Opcode) (create : Bool) (m : Frame) (c : ChunkMut) (name : String) (s : List Slot)
      (x : Slot)
      → dispatch f64 external o ≡ op_set_global create
      → ((vm : Vm) → halts f64 external o vm ≡ false)
      → Fits m (op_constant o (Value.unicode name) c)
      → (create || contains name m.vm) ≡ true
      → Leads f64 external (at m (length c.code) (s ++ x ∷ [])) (
          at
            (with_globals m (put name (plain x) m.vm.globals))
            (length (op_constant o (Value.unicode name) c).code)
            s)
  named-Leads o create m c name s x is stays (l, few) there =
      let (h, i, h', y, k, (a, froze)) =
        fetch-op_constant m.code (to_list m.constants) o (Value.unicode name) c l few in
      let e =
        set_global-at create m (suc (length c.code)) i a name s x h' (k ∙ ap some froze) there in
      rw (length-op_constant o (Value.unicode name) c)
        (Leads-step f64 external m o (length c.code) (s ++ x ∷ []) _ h (rw is e) (stays _))

  -- what the compiler owes for statements that take one environment to another
  pub record Executes (r : Outcome ⊥ Gen) (c : ChunkMut) (env env' : Env) : Type 0 where
    pub chunk : ChunkMut
    pub compiles : r ≡ ok (record { chunk = chunk; locals = [] })
    pub extends : Extends c chunk
    pub runs :
        (m : Frame) (s : List Slot)
        → Fits m chunk
        → Holds env m.vm.globals
        → (g : Globals) × Holds env' g
          × Leads f64 external
              (at m (length c.code) s)
              (at (with_globals m g) (length chunk.code) s)

  -- an expression, and then the instruction that makes a global of it
  named-Executes :
      (o : Opcode) (create : Bool) (name : String) (e : Expr) (d : Datum) (env : Env)
      (c c₁ : ChunkMut) (r : Outcome ⊥ Gen)
      → dispatch f64 external o ≡ op_set_global create
      → ((vm : Vm) → halts f64 external o vm ≡ false)
      → ((m : Frame) → Holds env m.vm.globals → (create || contains name m.vm) ≡ true)
      → eval env (exchanged e) ≡ some d
      → expr_to_opcodes e [] c ≡ ok c₁
      → Extends c c₁
      → r ≡ ok (record { chunk = op_constant o (Value.unicode name) c₁; locals = [] })
      → Executes r c env (bind name d env)
  named-Executes o create name e d env c c₁ r is stays there h compiles ext p = record {
    chunk = op_constant o (Value.unicode name) c₁;
    compiles = p;
    extends = Extends-trans ext (Extends-op_constant o (Value.unicode name) c₁);
    runs = λ m s fits holds.
        let before = Fits-Extends m (Extends-op_constant o (Value.unicode name) c₁) fits in
        let (x, shows, k, goes_on) =
          run-expr_to_opcodes f64 external env e [] c c₁ d m s h compiles before
            (Holds-Agrees env m s holds) in
        let first : Leads f64 external (at m (length c.code) s)
            (at m (length c₁.code) (s ++ x ∷ [])) =
          record { rounds = k; goes_on = goes_on } in
        (
          put name (plain x) m.vm.globals,
          Holds-bind env m.vm.globals name d x holds shows,
          Leads-trans f64 external first
              (named-Leads o create m c₁ name s x is stays fits (there m holds)),
        );
  }

  let-Executes :
      (name : String) (e : Expr) (d : Datum) (env : Env) (c : ChunkMut)
      → eval env (exchanged e) ≡ some d
      → Executes
          (stmt_to_opcodes (Stmt.let_assign name e) 0 (record { chunk = c; locals = [] }))
          c
          env
          (bind name d env)
  unfolding stmt_to_opcodes bind_name dispatch op_define_global
  let-Executes name e d env c h =
      let (c₁, compiles, ext) = exchanged-compiles f64 external env e [] c d h in
      named-Executes Opcode.define_global true name e d env c c₁ _ refl (λ vm. refl)
        (λ m holds. refl) h compiles ext (rw compiles refl)

  contains-Holds :
      (env : Env) (name : String) (old : Datum) (m : Frame)
      → env name ≡ some old
      → Holds env m.vm.globals
      → (false || contains name m.vm) ≡ true
  contains-Holds env name old m h holds =
      let (x, found, _) = holds name old h in rw (contains, found) refl

  assign-Executes :
      (name : String) (e : Expr) (d old : Datum) (env : Env) (c : ChunkMut)
      → eval env (exchanged e) ≡ some d
      → env name ≡ some old
      → Executes
          (stmt_to_opcodes (Stmt.assign name e) 0 (record { chunk = c; locals = [] }))
          c
          env
          (bind name d env)
  unfolding stmt_to_opcodes ident_to_opcodes position dispatch
  assign-Executes name e d old env c h bound =
      let (c₁, compiles, ext) = exchanged-compiles f64 external env e [] c d h in
      named-Executes Opcode.set_global false name e d env c c₁ _ refl (λ vm. refl)
        (λ m holds. contains-Holds env name old m bound holds) h compiles ext (rw compiles refl)

  expr-Executes :
      (e : Expr) (d : Datum) (env : Env) (c : ChunkMut)
      → eval env (exchanged e) ≡ some d
      → Executes (stmt_to_opcodes (Stmt.expr e) 0 (record { chunk = c; locals = [] })) c env env
  unfolding stmt_to_opcodes dispatch
  expr-Executes e d env c h =
      let (c₁, compiles, ext) = exchanged-compiles f64 external env e [] c d h in
      record {
        chunk = op Opcode.pop c₁;
        compiles = rw compiles refl;
        extends = Extends-trans ext (Extends-op Opcode.pop c₁);
        runs = λ m s fits holds.
            let before = Fits-Extends m (Extends-op Opcode.pop c₁) fits in
            let (x, shows, k, goes_on) =
              run-expr_to_opcodes f64 external env e [] c c₁ d m s h compiles before
                (Holds-Agrees env m s holds) in
            let first : Leads f64 external (at m (length c.code) s)
                (at m (length c₁.code) (s ++ x ∷ [])) =
              record { rounds = k; goes_on = goes_on } in
            let second : Leads f64 external (at m (length c₁.code) (s ++ x ∷ []))
                (at m (length (op Opcode.pop c₁).code) s) =
              rw (length-op Opcode.pop c₁) (
                Leads-step f64 external m Opcode.pop (length c₁.code) (s ++ x ∷ []) _
                  (fetch-op m.code (to_list m.constants) Opcode.pop c₁ fits.0)
                  (pop-at m (suc (length c₁.code)) s x) refl) in
            (m.vm.globals, holds, Leads-trans f64 external first second);
      }

  stmt-Executes :
      (st : Stmt) (env env' : Env) (c : ChunkMut)
      → exec env (exchanged_stmt st) ≡ some env'
      → Executes (stmt_to_opcodes st 0 (record { chunk = c; locals = [] })) c env env'
  unfolding exec exchanged_stmt
  stmt-Executes (Stmt.let_assign x e) env env' c h =
      let (d, p, q) = bind-some (eval env (exchanged e)) _ env' h in
      rw (some_inj q) at (let-Executes x e d env c p)
  stmt-Executes (Stmt.assign x e) env env' c h =
      let (d, p, h') = bind-some (eval env (exchanged e)) _ env' h in
      let (old, bound, q) = bind-some (env x) _ env' h' in
      rw (some_inj q) at (assign-Executes x e d old env c p bound)
  stmt-Executes (Stmt.expr e) env env' c h =
      let (d, p, q) = bind-some (eval env (exchanged e)) _ env' h in
      subst
        (λ w.
          Executes (stmt_to_opcodes (Stmt.expr e) 0 (record { chunk = c; locals = [] })) c env w)
        (some_inj q) (expr-Executes e d env c p)
  stmt-Executes _ env env' c h = cc

  -- The code of a script that takes one environment to another with its comparisons exchanged.
  pub stmts-Executes :
      (ss : Stmts) (env env' : Env) (c : ChunkMut)
      → exec_all env (exchanged_stmts ss) ≡ some env'
      → Executes (stmts_to_opcodes ss 0 (record { chunk = c; locals = [] })) c env env'
  unfolding exec_all exchanged_stmts stmts_to_opcodes
  stmts-Executes Stmts.end env env' c h = record {
    chunk = c;
    compiles = refl;
    extends = Extends-refl c;
    runs = λ m s fits holds.
        (m.vm.globals, rw (some_inj h) at holds, Leads-refl f64 external (at m (length c.code) s));
  }
  stmts-Executes (Stmts.stmt st ss) env env' c h =
      let (mid, p, q) = bind-some (exec env (exchanged_stmt st)) _ env' h in
      let first = stmt-Executes st env mid c p in
      let rest = stmts-Executes ss mid env' first.chunk q in
      record {
        chunk = rest.chunk;
        compiles = rw (first.compiles) rest.compiles;
        extends = Extends-trans first.extends rest.extends;
        runs = λ m s fits holds.
            let (g, holds', one) = first.runs m s (Fits-Extends m rest.extends fits) holds in
            let (g', holds'', two) = rest.runs (with_globals m g) s fits holds' in
            (g', holds'', Leads-trans f64 external one two);
      }
