-- ===== src/Dsl/Run/Source.antt =====
-- From the tokens of a script to the end of `main`: the parser, the compiler and the machine.
use brane.Prelude.{
  ℕ, ◌≤◌, ◌≡◌, refl, sym, ap, ◌∙◌, Bool, true, Option, none, some, String, List, Outcome, ok, err,
  panic, some_inj, ok_inj, ◌+◌,
}
use brane.Bytecode.Chunk
use brane.Bytecode.Chunk.{FunctionMut, to_spec}
use brane.Vm.Slot.{F64}
use brane.Value.{count}
use brane.Vm.State.{Vm}
use brane.Vm.Calls.Main.{Outside, start, main}
use brane.Dsl.Ast.{Stmt}
use brane.Dsl.Generator.Statements
use brane.Dsl.Syntax.Token.{Token}
use brane.Dsl.Syntax.Nom.{Nom, NomLaws}
use brane.Dsl.Syntax.Expression.{stmts_of}
use brane.Dsl.Syntax.Program.{Script}
use brane.Dsl.Syntax.Scripts.{Script-parse_ast}
use brane.Dsl.Compiler.{generated, compile_program, compile}
use brane.Dsl.Run.Start.{idle}
use brane.Dsl.Run.Denotation.{
  Env, exec_all, exchanged_stmts-unordered, exec_all-exchanged, IsUnorderedScript,
}
use brane.Dsl.Run.Scripts.{Holds, stmts-Executes}
use brane.Dsl.Run.Session.{main-compile}

-- a machine on which nothing is computed
abbrev no_floats : F64
no_floats = record {
  add = λ a b. 0;
  sub = λ a b. 0;
  mul = λ a b. 0;
  div = λ a b. 0;
  neg = λ a. a;
  of_i64 = λ z. 0;
  partial_cmp = λ a b. none;
}

generated-ok : (o : Outcome ⊥ FunctionMut) (f : FunctionMut) → generated o ≡ ok f → o ≡ ok f
unfolding generated
generated-ok (ok g) f h = ap ok (ok_inj h)
generated-ok (err e) f h = elim e [ ]
generated-ok panic f h = cc

module _ (nom : Nom) (f64_from_str : String → Option ℕ) (is_version : String → Bool)
    (laws : NomLaws nom) where
  -- The parser hands its statements to the generator.
  pub compile-Script :
      {ss : List Stmt} {i : List Token}
      → Script f64_from_str is_version ss i
      → compile nom f64_from_str is_version i ≡ some (generated (Statements.compile (stmts_of ss)))
  unfolding compile compile_program
  compile-Script d = ap compile_program (Script-parse_ast nom f64_from_str is_version laws d)

  -- From the source to the end of `main`: where the tokens `i` are those of a script of `let`,
  -- assignments and expressions outside every scope, none of `<`, `>`, `<=` and `>=` is an operator
  -- in it, the script denotes an environment in the one that the globals show, the compiler gives
  -- the function `f` for the tokens, its code has at most 256 constants, and its start succeeds on a
  -- machine at rest that clears after `main`, enough rounds of `main` end without an error, the
  -- globals then show the environment that the script denotes, and the machine is at rest.
  pub main-source :
      (o : Outside) (ss : List Stmt) (i : List Token) (env env' : Env) (f : FunctionMut)
      (vm vm₁ : Vm)
      → Script f64_from_str is_version ss i
      → IsUnorderedScript (stmts_of ss)
      → exec_all env (stmts_of ss) ≡ some env'
      → compile nom f64_from_str is_version i ≡ some (ok f)
      → count f.chunk.constants ≤ 256
      → Holds env vm.globals
      → vm.options.clear_after_main ≡ true
      → start o (to_spec f) (idle vm) ≡ (ok tt, vm₁)
      → (k : ℕ) × (vm₂ : Vm) × ((n : ℕ) → main o (k + n) f (idle vm) ≡ (ok (some tt), idle vm₂))
        × Holds env' vm₂.globals
  main-source o ss i env env' f vm vm₁ d plain h compiled few holds clears begun =
      main-compile o (stmts_of ss) env env' f vm vm₁
        (ap (exec_all env) (exchanged_stmts-unordered (stmts_of ss) plain) ∙ h)
        (generated-ok _ f (some_inj (sym (compile-Script d) ∙ compiled))) few holds clears begun

  -- The compiler ends with a function on the tokens `i` of a script of `let`, assignments and
  -- expressions outside every scope that denotes an environment: no parse error, no panic.
  pub compile-total :
      (ss : List Stmt) (i : List Token) (env env' : Env)
      → Script f64_from_str is_version ss i
      → exec_all env (stmts_of ss) ≡ some env'
      → (f : FunctionMut) × (compile nom f64_from_str is_version i ≡ some (ok f))
  unfolding generated Statements.compile
  compile-total ss i env env' d h =
      let (env₂, h₂) = exec_all-exchanged env env' (stmts_of ss) h in
      let code =
        stmts-Executes no_floats (λ o m. (panic, m)) (stmts_of ss) env env₂ Chunk.default h₂ in
      (Chunk.main code.chunk, compile-Script d ∙ rw code.compiles refl)
