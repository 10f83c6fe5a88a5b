-- ===== src/Dsl/Run/Tests.antt =====
-- The theorems of compiled scripts at concrete scripts, from compiling to the end of the machine.
use brane.Dsl.Bytes.{Bytes}
use brane.Prelude.{
  ℕ, suc, ◌+◌, ◌≡◌, refl, ap, ◌∙◌, Bool, true, false, Option, String, List, none, some, [], ◌∷◌, ok,
  arith,
}
use brane.Prelude.Int.{pos, wrap, ◌*ℤ◌, ◌+ℤ◌}
use brane.Heap.{alloc, settle, collect, strong_count, refs_of, pending_refs, reclaim}
use brane.Vm.Stack
use brane.Vm.Frames
use brane.Vm.Calls.Freeze.{freeze_constant, freeze_constants, freeze_function}
use brane.Vm.Calls.Call.{call}
use brane.Value.{Value, Values}
use brane.Bytecode.Opcodes.{Opcode, to_u8}
use brane.Bytecode.Chunk
use brane.Bytecode.Chunk.{FunctionMut, to_spec, write, write_pair, add_constant}
use brane.Dsl.Generator.Writer.{op_constant, ident_to_opcodes, bind_name}
use brane.Dsl.Generator.Compile.{expr_to_opcodes, literal_to_opcodes, operator_to_opcodes}
use brane.Vm.Slot.{F64, object_refs}
use brane.Vm.State.{Vm, alloc_object, heap_alloc, held}
use brane.Vm.Calls.Executor.{Executor}
use brane.Vm.Calls.Main.{Outside, start, main, anonymous}
use brane.Prelude.Codes.{codes}
use brane.Version.Text.{parse_digits}
use brane.Dsl.Syntax.Token.{Token, discriminant, parse_i64, i64_positive}
use brane.Dsl.Syntax.Grammar
use brane.Dsl.Syntax.Grammar.{Below, left_power}
use brane.Dsl.Syntax.Program
use brane.Dsl.Syntax.Program.{Script}
use brane.Dsl.Syntax.Combinators.{combinators, combinators-laws}
use brane.Dsl.Compiler
use brane.Dsl.Compiler.{generated}
use brane.Dsl.Run.Source.{compile-Script, main-source, compile-total}
use brane.Dsl.Ast.{Lit, BinOp, Expr, Stmt, Stmts, binding_power}
use brane.Dsl.Generator.Statements.{compile, compile_function, stmt_to_opcodes}
use brane.Dsl.Correct.Semantics.{int, eval, eval_literal, eval_binary}
use brane.Dsl.Run.Start.{idle}
use brane.Dsl.Correct.Exchange.{exchange, exchanged, IsUnordered, IsUnorderedOp}
use brane.Dsl.Run.Denotation.{
  Env, bind, exec, exec_all, exchanged_stmt, exchanged_stmts, IsUnorderedStmt, IsUnorderedScript,
}
use brane.Dsl.Run.Scripts.{Holds}
use brane.Dsl.Run.Session.{main-compile}
use brane.Dsl.Run.Branches.{no_names, branch_of, halting, anonymous-return}

abbrev no_floats : F64
no_floats = record {
  add = λ a b. 0;
  sub = λ a b. 0;
  mul = λ a b. 0;
  div = λ a b. 0;
  neg = λ a. a;
  of_i64 = λ z. 0;
  partial_cmp = λ a b. none;
}

-- an executor that does nothing
abbrev dummy : Executor
dummy = record {
  call = λ f vs l. ok Value.unit;
  debug = ok tt;
  stdout = λ s. ok tt;
  wait_until = λ s st. ok tt;
  numbers = record { show_i64 = λ z. ""; show_f64 = λ n. "" };
}

abbrev around : Outside
around = record {
  f64 = no_floats;
  executor = dummy;
  package_index = record { packages = []; latest = [] };
  branch = λ s f. ok Value.unit;
}

abbrev repl : Vm
repl = record {
  frames = [];
  globals = [];
  heap = record { cells = []; max_size = 8; next = 2 };
  locations = [];
  options = record { clear_after_main = true; global_return_halts = false };
  stack = record { inner = []; use_const = true };
}

-- `let x = 1 + 2; x = x * x;`
abbrev script : Stmts
script =
    Stmts.stmt
      (Stmt.let_assign "x" (
        Expr.binary BinOp.add (Expr.literal (Lit.integer (pos 1)))
          (Expr.literal (Lit.integer (pos 2)))))
      (Stmts.stmt (Stmt.assign "x" (Expr.binary BinOp.mul (Expr.ident "x") (Expr.ident "x")))
        Stmts.end)

abbrev ints : Values → Values
ints vs = Values.cons (Value.integer (pos 1)) (Values.cons (Value.integer (pos 2)) vs)

abbrev names : Values
names = Values.cons (Value.unicode "x") (
    Values.cons (Value.unicode "x")
      (Values.cons (Value.unicode "x") (Values.cons (Value.unicode "x") Values.nil)))

abbrev written : FunctionMut
written = record {
  arity = 0;
  name = "main";
  chunk = record {
    code =
        to_u8 Opcode.constant
        ∷ 0
        ∷ to_u8 Opcode.constant
        ∷ 1
        ∷ to_u8 Opcode.add
        ∷ to_u8 Opcode.define_global
        ∷ 2
        ∷ to_u8 Opcode.get_global
        ∷ 3
        ∷ to_u8 Opcode.get_global
        ∷ 4
        ∷ to_u8 Opcode.multiply
        ∷ to_u8 Opcode.set_global
        ∷ 5
        ∷ [];
    constants = ints names;
  };
}

script-compiled : compile script ≡ ok written
unfolding compile Chunk.main Chunk.default op_constant add_constant ident_to_opcodes bind_name write
    write_pair stmt_to_opcodes expr_to_opcodes literal_to_opcodes operator_to_opcodes
script-compiled = refl

-- what the script leaves of its names
abbrev after : Env
after = bind "x" (int (pos 9)) (bind "x" (int (pos 3)) no_names)

script-exec : exec_all no_names script ≡ some after
unfolding exec_all exec eval eval_literal eval_binary wrap ◌*ℤ◌ ◌+ℤ◌
script-exec = refl

script-exchanged : exec_all no_names (exchanged_stmts script) ≡ some after
unfolding exchanged_stmts exchanged_stmt exchanged exchange exec_all exec eval eval_literal
    eval_binary wrap ◌*ℤ◌ ◌+ℤ◌
script-exchanged = refl

script-IsUnordered : IsUnorderedScript script
unfolding IsUnorderedScript IsUnorderedStmt IsUnordered IsUnorderedOp
script-IsUnordered = ((tt, tt, tt), ((tt, tt, tt), tt))

-- the machine when the script starts
abbrev begun : Vm
begun = (start around (to_spec written) (idle repl)).1

script-start : start around (to_spec written) (idle repl) ≡ (ok tt, begun)
unfolding start freeze_function freeze_constants freeze_constant alloc_object heap_alloc held alloc
    settle collect strong_count refs_of pending_refs reclaim Stack.push_object call Frames.new
    to_spec object_refs
script-start = refl

repl-Holds : Holds no_names repl.globals
repl-Holds name d h = cc

main-compile_example :
    (k : ℕ) × (vm₂ : Vm) × ((n : ℕ)
      → main around (k + n) written (idle repl) ≡ (ok (some tt), idle vm₂))
    × Holds after vm₂.globals
main-compile_example =
    main-compile around script no_names after written repl begun script-exchanged script-compiled
      (omega arith) repl-Holds refl script-start

-- `return 1 + 2;` as a branch
abbrev sum : Expr
sum =
    Expr.binary BinOp.add (Expr.literal (Lit.integer (pos 1))) (Expr.literal (Lit.integer (pos 2)))

abbrev branch : FunctionMut
branch = record {
  arity = 0;
  name = "";
  chunk = record {
    code =
        to_u8 Opcode.constant
        ∷ 0
        ∷ to_u8 Opcode.constant
        ∷ 1
        ∷ to_u8 Opcode.add
        ∷ to_u8 Opcode.return
        ∷ to_u8 Opcode.unit
        ∷ to_u8 Opcode.return
        ∷ [];
    constants = ints Values.nil;
  };
}

sum-eval : eval no_names sum ≡ some (int (pos 3))
unfolding eval eval_literal eval_binary wrap ◌+ℤ◌
sum-eval = refl

branch-compiled : branch_of sum 0 ≡ ok branch
unfolding compile_function Chunk.new Chunk.default op_constant add_constant write write_pair
    stmt_to_opcodes expr_to_opcodes literal_to_opcodes operator_to_opcodes
branch-compiled = refl

abbrev branch_begun : Vm
branch_begun = (start around (to_spec branch) (halting (idle repl))).1

branch-start : start around (to_spec branch) (halting (idle repl)) ≡ (ok tt, branch_begun)
unfolding start freeze_function freeze_constants freeze_constant alloc_object heap_alloc held alloc
    settle collect strong_count refs_of pending_refs reclaim Stack.push_object call Frames.new
    to_spec object_refs
branch-start = refl

anonymous-return_example :
    (k : ℕ) × (vm₂ : Vm) × ((n : ℕ)
      → anonymous around (k + suc n) (to_spec branch) (idle repl) ≡ (ok (some Value.unit), vm₂))
anonymous-return_example =
    anonymous-return around sum 0 branch (int (pos 3)) repl branch_begun sum-eval branch-compiled
      (omega arith) branch-start

abbrev no_reals : String → Option ℕ
no_reals s = none

abbrev all_versions : String → Bool
all_versions s = true

-- the tokens of `let x := 1 + 2; x := x * x;`
abbrev source : List Token
source =
    Token.let'
    ∷ Token.ident "x"
    ∷ Token.assign
    ∷ Token.integer "1"
    ∷ Token.plus
    ∷ Token.integer "2"
    ∷ Token.semicolon
    ∷ Token.ident "x"
    ∷ Token.assign
    ∷ Token.ident "x"
    ∷ Token.star
    ∷ Token.ident "x"
    ∷ Token.semicolon
    ∷ []

abbrev program : List Stmt
program =
    Stmt.let_assign "x" (
      Expr.binary BinOp.add (Expr.literal (Lit.integer (pos 1)))
        (Expr.literal (Lit.integer (pos 2))))
    ∷ Stmt.assign "x" (Expr.binary BinOp.mul (Expr.ident "x") (Expr.ident "x"))
    ∷ []

source-Script : Script no_reals all_versions program source
unfolding Below left_power binding_power discriminant parse_i64 parse_digits codes i64_positive
source-Script =
    Program.then'
      (Program.let_assign (
        Grammar.binary (omega arith) (Grammar.literal (Grammar.integer refl))
          (Grammar.literal (Grammar.integer refl)) tt))
      (Program.then'
        (Program.assign (Grammar.binary (omega arith) (Grammar.ident refl) (Grammar.ident refl) tt))
        Program.empty)

source-compiled : Compiler.compile combinators no_reals all_versions source ≡ some (ok written)
unfolding generated
source-compiled =
    compile-Script combinators no_reals all_versions combinators-laws source-Script
    ∙ ap (λ o. some (generated o)) script-compiled

main-source_example :
    (k : ℕ) × (vm₂ : Vm) × ((n : ℕ)
      → main around (k + n) written (idle repl) ≡ (ok (some tt), idle vm₂))
    × Holds after vm₂.globals
main-source_example =
    main-source combinators no_reals all_versions combinators-laws around program source no_names
      after written repl begun source-Script script-IsUnordered script-exec source-compiled
      (omega arith) repl-Holds refl script-start

compile-total_example :
    (f : FunctionMut) × (Compiler.compile combinators no_reals all_versions source ≡ some (ok f))
compile-total_example =
    compile-total combinators no_reals all_versions combinators-laws program source no_names after
      source-Script script-exec
