-- ===== src/Dsl/Compiler.antt =====
-- `Compiler::compile` of brane-dsl/src/lib.rs for a BraneScript. The texts of its errors are left out.
use Prim.Native.Char.{Char}
use brane.Prelude.{ℕ, Bool, Option, none, some, String, List, Outcome, ok, err, panic}
use brane.Bytecode.Chunk.{FunctionMut}
use brane.Dsl.Ast.{Stmt}
use brane.Dsl.Generator.Statements
use brane.Dsl.Syntax.Token.{Token}
use brane.Dsl.Syntax.Parsed.{Parsed, ParsedOf, done, error, failure, spent}
use brane.Dsl.Scanner.Characters.{Span, Characters}
use brane.Dsl.Scanner.Scan.{scan_tokens}
use brane.Dsl.Syntax.Nom.{Nom, NomOf}
use brane.Dsl.Syntax.Expression.{stmts_of}
use brane.Dsl.Syntax.Statement.{parse_ast}

pub data CompilerError : Type 0 where
  scanner_error parser_error : CompilerError

unfoldable pub generated : Outcome ⊥ FunctionMut → Outcome CompilerError FunctionMut
generated (ok f) = ok f
generated (err e) = elim e [ ]
generated panic = panic

-- `none`: the parser does not end
unfoldable pub compile_program : Parsed (List Stmt) → Option (Outcome CompilerError FunctionMut)
unfolding generated
compile_program (done r program) = some (generated (Statements.compile (stmts_of program)))
compile_program error = some (err parser_error)
compile_program failure = some (err parser_error)
compile_program ParsedOf.panic = some panic
compile_program spent = none

unfoldable pub compile :
    Nom
    → (String → Option ℕ)
    → (String → Bool)
    → List Token
    → Option (Outcome CompilerError FunctionMut)
unfolding compile_program
compile nom f64_from_str is_version tokens =
    compile_program (parse_ast nom f64_from_str is_version tokens)

-- the scanner in front
unfoldable pub compile_scanned :
    (List Token → Option (Outcome CompilerError FunctionMut))
    → ParsedOf Char (List Token)
    → Option (Outcome CompilerError FunctionMut)
compile_scanned next (done r tokens) = next tokens
compile_scanned next error = some (err scanner_error)
compile_scanned next failure = some (err scanner_error)
compile_scanned next ParsedOf.panic = some panic
compile_scanned next spent = none

unfoldable pub compile_text :
    NomOf Char
    → Characters
    → Nom
    → (String → Option ℕ)
    → (String → Bool)
    → Span
    → Option (Outcome CompilerError FunctionMut)
unfolding compile_scanned
compile_text scanner cs nom f64_from_str is_version input =
    compile_scanned (compile nom f64_from_str is_version) (scan_tokens scanner cs input)
