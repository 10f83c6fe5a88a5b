-- ===== src/Dsl/Syntax/Tests.antt =====
-- The theorems of the parser at concrete tokens, with combinators that satisfy the laws of nom.
use brane.Prelude.{ℕ, ◌≡◌, refl, Bool, true, Option, none, some, String, List, [], ◌∷◌, arith}
use brane.Prelude.Int.{pos}
use brane.Prelude.Codes.{codes}
use brane.Version.Text.{parse_digits}
use brane.Dsl.Ast.{
  Lit, BinOp, UnOp, Expr, Exprs, Stmt, Stmts, Methods, no_methods, method, binding_power,
}
use brane.Dsl.Syntax.Token.{Token, discriminant, parse_i64, i64_positive}
use brane.Dsl.Syntax.Parsed.{ParsedOf, done, spent}
use brane.Dsl.Syntax.Expression.{expr_pratt, parse_expression}
use brane.Dsl.Syntax.Statement.{parse_ast}
use brane.Dsl.Syntax.Grammar
use brane.Dsl.Syntax.Grammar.{Reads, Below, left_power}
use brane.Dsl.Syntax.Program
use brane.Dsl.Syntax.Program.{Script, Members}
use brane.Dsl.Syntax.Classes.{
  find_property, find_method, last_property, last_method, class_members-last,
}
use brane.Dsl.Syntax.Statement.{class_members, insert_property, insert_method}
use brane.Dsl.Syntax.Precedence.{Reads-parse_expression}
use brane.Dsl.Syntax.Scripts.{Script-parse_ast}
use brane.Dsl.Syntax.Failures.{expr_pratt-unclosed, parse_expression-panic}
use brane.Dsl.Syntax.Combinators.{combinators, combinators-laws}

abbrev no_reals : String → Option ℕ
no_reals s = none

abbrev all_versions : String → Bool
all_versions s = true

abbrev end : List Token
end = Token.semicolon ∷ []

-- `a - b - c * !d[0];`
abbrev difference : List Token
difference =
    Token.ident "a"
    ∷ Token.minus
    ∷ Token.ident "b"
    ∷ Token.minus
    ∷ Token.ident "c"
    ∷ Token.star
    ∷ Token.not'
    ∷ Token.ident "d"
    ∷ Token.left_bracket
    ∷ Token.integer "0"
    ∷ Token.right_bracket
    ∷ end

abbrev difference_tree : Expr
difference_tree = Expr.binary BinOp.sub (Expr.binary BinOp.sub (Expr.ident "a") (Expr.ident "b")) (
    Expr.binary BinOp.mul (Expr.ident "c")
      (Expr.unary UnOp.not' (Expr.index (Expr.ident "d") (Expr.literal (Lit.integer (pos 0))))))

difference-Reads : Reads no_reals 0 difference_tree difference end
unfolding Below left_power binding_power discriminant parse_i64 parse_digits codes i64_positive
difference-Reads =
    Grammar.binary (omega arith)
      (Grammar.binary (omega arith) (Grammar.ident refl) (Grammar.ident refl) (omega arith))
      (Grammar.binary (omega arith) (Grammar.ident refl)
        (Grammar.not'
          (Grammar.index (omega arith) (Grammar.ident refl)
            (Grammar.literal (Grammar.integer refl)))
          tt)
        tt)
      tt

Reads-parse_expression_example :
    parse_expression combinators no_reals difference ≡ done end difference_tree
unfolding Below left_power
Reads-parse_expression_example =
    Reads-parse_expression combinators no_reals combinators-laws difference-Reads tt

-- `func f(a) { return a; } if (f(1, unit)) { x := new C { n := 2 }; } else { parallel [{}]; }`
abbrev script : List Token
script =
    Token.function
    ∷ Token.ident "f"
    ∷ Token.left_paren
    ∷ Token.ident "a"
    ∷ Token.right_paren
    ∷ Token.left_brace
    ∷ Token.return
    ∷ Token.ident "a"
    ∷ Token.semicolon
    ∷ Token.right_brace
    ∷ Token.if
    ∷ Token.left_paren
    ∷ Token.ident "f"
    ∷ Token.left_paren
    ∷ Token.integer "1"
    ∷ Token.comma
    ∷ Token.unit
    ∷ Token.right_paren
    ∷ Token.right_paren
    ∷ Token.left_brace
    ∷ Token.ident "x"
    ∷ Token.assign
    ∷ Token.new
    ∷ Token.ident "C"
    ∷ Token.left_brace
    ∷ Token.ident "n"
    ∷ Token.assign
    ∷ Token.integer "2"
    ∷ Token.right_brace
    ∷ Token.semicolon
    ∷ Token.right_brace
    ∷ Token.else'
    ∷ Token.left_brace
    ∷ Token.parallel
    ∷ Token.left_bracket
    ∷ Token.left_brace
    ∷ Token.right_brace
    ∷ Token.right_bracket
    ∷ Token.semicolon
    ∷ Token.right_brace
    ∷ []

abbrev script_tree : List Stmt
script_tree =
    Stmt.declare_func "f" ("a" ∷ []) (Stmts.stmt (Stmt.return (Expr.ident "a")) Stmts.end)
    ∷ Stmt.if_else
        (Expr.call "f" (
          Exprs.cons (Expr.literal (Lit.integer (pos 1)))
            (Exprs.cons (Expr.literal Lit.unit) Exprs.nil)))
        (Stmts.stmt
          (Stmt.assign "x" (
            Expr.instance' "C"
              (Stmts.stmt (Stmt.assign "n" (Expr.literal (Lit.integer (pos 2)))) Stmts.end)))
          Stmts.end)
        (Stmts.stmt (Stmt.parallel none (Stmts.stmt (Stmt.block Stmts.end) Stmts.end)) Stmts.end)
    ∷ []

script-Script : Script no_reals all_versions script_tree script
unfolding discriminant parse_i64 parse_digits codes i64_positive
script-Script =
    Program.then'
      (Program.func (
        Program.function (Program.names Program.end_names)
          (Program.next (Program.return (Grammar.ident refl)) Program.end)))
      (Program.then'
        (Program.if_else
          {ss = Stmt.assign "x" (
              Expr.instance' "C"
                (Stmts.stmt (Stmt.assign "n" (Expr.literal (Lit.integer (pos 2)))) Stmts.end))
            ∷ []}
          {ts = Stmt.parallel none (Stmts.stmt (Stmt.block Stmts.end) Stmts.end) ∷ []}
          (Grammar.call {es = Expr.literal (Lit.integer (pos 1)) ∷ Expr.literal Lit.unit ∷ []} (
            Grammar.items (Grammar.literal (Grammar.integer refl))
              (Grammar.next (Grammar.literal Grammar.unit) (Grammar.end Grammar.paren))))
          (Program.next
            (Program.assign (
              Grammar.instance' {ps = Stmt.assign "n" (Expr.literal (Lit.integer (pos 2))) ∷ []}
                (Grammar.fields (Grammar.literal (Grammar.integer refl)) Grammar.end_fields)))
            Program.end)
          (Program.next
            (Program.parallel {ss = Stmt.block Stmts.end ∷ []}
              (Program.branches (Program.block {ss = []} Program.end) Program.end_branches))
            Program.end))
        Program.empty)

Script-parse_ast_example : parse_ast combinators no_reals all_versions script ≡ done [] script_tree
Script-parse_ast_example =
    Script-parse_ast combinators no_reals all_versions combinators-laws script-Script

-- `f(1 2);`
abbrev unclosed : List Token
unclosed = Token.integer "1" ∷ Token.integer "2" ∷ Token.right_paren ∷ end

one-Reads :
    Reads no_reals 0
      (Expr.literal (Lit.integer (pos 1)))
      unclosed
      (Token.integer "2" ∷ Token.right_paren ∷ end)
unfolding parse_i64 parse_digits codes i64_positive
one-Reads = Grammar.literal (Grammar.integer refl)

expr_pratt-unclosed_example :
    expr_pratt combinators no_reals 1001 0 (Token.ident "f" ∷ Token.left_paren ∷ unclosed) ≡ spent
unfolding Below left_power discriminant
expr_pratt-unclosed_example =
    expr_pratt-unclosed combinators no_reals combinators-laws "f"
      (Expr.literal (Lit.integer (pos 1))) (Token.integer "2") unclosed (Token.right_paren ∷ end)
      one-Reads tt refl refl 1000 (omega arith)

underscores-none : parse_i64 (codes "1_000") ≡ none
unfolding parse_i64 parse_digits codes i64_positive
underscores-none = refl

parse_expression-panic_example :
    parse_expression combinators no_reals (Token.integer "1_000" ∷ end) ≡ ParsedOf.panic
parse_expression-panic_example =
    parse_expression-panic combinators no_reals combinators-laws "1_000" end underscores-none

-- `n: integer; n: real; func get(self) { }`
abbrev body : List Stmt
body =
    Stmt.property "n" "integer"
    ∷ Stmt.property "n" "real"
    ∷ Stmt.declare_func "get" ("self" ∷ []) Stmts.end
    ∷ []

abbrev getters : Methods
getters = method "get" (Stmt.declare_func "get" ("self" ∷ []) Stmts.end) no_methods

body-made : class_members body [] no_methods ≡ some (("n", "real") ∷ [], getters)
unfolding class_members insert_property insert_method
body-made = refl

class_members-last_example :
    (find_property "n" (("n", "real") ∷ []) ≡ last_property "n" none body)
    × (find_method "n" getters ≡ last_method "n" none body)
class_members-last_example = class_members-last "n" body (("n", "real") ∷ []) getters body-made
