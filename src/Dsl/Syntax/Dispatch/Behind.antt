-- ===== src/Dsl/Syntax/Dispatch/Behind.antt =====
-- An expression in `parse_stmt` of brane-dsl/src/parser/bscript.rs, and the alternatives behind it.
use brane.Prelude.{ℕ, ◌≡◌, refl, ◌∙◌, Bool, false, Option, String, List, [], ◌∷◌, ◌==◌}
use brane.Dsl.Ast.{Expr, Stmt}
use brane.Dsl.Syntax.Token.{Token, discriminant}
use brane.Dsl.Syntax.Parsed.{Parser, done, error}
use brane.Dsl.Syntax.Nom.{Nom, NomLaws}
use brane.Dsl.Syntax.Expression.{parse_expression}
use brane.Dsl.Syntax.Statement.{
  let_assign_stmt, if_stmt, import_stmt, while_stmt, return_stmt, expr_stmt, alternatives,
}
use brane.Dsl.Syntax.Grammar.{Reads}
use brane.Dsl.Syntax.Operators.{look_up}
use brane.Dsl.Syntax.Alternatives
use brane.Dsl.Syntax.Alternatives.{Differs, AllErrors, alt-nth, alt-skip, alt-all}
use brane.Dsl.Syntax.Starts.{
  NotKeyword, NoAssign, Reads-Start, Start-NotKeyword, Reads-assignment, before_expr,
  before_expr-errors, parse_expression-error, expr_stmt-error,
}

module _ (nom : Nom) (f64_from_str : String → Option ℕ) (is_version : String → Bool)
    (laws : NomLaws nom) (stmt : Parser Stmt) where
  -- The alternatives of `parse_stmt` give `s` for the tokens `i`, and leave `r`.
  abbrev Takes : Stmt → List Token → List Token → Type 0
  Takes s i r = alternatives nom f64_from_str is_version stmt i ≡ done r s

  -- the errors of the alternatives before an expression, at a token `t` of none of them
  errors :
      (t : Token) (i : List Token)
      → NotKeyword (t ∷ i)
      → (discriminant t == 45) ≡ false
      → AllErrors (before_expr nom f64_from_str is_version laws stmt) (t ∷ i)
  errors t i h k =
      before_expr-errors nom f64_from_str is_version laws stmt (t ∷ i) h
        (Alternatives.assignment-error nom f64_from_str is_version laws stmt t i k)

  pub Takes-expr :
      (e : Expr) (s : Stmt) (i r r' : List Token)
      → Reads f64_from_str 0 e i r'
      → NoAssign r'
      → expr_stmt nom f64_from_str is_version i ≡ done r s
      → Takes s i r
  unfolding alternatives
  Takes-expr e s i r r' d w h =
      alt-nth nom f64_from_str is_version laws (before_expr nom f64_from_str is_version laws stmt)
        (expr_stmt nom f64_from_str is_version) _ i r s
        (before_expr-errors nom f64_from_str is_version laws stmt i
          (Start-NotKeyword (Reads-Start d))
          (Reads-assignment nom f64_from_str is_version laws d w))
        h

  -- the tail of the alternatives, for a keyword `t` that starts a statement behind an expression
  behind_expr :
      (t : Token) (i : List Token)
      → NotKeyword (t ∷ i)
      → (discriminant t == 45) ≡ false
      → parse_expression nom f64_from_str (t ∷ i) ≡ error
      → alternatives nom f64_from_str is_version stmt (t ∷ i)
        ≡ nom.alt
            (if_stmt nom f64_from_str is_version stmt
              ∷ import_stmt nom f64_from_str is_version
              ∷ let_assign_stmt nom f64_from_str is_version
              ∷ return_stmt nom f64_from_str is_version
              ∷ while_stmt nom f64_from_str is_version stmt
              ∷ [])
            (t ∷ i)
  unfolding alternatives
  behind_expr t i h k e =
      alt-skip nom f64_from_str is_version laws (before_expr nom f64_from_str is_version laws stmt)
        _ _ (t ∷ i) (errors t i h k)
      ∙ laws.alt-error (expr_stmt-error nom f64_from_str is_version laws (t ∷ i) e)

  pub Takes-if :
      (s : Stmt) (i r : List Token)
      → if_stmt nom f64_from_str is_version stmt (Token.if ∷ i) ≡ done r s
      → Takes s (Token.if ∷ i) r
  unfolding discriminant look_up
  Takes-if s i r h =
      behind_expr Token.if i (refl, refl, refl, refl, refl, refl, refl, refl) refl
        (parse_expression-error nom f64_from_str is_version laws Token.if i refl refl refl refl refl
          refl refl refl)
      ∙ laws.alt-done h

  pub Takes-import :
      (s : Stmt) (i r : List Token)
      → import_stmt nom f64_from_str is_version (Token.import ∷ i) ≡ done r s
      → Takes s (Token.import ∷ i) r
  unfolding discriminant look_up
  Takes-import s i r h =
      behind_expr Token.import i (refl, refl, refl, refl, refl, refl, refl, refl) refl
        (parse_expression-error nom f64_from_str is_version laws Token.import i refl refl refl refl
          refl refl refl refl)
      ∙ laws.alt-error
          (Alternatives.if_stmt-error nom f64_from_str is_version laws stmt Token.import _ refl)
      ∙ laws.alt-done h

  pub Takes-return :
      (s : Stmt) (i r : List Token)
      → return_stmt nom f64_from_str is_version (Token.return ∷ i) ≡ done r s
      → Takes s (Token.return ∷ i) r
  unfolding discriminant look_up
  Takes-return s i r h =
      behind_expr Token.return i (refl, refl, refl, refl, refl, refl, refl, refl) refl
        (parse_expression-error nom f64_from_str is_version laws Token.return i refl refl refl refl
          refl refl refl refl)
      ∙ laws.alt-error
          (Alternatives.if_stmt-error nom f64_from_str is_version laws stmt Token.return _ refl)
      ∙ laws.alt-error
          (Alternatives.import_stmt-error nom f64_from_str is_version laws stmt Token.return _ refl)
      ∙ laws.alt-error (
          Alternatives.let_assign_stmt-error nom f64_from_str is_version laws stmt Token.return _
            refl)
      ∙ laws.alt-done h

  pub Takes-while :
      (s : Stmt) (i r : List Token)
      → while_stmt nom f64_from_str is_version stmt (Token.while ∷ i) ≡ done r s
      → Takes s (Token.while ∷ i) r
  unfolding discriminant look_up
  Takes-while s i r h =
      behind_expr Token.while i (refl, refl, refl, refl, refl, refl, refl, refl) refl
        (parse_expression-error nom f64_from_str is_version laws Token.while i refl refl refl refl
          refl refl refl refl)
      ∙ laws.alt-error
          (Alternatives.if_stmt-error nom f64_from_str is_version laws stmt Token.while _ refl)
      ∙ laws.alt-error
          (Alternatives.import_stmt-error nom f64_from_str is_version laws stmt Token.while _ refl)
      ∙ laws.alt-error (
          Alternatives.let_assign_stmt-error nom f64_from_str is_version laws stmt Token.while _
            refl)
      ∙ laws.alt-error
          (Alternatives.return_stmt-error nom f64_from_str is_version laws stmt Token.while _ refl)
      ∙ laws.alt-done h
