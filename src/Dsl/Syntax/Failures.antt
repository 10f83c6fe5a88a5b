-- ===== src/Dsl/Syntax/Failures.antt =====
-- Where `expression::parse` of brane-dsl/src/parser/expression.rs gives no expression and no error.
use brane.Prelude.{ℕ, zero, suc, ◌<◌, ◌≡◌, refl, ◌∙◌, Option, none, String, List, ◌∷◌, length}
use brane.Prelude.Codes.{codes}
use brane.Dsl.Ast.{Ident, UnOp, Expr}
use brane.Dsl.Syntax.Token.{Token, discriminant, as_i64, parse_i64}
use brane.Dsl.Syntax.Parsed.{ParsedOf, Parser, done, error, spent, then', tag_token}
use brane.Dsl.Syntax.Nom.{Nom, NomLaws}
use brane.Dsl.Syntax.Operator.{unary_power, parse_literal}
use brane.Dsl.Syntax.Expression.{
  call_expr, expr_atom, pratt_round, pratt_loop, expr_pratt, parse_expression,
}
use brane.Dsl.Syntax.Grammar.{Reads, Below}
use brane.Dsl.Syntax.Operators.{look_up, tag_miss, parse_operator_lem}
use brane.Dsl.Syntax.Pratt.{
  expr_pratt-prefix, pratt_prefix-atom, parse_identifier-done, parse_literal-error,
  parse_instance-error, call_expr-error,
}
use brane.Dsl.Syntax.Precedence.{Reads-expr_pratt}
use brane.Dsl.Syntax.Alternatives.{Differs}

module _ (nom : Nom) (f64_from_str : String → Option ℕ) (laws : NomLaws nom) where
  -- The round for a parenthesis wraps the expression and takes no token.
  pratt_loop-paren :
      (self : ℕ → Parser Expr) (n : ℕ) (i : List Token) (e : Expr)
      → pratt_loop nom f64_from_str self n 0 (Token.left_paren ∷ i) e ≡ spent
  unfolding pratt_loop pratt_round unary_power look_up discriminant
  pratt_loop-paren self zero i e = refl
  pratt_loop-paren self (suc n) i e =
      rw (parse_operator_lem f64_from_str laws Token.left_paren i)
        (pratt_loop-paren self n i (Expr.unary UnOp.prio e))

  -- A call whose first argument is not followed by a comma or the parenthesis is no call,
  call_expr-unclosed :
      (x : Ident) (e : Expr) (t : Token) (i r : List Token) (f : ℕ)
      → expr_pratt nom f64_from_str f 0 i ≡ done (t ∷ r) e
      → Differs t Token.comma
      → Differs t Token.right_paren
      → call_expr nom f64_from_str
          (expr_pratt nom f64_from_str f 0)
          (Token.ident x ∷ Token.left_paren ∷ i)
        ≡ error
  unfolding call_expr tag_token discriminant
  call_expr-unclosed x e t i r f h k l = laws.map-error (
      laws.pair-second (parse_identifier-done f64_from_str laws x _) (
        laws.delimited-third refl
          (laws.opt-done (
            laws.pair-done h (laws.many0-error (laws.preceded-error (tag_miss Token.comma t r k)))))
          (tag_miss Token.right_paren t r l)))

  -- so that its name is read as an expression, with the parenthesis behind it.
  expr_atom-unclosed :
      (x : Ident) (i : List Token) (self : Parser Expr)
      → call_expr nom f64_from_str self (Token.ident x ∷ Token.left_paren ∷ i) ≡ error
      → expr_atom nom f64_from_str self (Token.ident x ∷ Token.left_paren ∷ i)
        ≡ done (Token.left_paren ∷ i) (Expr.ident x)
  unfolding expr_atom discriminant
  expr_atom-unclosed x i self h =
      laws.alt-error (parse_instance-error f64_from_str laws self (Token.ident x) _ refl)
      ∙ laws.alt-error h
      ∙ laws.alt-error (
          laws.map-error
            (parse_literal-error f64_from_str laws (Token.ident x) _ refl refl refl refl refl))
      ∙ laws.alt-last _ _
      ∙ laws.map-done (parse_identifier-done f64_from_str laws x _) refl

  -- The parser does not end on a call `x(e` whose argument `e` is followed by a token that is
  -- neither a comma nor the closing parenthesis, nor continues the argument: with any fuel `f`
  -- above the count of tokens behind the parenthesis, its loop uses up the fuel.
  pub expr_pratt-unclosed :
      (x : Ident) (e : Expr) (t : Token) (i r : List Token)
      → Reads f64_from_str 0 e i (t ∷ r)
      → Below 0 (t ∷ r)
      → Differs t Token.comma
      → Differs t Token.right_paren
      → (f : ℕ) → length i < f
      → expr_pratt nom f64_from_str (suc f) 0 (Token.ident x ∷ Token.left_paren ∷ i) ≡ spent
  unfolding look_up discriminant
  expr_pratt-unclosed x e t i r d w k l f h =
      expr_pratt-prefix f64_from_str laws f 0 _ (
        pratt_prefix-atom f64_from_str laws (expr_pratt nom f64_from_str f) (Token.ident x) _ refl
        ∙ expr_atom-unclosed x i (expr_pratt nom f64_from_str f 0)
            (call_expr-unclosed x e t i r f (Reads-expr_pratt nom f64_from_str laws d w f h) k l))
      ∙ pratt_loop-paren (expr_pratt nom f64_from_str f) f i (Expr.ident x)

  parse_literal-panic :
      (s : String) (i : List Token)
      → parse_i64 (codes s) ≡ none
      → parse_literal nom f64_from_str (Token.integer s ∷ i) ≡ ParsedOf.panic
  unfolding parse_literal tag_token discriminant as_i64
  parse_literal-panic s i h =
      laws.alt-error (laws.map-error refl) ∙ laws.alt-panic (laws.map-panic refl (rw h refl))

  -- An expression that starts with an integer token whose text `i64::from_str` refuses, as an
  -- integer above the maximum or one with underscores, is a panic and no parse error.
  pub parse_expression-panic :
      (s : String) (i : List Token)
      → parse_i64 (codes s) ≡ none
      → parse_expression nom f64_from_str (Token.integer s ∷ i) ≡ ParsedOf.panic
  unfolding parse_expression expr_pratt expr_atom then' look_up discriminant
  parse_expression-panic s i h =
      rw
        (pratt_prefix-atom f64_from_str laws (expr_pratt nom f64_from_str (suc (length i)))
            (Token.integer s) i refl
          ∙ atom)
        refl
    where
      atom :
          expr_atom nom f64_from_str
            (expr_pratt nom f64_from_str (suc (length i)) 0)
            (Token.integer s ∷ i)
          ≡ ParsedOf.panic
      atom =
          laws.alt-error (parse_instance-error f64_from_str laws _ (Token.integer s) i refl)
          ∙ laws.alt-error (call_expr-error f64_from_str laws _ (Token.integer s) i refl)
          ∙ laws.alt-panic (laws.map-passes (parse_literal-panic s i h))
