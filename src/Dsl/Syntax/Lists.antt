-- ===== src/Dsl/Syntax/Lists.antt =====
-- The lists in an expression: arguments, entries of an array and properties of an instance.
use brane.Prelude.{
  ℕ, zero, suc, ◌<◌, ◌≡◌, refl, Option, none, some, String, List, [], ◌∷◌, length, arith,
}
use brane.Dsl.Ast.{UnOp, Expr, Stmt}
use brane.Dsl.Syntax.Token.{Token, discriminant}
use brane.Dsl.Syntax.Parsed.{Parser, done, error, then', tag_token}
use brane.Dsl.Syntax.Nom.{Nom, NomLaws}
use brane.Dsl.Syntax.Expression.{
  exprs_of, head_and_rest, comma_list, array_entries, instance_property_stmt, pratt_prefix,
  expr_pratt,
}
use brane.Dsl.Syntax.Grammar.{Closes, paren, bracket, trailing}
use brane.Dsl.Syntax.Operators.{look_up}
use brane.Dsl.Syntax.Pratt.{expr_pratt-error, expr_atom-error, parse_identifier-error}

-- what `opt` gives for a list
abbrev pub to_opt : {A : Type 0} → List A → Option (A × List A)
to_opt [] = none
to_opt (x ∷ xs) = some (x, xs)

pub head_and_rest-to_opt : {A : Type 0} (xs : List A) → head_and_rest (to_opt xs) ≡ xs
head_and_rest-to_opt [] = refl
head_and_rest-to_opt (x ∷ xs) = refl

module _ (nom : Nom) (f64_from_str : String → Option ℕ) (laws : NomLaws nom) where
  pub Closes-error :
      {r : List Token} → Closes r → (f b : ℕ) → expr_pratt nom f64_from_str (suc f) b r ≡ error
  unfolding look_up discriminant
  Closes-error (paren {r}) f b = expr_pratt-error f64_from_str laws f b Token.right_paren r refl (
      expr_atom-error f64_from_str laws (expr_pratt nom f64_from_str f 0) Token.right_paren r refl
        refl refl refl refl refl refl)
  Closes-error (bracket {r}) f b =
      expr_pratt-error f64_from_str laws f b Token.right_bracket r refl (
        expr_atom-error f64_from_str laws (expr_pratt nom f64_from_str f 0) Token.right_bracket r
          refl refl refl refl refl refl refl)
  Closes-error (trailing {r}) f b =
      expr_pratt-error f64_from_str laws f b Token.comma (Token.right_bracket ∷ r) refl (
        expr_atom-error f64_from_str laws (expr_pratt nom f64_from_str f 0) Token.comma
          (Token.right_bracket ∷ r) refl refl refl refl refl refl refl)

  pub Closes-enough :
      {r : List Token} → Closes r → (f b : ℕ) → 0 < f → expr_pratt nom f64_from_str f b r ≡ error
  Closes-enough c zero b h = absurd (omega arith)
  Closes-enough c (suc f) b h = Closes-error c f b

  pub more_end :
      {r : List Token}
      → Closes r
      → (f : ℕ) → length r < f
      → nom.many0 (nom.preceded (tag_token Token.comma) (expr_pratt nom f64_from_str f 0)) r
        ≡ done r []
  unfolding tag_token discriminant
  more_end c zero h = absurd (omega arith)
  more_end paren (suc f) h = laws.many0-error (laws.preceded-error refl)
  more_end bracket (suc f) h = laws.many0-error (laws.preceded-error refl)
  more_end trailing (suc f) h =
      laws.many0-error (laws.preceded-second refl (Closes-error bracket f 0))

  pub more_next :
      {A : Type 0} (item : Parser A) (x : A) (xs : List A) (i s r : List Token)
      → item i ≡ done s x
      → length s < length i
      → nom.many0 (nom.preceded (tag_token Token.comma) item) s ≡ done r xs
      → nom.many0 (nom.preceded (tag_token Token.comma) item) (Token.comma ∷ i) ≡ done r (x ∷ xs)
  unfolding tag_token discriminant
  more_next item x xs i s r h l k = laws.many0-done (laws.preceded-done refl h) (omega arith) k

  pub no_items_run :
      {r : List Token}
      → Closes r
      → (f : ℕ) → length r < f
      → nom.opt (comma_list nom f64_from_str (expr_pratt nom f64_from_str f 0)) r ≡ done r none
  no_items_run c zero h = absurd (omega arith)
  no_items_run c (suc f) h = laws.opt-error (laws.pair-error (Closes-error c f 0))

  module _ (self : ℕ → Parser Expr) where
    entries_run :
        (i r : List Token) (o : Option (Expr × List Expr))
        → array_entries nom f64_from_str (self 0) i ≡ done r o
        → pratt_prefix nom f64_from_str self (Token.left_bracket ∷ i) (done i UnOp.idx)
          ≡ done r (Expr.array (exprs_of (head_and_rest o)))
    unfolding pratt_prefix then'
    entries_run i r o h = rw h refl

    pub array_run :
        (e : Expr) (es : List Expr) (i r : List Token)
        → comma_list nom f64_from_str (self 0) i ≡ done (Token.right_bracket ∷ r) (e, es)
        → pratt_prefix nom f64_from_str self (Token.left_bracket ∷ i) (done i UnOp.idx)
          ≡ done r (Expr.array (exprs_of (e ∷ es)))
    unfolding array_entries tag_token discriminant
    array_run e es i r h =
        entries_run i r (some (e, es))
          (laws.terminated-done (laws.opt-done (laws.terminated-done h (laws.opt-error refl))) refl)

    pub array_trailing_run :
        (e : Expr) (es : List Expr) (i r : List Token)
        → comma_list nom f64_from_str (self 0) i
          ≡ done (Token.comma ∷ Token.right_bracket ∷ r) (e, es)
        → pratt_prefix nom f64_from_str self (Token.left_bracket ∷ i) (done i UnOp.idx)
          ≡ done r (Expr.array (exprs_of (e ∷ es)))
    unfolding array_entries tag_token discriminant
    array_trailing_run e es i r h =
        entries_run i r (some (e, es))
          (laws.terminated-done (laws.opt-done (laws.terminated-done h (laws.opt-done refl))) refl)

    pub array_empty_run :
        (r : List Token)
        → self 0 (Token.right_bracket ∷ r) ≡ error
        → pratt_prefix nom f64_from_str self
            (Token.left_bracket ∷ Token.right_bracket ∷ r)
            (done (Token.right_bracket ∷ r) UnOp.idx)
          ≡ done r (Expr.array (exprs_of []))
    unfolding array_entries tag_token discriminant
    array_empty_run r h =
        entries_run (Token.right_bracket ∷ r) r none
          (laws.terminated-done (laws.opt-error (laws.terminated-error (laws.pair-error h))) refl)

  pub no_fields_run :
      (expression : Parser Expr) (r : List Token)
      → nom.opt
          (comma_list nom f64_from_str (instance_property_stmt nom f64_from_str expression))
          (Token.right_brace ∷ r)
        ≡ done (Token.right_brace ∷ r) none
  unfolding instance_property_stmt discriminant
  no_fields_run expression r = laws.opt-error (
      laws.pair-error (
        laws.map-error (
          laws.separated_pair-error
            (parse_identifier-error f64_from_str laws Token.right_brace r refl))))

  pub more_fields_end :
      (item : Parser Stmt) (r : List Token)
      → nom.many0 (nom.preceded (tag_token Token.comma) item) (Token.right_brace ∷ r)
        ≡ done (Token.right_brace ∷ r) []
  unfolding tag_token discriminant
  more_fields_end item r = laws.many0-error (laws.preceded-error refl)

  pub more_end_bracket :
      {A : Type 0} (item : Parser A) (r : List Token)
      → nom.many0 (nom.preceded (tag_token Token.comma) item) (Token.right_bracket ∷ r)
        ≡ done (Token.right_bracket ∷ r) []
  unfolding tag_token discriminant
  more_end_bracket item r = laws.many0-error (laws.preceded-error refl)
