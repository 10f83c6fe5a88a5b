-- ===== src/Dsl/Syntax/Pratt.antt =====
-- What the parsers of brane-dsl/src/parser/expression.rs give on one construct of the language, and
-- on the tokens that start no expression.
use brane.Prelude.{
  ℕ, suc, ◌≡◌, refl, ap, ◌∙◌, false, Option, none, some, String, List, [], ◌∷◌, ◌==◌,
}
use brane.Prelude.Codes.{codes}
use brane.Dsl.Ast.{Ident, Lit, UnOp, Expr, Stmt}
use brane.Dsl.Syntax.Token.{Token, discriminant, as_bool, as_i64, as_f64, as_string}
use brane.Dsl.Syntax.Parsed.{Parser, done, error, then', tag_token}
use brane.Dsl.Syntax.Nom.{Nom, NomLaws}
use brane.Dsl.Syntax.Operator.{unary_tokens, unary_operator, parse_identifier, parse_literal}
use brane.Dsl.Syntax.Expression.{
  exprs_of, stmts_of, head_and_rest, comma_list, instance_property_stmt, parse_instance, call_expr,
  expr_atom, pratt_prefix, pratt_loop, expr_pratt,
}
use brane.Dsl.Syntax.Grammar.{IsLiteral, NoParen, true', false', integer, real, string, unit}
use brane.Dsl.Syntax.Operators.{look_up, found, tag_miss, unary_operator_lem}

NoParen-tag : (i : List Token) → NoParen i → tag_token Token.left_paren i ≡ error
unfolding tag_token
NoParen-tag [] h = refl
NoParen-tag (t ∷ i) h = rw h refl

pub IsLiteral-not :
    {f64_from_str : String → Option ℕ} {l : Lit} (t : Token)
    → IsLiteral f64_from_str t l
    → ((discriminant t == 10) ≡ false) × ((discriminant t == 45) ≡ false)
unfolding discriminant
IsLiteral-not t true' = (refl, refl)
IsLiteral-not t false' = (refl, refl)
IsLiteral-not t (integer h) = (refl, refl)
IsLiteral-not t (real h) = (refl, refl)
IsLiteral-not t (string s) = (refl, refl)
IsLiteral-not t unit = (refl, refl)

pub IsLiteral-prefix :
    {f64_from_str : String → Option ℕ} {l : Lit} (t : Token)
    → IsLiteral f64_from_str t l
    → look_up unary_tokens t ≡ none
unfolding look_up discriminant
IsLiteral-prefix t true' = refl
IsLiteral-prefix t false' = refl
IsLiteral-prefix t (integer h) = refl
IsLiteral-prefix t (real h) = refl
IsLiteral-prefix t (string s) = refl
IsLiteral-prefix t unit = refl

module _ {nom : Nom} (f64_from_str : String → Option ℕ) (laws : NomLaws nom) where
  -- The rest of `expr_pratt`, once its first `match` has given an operand.
  pub expr_pratt-prefix :
      (f b : ℕ) (i : List Token) {r : List Token} {e : Expr}
      → pratt_prefix nom f64_from_str (expr_pratt nom f64_from_str f) i (unary_operator nom i)
        ≡ done r e
      → expr_pratt nom f64_from_str (suc f) b i
        ≡ pratt_loop nom f64_from_str (expr_pratt nom f64_from_str f) f b r e
  unfolding expr_pratt then'
  expr_pratt-prefix f b i h = rw h refl

  -- a token that is no prefix operator
  pub pratt_prefix-atom :
      (self : ℕ → Parser Expr) (t : Token) (i : List Token)
      → look_up unary_tokens t ≡ none
      → pratt_prefix nom f64_from_str self (t ∷ i) (unary_operator nom (t ∷ i))
        ≡ expr_atom nom f64_from_str (self 0) (t ∷ i)
  unfolding pratt_prefix
  pratt_prefix-atom self t i h = rw (unary_operator_lem f64_from_str laws t i) (rw h refl)

  pub pratt_prefix-operator :
      (self : ℕ → Parser Expr) (t : Token) (i : List Token) {op : UnOp}
      → look_up unary_tokens t ≡ some op
      → pratt_prefix nom f64_from_str self (t ∷ i) (unary_operator nom (t ∷ i))
        ≡ pratt_prefix nom f64_from_str self (t ∷ i) (done i op)
  pratt_prefix-operator self t i h =
      ap (pratt_prefix nom f64_from_str self (t ∷ i))
        (unary_operator_lem f64_from_str laws t i ∙ ap (found i) h)

  pub parse_identifier-done :
      (x : Ident) (i : List Token) → parse_identifier nom (Token.ident x ∷ i) ≡ done i x
  unfolding parse_identifier tag_token discriminant as_string
  parse_identifier-done x i = laws.map-done refl refl

  pub parse_identifier-error :
      (t : Token) (i : List Token)
      → (discriminant t == 45) ≡ false
      → parse_identifier nom (t ∷ i) ≡ error
  unfolding parse_identifier discriminant
  parse_identifier-error t i h = laws.map-error (tag_miss (Token.ident "") t i h)

  parse_literal-done :
      {t : Token} {l : Lit} (i : List Token)
      → IsLiteral f64_from_str t l
      → parse_literal nom f64_from_str (t ∷ i) ≡ done i l
  unfolding parse_literal tag_token discriminant as_bool as_i64 as_f64 as_string codes
  parse_literal-done i true' = laws.alt-done (laws.map-done refl refl)
  parse_literal-done i false' = laws.alt-done (laws.map-done refl refl)
  parse_literal-done i (integer h) =
      laws.alt-error (laws.map-error refl) ∙ laws.alt-done (laws.map-done refl (rw h refl))
  parse_literal-done i (real h) =
      laws.alt-error (laws.map-error refl)
      ∙ laws.alt-error (laws.map-error refl)
      ∙ laws.alt-done (laws.map-done refl (rw h refl))
  parse_literal-done i (string s) =
      laws.alt-error (laws.map-error refl)
      ∙ laws.alt-error (laws.map-error refl)
      ∙ laws.alt-error (laws.map-error refl)
      ∙ laws.alt-done (laws.map-done refl refl)
  parse_literal-done i unit =
      laws.alt-error (laws.map-error refl)
      ∙ laws.alt-error (laws.map-error refl)
      ∙ laws.alt-error (laws.map-error refl)
      ∙ laws.alt-error (laws.map-error refl)
      ∙ laws.alt-last _ _
      ∙ laws.map-done refl refl

  pub parse_literal-error :
      (t : Token) (i : List Token)
      → (discriminant t == 40) ≡ false
      → (discriminant t == 41) ≡ false
      → (discriminant t == 42) ≡ false
      → (discriminant t == 44) ≡ false
      → (discriminant t == 15) ≡ false
      → parse_literal nom f64_from_str (t ∷ i) ≡ error
  unfolding parse_literal discriminant
  parse_literal-error t i h₁ h₂ h₃ h₄ h₅ =
      laws.alt-error (laws.map-error (tag_miss (Token.boolean "") t i h₁))
      ∙ laws.alt-error (laws.map-error (tag_miss (Token.integer "") t i h₂))
      ∙ laws.alt-error (laws.map-error (tag_miss (Token.real "") t i h₃))
      ∙ laws.alt-error (laws.map-error (tag_miss (Token.string "") t i h₄))
      ∙ laws.alt-last _ _
      ∙ laws.map-error (tag_miss Token.unit t i h₅)

  module _ (expression : Parser Expr) where
    pub parse_instance-error :
        (t : Token) (i : List Token)
        → (discriminant t == 10) ≡ false
        → parse_instance nom f64_from_str expression (t ∷ i) ≡ error
    unfolding parse_instance discriminant
    parse_instance-error t i h = laws.map-error (laws.preceded-error (tag_miss Token.new t i h))

    pub call_expr-error :
        (t : Token) (i : List Token)
        → (discriminant t == 45) ≡ false
        → call_expr nom f64_from_str expression (t ∷ i) ≡ error
    unfolding call_expr
    call_expr-error t i h = laws.map-error (laws.pair-error (parse_identifier-error t i h))

    -- A token that starts no expression is an error, at which an alternative gives way to the next.
    pub expr_atom-error :
        (t : Token) (i : List Token)
        → (discriminant t == 10) ≡ false
        → (discriminant t == 45) ≡ false
        → (discriminant t == 40) ≡ false
        → (discriminant t == 41) ≡ false
        → (discriminant t == 42) ≡ false
        → (discriminant t == 44) ≡ false
        → (discriminant t == 15) ≡ false
        → expr_atom nom f64_from_str expression (t ∷ i) ≡ error
    unfolding expr_atom
    expr_atom-error t i k₁ k₂ h₁ h₂ h₃ h₄ h₅ =
        laws.alt-error (parse_instance-error t i k₁)
        ∙ laws.alt-error (call_expr-error t i k₂)
        ∙ laws.alt-error (laws.map-error (parse_literal-error t i h₁ h₂ h₃ h₄ h₅))
        ∙ laws.alt-last _ _
        ∙ laws.map-error (parse_identifier-error t i k₂)

    pub expr_atom-literal :
        {t : Token} {l : Lit} (i : List Token)
        → IsLiteral f64_from_str t l
        → expr_atom nom f64_from_str expression (t ∷ i) ≡ done i (Expr.literal l)
    unfolding expr_atom
    expr_atom-literal {t} i h =
        laws.alt-error (parse_instance-error t i ((IsLiteral-not t h).0))
        ∙ laws.alt-error (call_expr-error t i ((IsLiteral-not t h).1))
        ∙ laws.alt-done (laws.map-done (parse_literal-done i h) refl)

    pub expr_atom-ident :
        (x : Ident) (i : List Token)
        → NoParen i
        → expr_atom nom f64_from_str expression (Token.ident x ∷ i) ≡ done i (Expr.ident x)
    unfolding expr_atom discriminant call_expr
    expr_atom-ident x i h =
        laws.alt-error (parse_instance-error (Token.ident x) i refl)
        ∙ laws.alt-error (
            laws.map-error (
              laws.pair-second (parse_identifier-done x i)
                (laws.delimited-error (NoParen-tag i h))))
        ∙ laws.alt-error
            (laws.map-error (parse_literal-error (Token.ident x) i refl refl refl refl refl))
        ∙ laws.alt-last _ _
        ∙ laws.map-done (parse_identifier-done x i) refl

    pub expr_atom-call :
        (x : Ident) (i r : List Token) (o : Option (Expr × List Expr))
        → nom.opt (comma_list nom f64_from_str expression) i ≡ done (Token.right_paren ∷ r) o
        → expr_atom nom f64_from_str expression (Token.ident x ∷ Token.left_paren ∷ i)
          ≡ done r (Expr.call x (exprs_of (head_and_rest o)))
    unfolding expr_atom discriminant call_expr tag_token
    expr_atom-call x i r o h =
        laws.alt-error (parse_instance-error (Token.ident x) _ refl)
        ∙ laws.alt-done (
            laws.map-done
              (laws.pair-done (parse_identifier-done x _) (laws.delimited-done refl h refl)) refl)

    pub expr_atom-instance :
        (x : Ident) (i r : List Token) (o : Option (Stmt × List Stmt))
        → nom.opt
            (comma_list nom f64_from_str (instance_property_stmt nom f64_from_str expression))
            i
          ≡ done (Token.right_brace ∷ r) o
        → expr_atom nom f64_from_str expression (Token.new ∷ Token.ident x ∷ Token.left_brace ∷ i)
          ≡ done r (Expr.instance' x (stmts_of (head_and_rest o)))
    unfolding expr_atom discriminant parse_instance tag_token
    expr_atom-instance x i r o h = laws.alt-done (
        laws.map-done
          (laws.preceded-done refl (
            laws.cut-done
              (laws.pair-done (parse_identifier-done x _) (laws.delimited-done refl h refl))))
          refl)

    pub instance_property_stmt-done :
        (x : Ident) (i r : List Token) (e : Expr)
        → expression i ≡ done r e
        → instance_property_stmt nom f64_from_str expression (Token.ident x ∷ Token.assign ∷ i)
          ≡ done r (Stmt.assign x e)
    unfolding instance_property_stmt tag_token discriminant
    instance_property_stmt-done x i r e h =
        laws.map-done (laws.separated_pair-done (parse_identifier-done x _) refl h) refl

  pub expr_pratt-error :
      (f b : ℕ) (t : Token) (i : List Token)
      → look_up unary_tokens t ≡ none
      → expr_atom nom f64_from_str (expr_pratt nom f64_from_str f 0) (t ∷ i) ≡ error
      → expr_pratt nom f64_from_str (suc f) b (t ∷ i) ≡ error
  unfolding expr_pratt then'
  expr_pratt-error f b t i u h =
      rw (pratt_prefix-atom (expr_pratt nom f64_from_str f) t i u) (rw h refl)
