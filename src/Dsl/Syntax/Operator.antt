-- ===== src/Dsl/Syntax/Operator.antt =====
-- brane-dsl/src/parser/operator.rs, identifier.rs and literal.rs
use brane.Prelude.{ℕ, Option, some, String, List, [], ◌∷◌}
use mathlib.Core.Option
use brane.Dsl.Ast.{Ident, Lit, BinOp, UnOp}
use brane.Dsl.Syntax.Token.{Token, as_bool, as_i64, as_f64, as_string}
use brane.Dsl.Syntax.Parsed.{Parser, tag_token}
use brane.Dsl.Syntax.Nom.{Nom}

pub data Operator : Type 0 where
  binary : BinOp → Operator
  unary : UnOp → Operator

-- `UnOp::binding_power`
unfoldable pub unary_power : UnOp → ℕ × ℕ
unary_power UnOp.not' = (0, 11)
unary_power UnOp.neg = (0, 11)
unary_power UnOp.idx = (11, 0)
unary_power UnOp.prio = (0, 0)

-- The alternatives of `binary_operator` and of `unary_operator`, in their order
abbrev pub binary_tokens : List (Token × BinOp)
binary_tokens =
    (Token.and, BinOp.and)
    ∷ (Token.equal, BinOp.eq)
    ∷ (Token.greater, BinOp.gt)
    ∷ (Token.greater_or_equal, BinOp.ge)
    ∷ (Token.less, BinOp.lt)
    ∷ (Token.less_or_equal, BinOp.le)
    ∷ (Token.minus, BinOp.sub)
    ∷ (Token.not_equal, BinOp.ne)
    ∷ (Token.or, BinOp.or)
    ∷ (Token.plus, BinOp.add)
    ∷ (Token.slash, BinOp.div)
    ∷ (Token.star, BinOp.mul)
    ∷ (Token.dot, BinOp.dot)
    ∷ []

abbrev pub unary_tokens : List (Token × UnOp)
unary_tokens =
    (Token.not', UnOp.not')
    ∷ (Token.minus, UnOp.neg)
    ∷ (Token.left_bracket, UnOp.idx)
    ∷ (Token.left_paren, UnOp.prio)
    ∷ []

module _ (nom : Nom) where
  -- `comb::map(tag_token!(Token::$variant), |_| operator)` for each of the alternatives
  unfoldable pub operator_tags : {A : Type 0} → List (Token × A) → List (Parser A)
  operator_tags [] = []
  operator_tags ((variant, operator) ∷ rest) =
      nom.map (tag_token variant) (λ _. some operator) ∷ operator_tags rest

  unfoldable pub binary_operator : Parser BinOp
  binary_operator = nom.alt (operator_tags binary_tokens)

  unfoldable pub unary_operator : Parser UnOp
  unary_operator = nom.alt (operator_tags unary_tokens)

  -- `operator::parse`
  unfoldable pub parse_operator : Parser Operator
  parse_operator = nom.alt (
      nom.map binary_operator (λ operator. some (Operator.binary operator))
      ∷ nom.map unary_operator (λ operator. some (Operator.unary operator))
      ∷ [])

  -- `identifier::parse`
  unfoldable pub parse_identifier : Parser Ident
  parse_identifier = nom.map (tag_token (Token.ident "")) as_string

  -- `literal::parse`
  unfoldable pub parse_literal : (String → Option ℕ) → Parser Lit
  parse_literal f64_from_str = nom.alt (
      nom.map (tag_token (Token.boolean "")) (λ t. Option.map Lit.boolean (as_bool t))
      ∷ nom.map (tag_token (Token.integer "")) (λ t. Option.map Lit.integer (as_i64 t))
      ∷ nom.map (tag_token (Token.real "")) (λ t. Option.map Lit.real (as_f64 f64_from_str t))
      ∷ nom.map (tag_token (Token.string "")) (λ t. Option.map Lit.string (as_string t))
      ∷ nom.map (tag_token Token.unit) (λ _. some Lit.unit)
      ∷ [])
