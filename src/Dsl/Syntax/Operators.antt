-- ===== src/Dsl/Syntax/Operators.antt =====
-- What the parsers of brane-dsl/src/parser/operator.rs give, by the first token.
use brane.Prelude.{
  ℕ, suc, ◌≡◌, refl, ap, ◌∙◌, Bool-cases, inl, inr, true, false, Option, none, some, String, List,
  [], ◌∷◌, lt→ltb, ◌==◌, if◌then◌else◌,
}
use brane.Dsl.Ast.{BinOp, UnOp, Expr, binding_power}
use brane.Dsl.Syntax.Token.{Token, discriminant}
use brane.Dsl.Syntax.Parsed.{Parsed, Parser, done, error, tag_token}
use brane.Dsl.Syntax.Nom.{Nom, NomLaws}
use brane.Dsl.Syntax.Operator.{
  Operator, unary_power, binary_tokens, unary_tokens, operator_tags, binary_operator,
  unary_operator, parse_operator,
}
use brane.Dsl.Syntax.Expression.{pratt_round, pratt_loop}
use brane.Dsl.Syntax.Grammar.{spelling, left_power, IsBelow, Below}

-- the operator of a token, and no other
unfoldable pub look_up : {A : Type 0} → List (Token × A) → Token → Option A
look_up [] t = none
look_up ((variant, operator) ∷ rest) t =
    if discriminant t == discriminant variant then some operator else look_up rest t

abbrev pub found : {A : Type 0} → List Token → Option A → Parsed A
found i none = error
found i (some operator) = done i operator

pub tag_hit :
    (v t : Token) (i : List Token)
    → (discriminant t == discriminant v) ≡ true
    → tag_token v (t ∷ i) ≡ done i t
unfolding tag_token
tag_hit v t i h = rw h refl

pub tag_miss :
    (v t : Token) (i : List Token)
    → (discriminant t == discriminant v) ≡ false
    → tag_token v (t ∷ i) ≡ error
unfolding tag_token
tag_miss v t i h = rw h refl

pub look_up-hit :
    {A : Type 0} (v : Token) (o : A) (rest : List (Token × A)) (t : Token)
    → (discriminant t == discriminant v) ≡ true
    → look_up ((v, o) ∷ rest) t ≡ some o
unfolding look_up
look_up-hit v o rest t h = rw h refl

pub look_up-miss :
    {A : Type 0} (v : Token) (o : A) (rest : List (Token × A)) (t : Token)
    → (discriminant t == discriminant v) ≡ false
    → look_up ((v, o) ∷ rest) t ≡ look_up rest t
unfolding look_up
look_up-miss v o rest t h = rw h refl

abbrev operator_of : List Token → Option BinOp → Option UnOp → Parsed Operator
operator_of i (some op) u = done i (Operator.binary op)
operator_of i none (some op) = done i (Operator.unary op)
operator_of i none none = error

abbrev power_at : Option BinOp → Option UnOp → Option ℕ
power_at (some op) u = some ((binding_power op).0)
power_at none (some op) = some ((unary_power op).0)
power_at none none = none

look_up-spelling : (op : BinOp) → look_up binary_tokens (spelling op) ≡ some op
unfolding look_up discriminant
look_up-spelling BinOp.add = refl
look_up-spelling BinOp.sub = refl
look_up-spelling BinOp.mul = refl
look_up-spelling BinOp.div = refl
look_up-spelling BinOp.dot = refl
look_up-spelling BinOp.and = refl
look_up-spelling BinOp.or = refl
look_up-spelling BinOp.eq = refl
look_up-spelling BinOp.lt = refl
look_up-spelling BinOp.le = refl
look_up-spelling BinOp.ne = refl
look_up-spelling BinOp.ge = refl
look_up-spelling BinOp.gt = refl

-- The operators and the powers of the code are those of the grammar.
left_power_lem :
    (t : Token) → left_power t ≡ power_at (look_up binary_tokens t) (look_up unary_tokens t)
unfolding look_up discriminant left_power binding_power unary_power
left_power_lem Token.and = refl
left_power_lem Token.break = refl
left_power_lem Token.class = refl
left_power_lem Token.continue = refl
left_power_lem Token.else' = refl
left_power_lem Token.for = refl
left_power_lem Token.function = refl
left_power_lem Token.if = refl
left_power_lem Token.import = refl
left_power_lem Token.let' = refl
left_power_lem Token.new = refl
left_power_lem Token.on = refl
left_power_lem Token.or = refl
left_power_lem Token.parallel = refl
left_power_lem Token.return = refl
left_power_lem Token.unit = refl
left_power_lem Token.while = refl
left_power_lem Token.dot = refl
left_power_lem Token.colon = refl
left_power_lem Token.comma = refl
left_power_lem Token.left_brace = refl
left_power_lem Token.left_bracket = refl
left_power_lem Token.left_paren = refl
left_power_lem Token.right_brace = refl
left_power_lem Token.right_bracket = refl
left_power_lem Token.right_paren = refl
left_power_lem Token.semicolon = refl
left_power_lem Token.assign = refl
left_power_lem Token.equal = refl
left_power_lem Token.greater = refl
left_power_lem Token.greater_or_equal = refl
left_power_lem Token.less = refl
left_power_lem Token.less_or_equal = refl
left_power_lem Token.minus = refl
left_power_lem Token.not' = refl
left_power_lem Token.not_equal = refl
left_power_lem Token.plus = refl
left_power_lem Token.slash = refl
left_power_lem Token.star = refl
left_power_lem Token.none' = refl
left_power_lem (Token.boolean _) = refl
left_power_lem (Token.integer _) = refl
left_power_lem (Token.real _) = refl
left_power_lem (Token.sem_ver _) = refl
left_power_lem (Token.string _) = refl
left_power_lem (Token.ident _) = refl

IsBelow-power :
    (b : ℕ) (t : Token) (i : List Token)
    → Below b (t ∷ i)
    → IsBelow b (power_at (look_up binary_tokens t) (look_up unary_tokens t))
unfolding Below
IsBelow-power b t i h = rw (← left_power_lem t) h

stops_at :
    (nom : Nom) (f64_from_str : String → Option ℕ) (self : ℕ → Parser Expr)
    (next : List Token → Expr → Parsed Expr) (b : ℕ) (r : List Token) (e : Expr) (i : List Token)
    (o : Option BinOp) (u : Option UnOp)
    → IsBelow b (power_at o u)
    → pratt_round nom f64_from_str self next b r e (operator_of i o u) ≡ done r e
unfolding pratt_round unary_power
stops_at nom f self next b r e i (some op) u h = rw (lt→ltb ((binding_power op).0) b h) refl
stops_at nom f self next b r e i none (some UnOp.idx) h = rw (lt→ltb 11 b h) refl
stops_at nom f self next b r e i none (some UnOp.not') h = rw (lt→ltb 0 b h) refl
stops_at nom f self next b r e i none (some UnOp.neg) h = rw (lt→ltb 0 b h) refl
stops_at nom f self next b r e i none (some UnOp.prio) h = rw (lt→ltb 0 b h) refl
stops_at nom f self next b r e i none none h = refl

module _ {nom : Nom} (f64_from_str : String → Option ℕ) (laws : NomLaws nom) where
  operator_tags_lem :
      {A : Type 0} (variant : Token) (operator : A) (rest : List (Token × A)) (t : Token)
      (i : List Token)
      → nom.alt (operator_tags nom ((variant, operator) ∷ rest)) (t ∷ i)
        ≡ found i (look_up ((variant, operator) ∷ rest) t)
  unfolding operator_tags look_up
  operator_tags_lem variant operator [] t i =
      elim (Bool-cases (discriminant t == discriminant variant)) [
        | inl h ↦
            rw (look_up-hit variant operator _ t h)
              (laws.alt-done (laws.map-done (tag_hit variant t i h) refl))
        | inr h ↦
            rw (look_up-miss variant operator _ t h)
              (laws.alt-last _ _ ∙ laws.map-error (tag_miss variant t i h))
      ]
  operator_tags_lem variant operator ((v, o) ∷ rest) t i =
      elim (Bool-cases (discriminant t == discriminant variant)) [
        | inl h ↦
            rw (look_up-hit variant operator _ t h)
              (laws.alt-done (laws.map-done (tag_hit variant t i h) refl))
        | inr h ↦ rw (look_up-miss variant operator _ t h) (
            laws.alt-error (laws.map-error (tag_miss variant t i h))
            ∙ operator_tags_lem v o rest t i)
      ]

  tags_on_empty :
      {A : Type 0} (variant : Token) (operator : A) (rest : List (Token × A))
      → nom.alt (operator_tags nom ((variant, operator) ∷ rest)) [] ≡ error
  unfolding operator_tags tag_token
  tags_on_empty variant operator [] = laws.alt-last _ _ ∙ laws.map-error refl
  tags_on_empty variant operator ((v, o) ∷ rest) =
      laws.alt-error (laws.map-error refl) ∙ tags_on_empty v o rest

  pub unary_operator_lem :
      (t : Token) (i : List Token) → unary_operator nom (t ∷ i) ≡ found i (look_up unary_tokens t)
  unfolding unary_operator
  unary_operator_lem t i = operator_tags_lem _ _ _ t i

  binary_operator_lem :
      (t : Token) (i : List Token) → binary_operator nom (t ∷ i) ≡ found i (look_up binary_tokens t)
  unfolding binary_operator
  binary_operator_lem t i = operator_tags_lem _ _ _ t i

  unary_operator_empty : unary_operator nom [] ≡ error
  unfolding unary_operator
  unary_operator_empty = tags_on_empty _ _ _

  -- A binary operator is tried first.
  pub parse_operator_lem :
      (t : Token) (i : List Token)
      → parse_operator nom (t ∷ i)
        ≡ operator_of i (look_up binary_tokens t) (look_up unary_tokens t)
  unfolding parse_operator
  parse_operator_lem t i =
      go (look_up binary_tokens t) (look_up unary_tokens t) (binary_operator_lem t i)
        (unary_operator_lem t i)
    where
      go :
          (b : Option BinOp) (u : Option UnOp)
          → binary_operator nom (t ∷ i) ≡ found i b
          → unary_operator nom (t ∷ i) ≡ found i u
          → parse_operator nom (t ∷ i) ≡ operator_of i b u
      go (some b) u h k = laws.alt-done (laws.map-done h refl)
      go none (some u) h k =
          laws.alt-error (laws.map-error h) ∙ laws.alt-last _ _ ∙ laws.map-done k refl
      go none none h k = laws.alt-error (laws.map-error h) ∙ laws.alt-last _ _ ∙ laws.map-error k

  parse_operator_empty : parse_operator nom [] ≡ error
  unfolding parse_operator binary_operator
  parse_operator_empty =
      laws.alt-error (laws.map-error (tags_on_empty _ _ _))
      ∙ laws.alt-last _ _
      ∙ laws.map-error unary_operator_empty

  pub parse_operator-binary :
      (op : BinOp) (i : List Token)
      → parse_operator nom (spelling op ∷ i) ≡ done i (Operator.binary op)
  parse_operator-binary op i =
      parse_operator_lem (spelling op) i
      ∙ ap (λ o. operator_of i o (look_up unary_tokens (spelling op))) (look_up-spelling op)

  -- The loop of the Pratt parser ends at a token that does not take the expression.
  pub pratt_loop-Below :
      (self : ℕ → Parser Expr) (f b : ℕ) (r : List Token) (e : Expr)
      → Below b r
      → pratt_loop nom f64_from_str self (suc f) b r e ≡ done r e
  unfolding pratt_loop pratt_round
  pratt_loop-Below self f b [] e h = rw parse_operator_empty refl
  pratt_loop-Below self f b (t ∷ i) e h = rw (parse_operator_lem t i) (
      stops_at nom f64_from_str self (pratt_loop nom f64_from_str self f b) b (t ∷ i) e i
        (look_up binary_tokens t) (look_up unary_tokens t) (IsBelow-power b t i h))
