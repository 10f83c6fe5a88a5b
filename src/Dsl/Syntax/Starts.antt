-- ===== src/Dsl/Syntax/Starts.antt =====
-- The first tokens of an expression, which tell it from the other statements.
use brane.Prelude.{ℕ, ◌≡◌, refl, Bool, false, Option, none, String, List, [], ◌∷◌, ◌==◌, length}
use brane.Dsl.Ast.{Lit, BinOp, Expr, Stmt}
use brane.Dsl.Syntax.Token.{Token, discriminant}
use brane.Dsl.Syntax.Parsed.{Parser, error, tag_token}
use brane.Dsl.Syntax.Nom.{Nom, NomLaws}
use brane.Dsl.Syntax.Operator.{unary_tokens}
use brane.Dsl.Syntax.Expression.{expr_pratt, parse_expression}
use brane.Dsl.Syntax.Statement.{
  assignment, assign_stmt, on_stmt, block_stmt, parallel_stmt, declare_func_stmt,
  declare_class_stmt, for_stmt, expr_stmt,
}
use brane.Dsl.Syntax.Grammar.{
  Reads, IsLiteral, spelling, true', false', integer, real, string, unit, literal, ident, call,
  instance', array, array_trailing, parens, not', neg, index, binary,
}
use brane.Dsl.Syntax.Operators.{look_up, tag_miss}
use brane.Dsl.Syntax.Pratt.{
  parse_identifier-done, parse_identifier-error, expr_atom-error, expr_pratt-error, IsLiteral-not,
}
use brane.Dsl.Syntax.Alternatives.{
  Differs, AllErrors, for_stmt-error, assign_stmt-error, on_stmt-error, block_stmt-error,
  parallel_stmt-error, declare_class_stmt-error, declare_func_stmt-error,
}

pub data Start (f : String → Option ℕ) : List Token → Type 0 where
  at_literal : {t : Token} {l : Lit} {i : List Token} → IsLiteral f t l → Start f (t ∷ i)
  at_ident : {x : String} {i : List Token} → Start f (Token.ident x ∷ i)
  at_new : {i : List Token} → Start f (Token.new ∷ i)
  at_bracket : {i : List Token} → Start f (Token.left_bracket ∷ i)
  at_paren : {i : List Token} → Start f (Token.left_paren ∷ i)
  at_not : {i : List Token} → Start f (Token.not' ∷ i)
  at_minus : {i : List Token} → Start f (Token.minus ∷ i)

pub Reads-Start :
    {f : String → Option ℕ} {b : ℕ} {e : Expr} {i r : List Token} → Reads f b e i r → Start f i
Reads-Start (literal h) = at_literal h
Reads-Start (ident h) = at_ident
Reads-Start (call h) = at_ident
Reads-Start (instance' h) = at_new
Reads-Start (array h) = at_bracket
Reads-Start (array_trailing h) = at_bracket
Reads-Start (parens h) = at_paren
Reads-Start (not' h w) = at_not
Reads-Start (neg h w) = at_minus
Reads-Start (index w h k) = Reads-Start h
Reads-Start (binary w h k v) = Reads-Start h

-- the tokens that start the other statements before an expression in `parse_stmt`
abbrev pub NotKeyword : List Token → Type 0
NotKeyword [] = ⊥
NotKeyword (t ∷ i) =
    Differs t Token.for
    × Differs t Token.on
    × Differs t Token.left_brace
    × Differs t Token.let'
    × Differs t Token.parallel
    × Differs t Token.class
    × Differs t Token.function
    × Differs t Token.semicolon

pub Start-NotKeyword : {f : String → Option ℕ} {i : List Token} → Start f i → NotKeyword i
unfolding discriminant
Start-NotKeyword (at_literal true') = (refl, refl, refl, refl, refl, refl, refl, refl)
Start-NotKeyword (at_literal false') = (refl, refl, refl, refl, refl, refl, refl, refl)
Start-NotKeyword (at_literal (integer h)) = (refl, refl, refl, refl, refl, refl, refl, refl)
Start-NotKeyword (at_literal (real h)) = (refl, refl, refl, refl, refl, refl, refl, refl)
Start-NotKeyword (at_literal (string s)) = (refl, refl, refl, refl, refl, refl, refl, refl)
Start-NotKeyword (at_literal unit) = (refl, refl, refl, refl, refl, refl, refl, refl)
Start-NotKeyword at_ident = (refl, refl, refl, refl, refl, refl, refl, refl)
Start-NotKeyword at_new = (refl, refl, refl, refl, refl, refl, refl, refl)
Start-NotKeyword at_bracket = (refl, refl, refl, refl, refl, refl, refl, refl)
Start-NotKeyword at_paren = (refl, refl, refl, refl, refl, refl, refl, refl)
Start-NotKeyword at_not = (refl, refl, refl, refl, refl, refl, refl, refl)
Start-NotKeyword at_minus = (refl, refl, refl, refl, refl, refl, refl, refl)

-- No `:=` follows.
abbrev pub NoAssign : List Token → Type 0
NoAssign [] = Unit
NoAssign (t ∷ r) = Differs t Token.assign

NoAssign-tag : (i : List Token) → NoAssign i → tag_token Token.assign i ≡ error
unfolding tag_token
NoAssign-tag [] h = refl
NoAssign-tag (t ∷ i) h = tag_miss Token.assign t i h

spelling-NoAssign : (op : BinOp) → Differs (spelling op) Token.assign
unfolding discriminant
spelling-NoAssign BinOp.add = refl
spelling-NoAssign BinOp.sub = refl
spelling-NoAssign BinOp.mul = refl
spelling-NoAssign BinOp.div = refl
spelling-NoAssign BinOp.dot = refl
spelling-NoAssign BinOp.and = refl
spelling-NoAssign BinOp.or = refl
spelling-NoAssign BinOp.eq = refl
spelling-NoAssign BinOp.lt = refl
spelling-NoAssign BinOp.le = refl
spelling-NoAssign BinOp.ne = refl
spelling-NoAssign BinOp.ge = refl
spelling-NoAssign BinOp.gt = refl

module _ (nom : Nom) (f64_from_str : String → Option ℕ) (is_version : String → Bool)
    (laws : NomLaws nom) where
  -- An expression is not read as the left side of an assignment.
  pub Reads-assignment :
      {b : ℕ} {e : Expr} {i r : List Token}
      → Reads f64_from_str b e i r
      → NoAssign r
      → assignment nom f64_from_str is_version i ≡ error
  unfolding discriminant
  Reads-assignment (literal {t = t} {r = r} h) w =
      laws.separated_pair-error
        (parse_identifier-error f64_from_str laws t r ((IsLiteral-not t h).1))
  Reads-assignment (ident {x = x} {r = r} h) w =
      laws.separated_pair-second (parse_identifier-done f64_from_str laws x r) (NoAssign-tag r w)
  Reads-assignment (call {x = x} h) w =
      laws.separated_pair-second (parse_identifier-done f64_from_str laws x _) (NoAssign-tag _ refl)
  Reads-assignment (instance' h) w =
      laws.separated_pair-error (parse_identifier-error f64_from_str laws Token.new _ refl)
  Reads-assignment (array h) w =
      laws.separated_pair-error (parse_identifier-error f64_from_str laws Token.left_bracket _ refl)
  Reads-assignment (array_trailing h) w =
      laws.separated_pair-error (parse_identifier-error f64_from_str laws Token.left_bracket _ refl)
  Reads-assignment (parens h) w =
      laws.separated_pair-error (parse_identifier-error f64_from_str laws Token.left_paren _ refl)
  Reads-assignment (not' h v) w =
      laws.separated_pair-error (parse_identifier-error f64_from_str laws Token.not' _ refl)
  Reads-assignment (neg h v) w =
      laws.separated_pair-error (parse_identifier-error f64_from_str laws Token.minus _ refl)
  Reads-assignment (index v h k) w = Reads-assignment h refl
  Reads-assignment (binary {op = op} v h k u) w = Reads-assignment h (spelling-NoAssign op)

  -- the alternatives before that of an expression
  abbrev pub before_expr : Parser Stmt → List (Parser Stmt)
  before_expr stmt =
      for_stmt nom f64_from_str is_version stmt
      ∷ assign_stmt nom f64_from_str is_version
      ∷ on_stmt nom f64_from_str is_version stmt
      ∷ block_stmt nom f64_from_str is_version stmt
      ∷ parallel_stmt nom f64_from_str is_version stmt
      ∷ declare_class_stmt nom f64_from_str is_version stmt
      ∷ declare_func_stmt nom f64_from_str is_version stmt
      ∷ []

  pub before_expr-errors :
      (stmt : Parser Stmt) (i : List Token)
      → NotKeyword i
      → assignment nom f64_from_str is_version i ≡ error
      → AllErrors (before_expr stmt) i
  before_expr-errors stmt [] h k = elim h [ ]
  before_expr-errors stmt (t ∷ i) (h₁, h₂, h₃, h₄, h₅, h₆, h₇, h₈) k = (
    for_stmt-error nom f64_from_str is_version laws stmt t i h₁,
    (
      assign_stmt-error nom f64_from_str is_version laws stmt t i k,
      (
        on_stmt-error nom f64_from_str is_version laws stmt t i h₂,
        (
          block_stmt-error nom f64_from_str is_version laws stmt t i h₃,
          (
            parallel_stmt-error nom f64_from_str is_version laws stmt t i h₄ h₅,
            (
              declare_class_stmt-error nom f64_from_str is_version laws stmt t i h₆,
              (declare_func_stmt-error nom f64_from_str is_version laws stmt t i h₇, tt),
            ),
          ),
        ),
      ),
    ),
  )

  -- a token that starts no expression
  pub parse_expression-error :
      (t : Token) (i : List Token)
      → look_up unary_tokens t ≡ none
      → Differs t Token.new
      → (discriminant t == 45) ≡ false
      → (discriminant t == 40) ≡ false
      → (discriminant t == 41) ≡ false
      → (discriminant t == 42) ≡ false
      → (discriminant t == 44) ≡ false
      → (discriminant t == 15) ≡ false
      → parse_expression nom f64_from_str (t ∷ i) ≡ error
  unfolding parse_expression discriminant
  parse_expression-error t i u k₁ k₂ h₁ h₂ h₃ h₄ h₅ =
      expr_pratt-error f64_from_str laws (length (t ∷ i)) 0 t i u (
        expr_atom-error f64_from_str laws (expr_pratt nom f64_from_str (length (t ∷ i)) 0) t i k₁ k₂
          h₁ h₂ h₃ h₄ h₅)

  pub expr_stmt-error :
      (i : List Token)
      → parse_expression nom f64_from_str i ≡ error
      → expr_stmt nom f64_from_str is_version i ≡ error
  unfolding expr_stmt
  expr_stmt-error i h = laws.map-error (laws.terminated-error h)
