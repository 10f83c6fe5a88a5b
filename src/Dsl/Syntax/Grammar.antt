-- ===== src/Dsl/Syntax/Grammar.antt =====
-- The grammar of the expressions that brane-dsl/src/parser/expression.rs reads, by precedence:
-- a description of the language that does not mention the parser.
use brane.Prelude.{ℕ, ◌≤◌, ◌<◌, ◌≡◌, true, false, Option, none, some, String, List, [], ◌∷◌, ◌==◌}
use brane.Prelude.Int.{ℤ}
use brane.Prelude.Codes.{codes}
use brane.Dsl.Ast.{Ident, Lit, BinOp, UnOp, Expr, Stmt, binding_power}
use brane.Dsl.Syntax.Token.{Token, discriminant, parse_i64}
use brane.Dsl.Syntax.Expression.{exprs_of, stmts_of}

-- how a binary operator is written
abbrev pub spelling : BinOp → Token
spelling BinOp.add = Token.plus
spelling BinOp.sub = Token.minus
spelling BinOp.mul = Token.star
spelling BinOp.div = Token.slash
spelling BinOp.dot = Token.dot
spelling BinOp.and = Token.and
spelling BinOp.or = Token.or
spelling BinOp.eq = Token.equal
spelling BinOp.lt = Token.less
spelling BinOp.le = Token.less_or_equal
spelling BinOp.ne = Token.not_equal
spelling BinOp.ge = Token.greater_or_equal
spelling BinOp.gt = Token.greater

-- How strongly a token that follows an expression takes it as its left operand: binary operators
-- from `&` to `.`, and the bracket of an index. `!` and `(` are not allowed there at all: the
-- weakest operators.
unfoldable pub left_power : Token → Option ℕ
left_power Token.not' = some 0
left_power Token.left_paren = some 0
left_power Token.and = some 1
left_power Token.or = some 1
left_power Token.equal = some 3
left_power Token.not_equal = some 3
left_power Token.less = some 5
left_power Token.less_or_equal = some 5
left_power Token.greater = some 5
left_power Token.greater_or_equal = some 5
left_power Token.plus = some 7
left_power Token.minus = some 7
left_power Token.star = some 9
left_power Token.slash = some 9
left_power Token.left_bracket = some 11
left_power Token.dot = some 13
left_power _ = none

abbrev pub IsBelow : ℕ → Option ℕ → Type 0
IsBelow b none = Unit
IsBelow b (some p) = p < b

-- What follows does not take an expression that binds with the power `b` as its operand.
unfoldable pub Below : ℕ → List Token → Type 0
Below b [] = Unit
Below b (t ∷ r) = IsBelow b (left_power t)

abbrev pub NoParen : List Token → Type 0
NoParen [] = Unit
NoParen (t ∷ r) = (discriminant t == discriminant Token.left_paren) ≡ false

pub data IsLiteral (f64_from_str : String → Option ℕ) : Token → Lit → Type 0 where
  true' : IsLiteral f64_from_str (Token.boolean "true") (Lit.boolean true)
  false' : IsLiteral f64_from_str (Token.boolean "false") (Lit.boolean false)
  integer :
      {s : String} {z : ℤ}
      → parse_i64 (codes s) ≡ some z
      → IsLiteral f64_from_str (Token.integer s) (Lit.integer z)
  real :
      {s : String} {x : ℕ}
      → f64_from_str s ≡ some x
      → IsLiteral f64_from_str (Token.real s) (Lit.real x)
  string : (s : String) → IsLiteral f64_from_str (Token.string s) (Lit.string s)
  unit : IsLiteral f64_from_str Token.unit Lit.unit

-- What ends a list of expressions: its closing token, or a comma before the bracket of an array.
pub data Closes : List Token → Type 0 where
  paren : {r : List Token} → Closes (Token.right_paren ∷ r)
  bracket : {r : List Token} → Closes (Token.right_bracket ∷ r)
  trailing : {r : List Token} → Closes (Token.comma ∷ Token.right_bracket ∷ r)

-- `Reads b e i r`: the tokens `i` are those of the expression `e`, in which every operator outside
-- parentheses takes its left operand with a power of at least `b`, and the tokens `r` behind them.
mutual
  pub data Reads (f : String → Option ℕ) : ℕ → Expr → List Token → List Token → Type 0 where
    literal :
        {b : ℕ} {t : Token} {l : Lit} {r : List Token}
        → IsLiteral f t l
        → Reads f b (Expr.literal l) (t ∷ r) r
    ident :
        {b : ℕ} {x : Ident} {r : List Token}
        → NoParen r
        → Reads f b (Expr.ident x) (Token.ident x ∷ r) r
    call :
        {b : ℕ} {x : Ident} {es : List Expr} {i r : List Token}
        → Items f es i (Token.right_paren ∷ r)
        → Reads f b (Expr.call x (exprs_of es)) (Token.ident x ∷ Token.left_paren ∷ i) r
    instance' :
        {b : ℕ} {x : Ident} {ps : List Stmt} {i r : List Token}
        → Fields f ps i (Token.right_brace ∷ r)
        → Reads f b
            (Expr.instance' x (stmts_of ps))
            (Token.new ∷ Token.ident x ∷ Token.left_brace ∷ i)
            r
    array :
        {b : ℕ} {es : List Expr} {i r : List Token}
        → Items f es i (Token.right_bracket ∷ r)
        → Reads f b (Expr.array (exprs_of es)) (Token.left_bracket ∷ i) r
    array_trailing :
        {b : ℕ} {e : Expr} {es : List Expr} {i r : List Token}
        → Items f (e ∷ es) i (Token.comma ∷ Token.right_bracket ∷ r)
        → Reads f b (Expr.array (exprs_of (e ∷ es))) (Token.left_bracket ∷ i) r
    parens :
        {b : ℕ} {e : Expr} {i r : List Token}
        → Reads f 0 e i (Token.right_paren ∷ r)
        → Reads f b e (Token.left_paren ∷ i) r
    not' :
        {b : ℕ} {e : Expr} {i r : List Token}
        → Reads f 11 e i r
        → Below 11 r
        → Reads f b (Expr.unary UnOp.not' e) (Token.not' ∷ i) r
    neg :
        {b : ℕ} {e : Expr} {i r : List Token}
        → Reads f 11 e i r
        → Below 11 r
        → Reads f b (Expr.unary UnOp.neg e) (Token.minus ∷ i) r
    index :
        {b : ℕ} {e n : Expr} {i j r : List Token}
        → b ≤ 11
        → Reads f b e i (Token.left_bracket ∷ j)
        → Reads f 0 n j (Token.right_bracket ∷ r)
        → Reads f b (Expr.index e n) i r
    binary :
        {b : ℕ} {op : BinOp} {e n : Expr} {i j r : List Token}
        → b ≤ (binding_power op).0
        → Reads f b e i (spelling op ∷ j)
        → Reads f ((binding_power op).1) n j r
        → Below ((binding_power op).1) r
        → Reads f b (Expr.binary op e n) i r

  -- expressions with commas between them
  pub data Items (f : String → Option ℕ) : List Expr → List Token → List Token → Type 0 where
    no_items : {r : List Token} → Closes r → Items f [] r r
    items :
        {e : Expr} {es : List Expr} {i s r : List Token}
        → Reads f 0 e i s
        → More f es s r
        → Items f (e ∷ es) i r

  pub data More (f : String → Option ℕ) : List Expr → List Token → List Token → Type 0 where
    end : {r : List Token} → Closes r → More f [] r r
    next :
        {e : Expr} {es : List Expr} {i s r : List Token}
        → Reads f 0 e i s
        → More f es s r
        → More f (e ∷ es) (Token.comma ∷ i) r

  -- the properties of an instance
  pub data Fields (f : String → Option ℕ) : List Stmt → List Token → List Token → Type 0 where
    no_fields : {r : List Token} → Fields f [] (Token.right_brace ∷ r) (Token.right_brace ∷ r)
    fields :
        {x : Ident} {e : Expr} {ps : List Stmt} {i s r : List Token}
        → Reads f 0 e i s
        → MoreFields f ps s r
        → Fields f (Stmt.assign x e ∷ ps) (Token.ident x ∷ Token.assign ∷ i) r

  pub data MoreFields (f : String → Option ℕ) : List Stmt → List Token → List Token → Type 0 where
    end_fields : {r : List Token} → MoreFields f [] (Token.right_brace ∷ r) (Token.right_brace ∷ r)
    next_field :
        {x : Ident} {e : Expr} {ps : List Stmt} {i s r : List Token}
        → Reads f 0 e i s
        → MoreFields f ps s r
        → MoreFields f (Stmt.assign x e ∷ ps) (Token.comma ∷ Token.ident x ∷ Token.assign ∷ i) r
