-- ===== src/Dsl/Syntax/Program.antt =====
-- The grammar of the statements that brane-dsl/src/parser/bscript.rs reads.
use brane.Prelude.{ℕ, ◌≡◌, Bool, true, false, ◌==◌, Option, none, some, String, List, [], ◌∷◌}
use brane.Dsl.Ast.{Ident, Expr, Stmt, Methods, no_methods}
use brane.Dsl.Syntax.Token.{Token, discriminant}
use brane.Dsl.Syntax.Expression.{stmts_of}
use brane.Dsl.Syntax.Statement.{class_members}
use brane.Dsl.Syntax.Grammar.{Reads}

-- No alternative of an `if` follows.
abbrev pub NoElse : List Token → Type 0
NoElse [] = Unit
NoElse (t ∷ r) = (discriminant t == discriminant Token.else') ≡ false

pub data MoreNames : List Ident → List Token → List Token → Type 0 where
  end_names : {r : List Token} → MoreNames [] (Token.right_paren ∷ r) r
  next_name :
      {x : Ident} {xs : List Ident} {i r : List Token}
      → MoreNames xs i r
      → MoreNames (x ∷ xs) (Token.comma ∷ Token.ident x ∷ i) r

-- the parameters of a function, with the parenthesis that closes them
pub data Names : List Ident → List Token → List Token → Type 0 where
  no_names : {r : List Token} → Names [] (Token.right_paren ∷ r) r
  names :
      {x : Ident} {xs : List Ident} {i r : List Token}
      → MoreNames xs i r
      → Names (x ∷ xs) (Token.ident x ∷ i) r

-- `ReadsStmt s i r`: the tokens `i` are those of the statement `s`, and the tokens `r` behind them.
mutual
  pub data ReadsStmt (f : String → Option ℕ) (v : String → Bool)
      : Stmt → List Token → List Token → Type 0 where
    branch : {s : Stmt} {i r : List Token} → Branch f v s i r → ReadsStmt f v s i r
    func : {s : Stmt} {i r : List Token} → Func f v s i r → ReadsStmt f v s i r
    let_assign :
        {x : Ident} {e : Expr} {i r : List Token}
        → Reads f 0 e i (Token.semicolon ∷ r)
        → ReadsStmt f v (Stmt.let_assign x e) (Token.let' ∷ Token.ident x ∷ Token.assign ∷ i) r
    assign :
        {x : Ident} {e : Expr} {i r : List Token}
        → Reads f 0 e i (Token.semicolon ∷ r)
        → ReadsStmt f v (Stmt.assign x e) (Token.ident x ∷ Token.assign ∷ i) r
    expr :
        {e : Expr} {i r : List Token}
        → Reads f 0 e i (Token.semicolon ∷ r)
        → ReadsStmt f v (Stmt.expr e) i r
    parallel :
        {ss : List Stmt} {i r : List Token}
        → Branches f v ss i (Token.semicolon ∷ r)
        → ReadsStmt f v
            (Stmt.parallel none (stmts_of ss))
            (Token.parallel ∷ Token.left_bracket ∷ i)
            r
    let_parallel :
        {x : Ident} {ss : List Stmt} {i r : List Token}
        → Branches f v ss i (Token.semicolon ∷ r)
        → ReadsStmt f v
            (Stmt.parallel (some x) (stmts_of ss))
            (Token.let' ∷ Token.ident x ∷ Token.assign ∷ Token.parallel ∷ Token.left_bracket ∷ i)
            r
    class :
        {x : Ident} {body : List Stmt} {ps : List (Ident × Ident)} {ms : Methods} {i r : List Token}
        → Members f v body i r
        → class_members body [] no_methods ≡ some (ps, ms)
        → ReadsStmt f v
            (Stmt.declare_class x ps ms)
            (Token.class ∷ Token.ident x ∷ Token.left_brace ∷ i)
            r
    if_then :
        {e : Expr} {ss : List Stmt} {i j r : List Token}
        → Reads f 0 e i (Token.right_paren ∷ Token.left_brace ∷ j)
        → Block f v ss j r
        → NoElse r
        → ReadsStmt f v (Stmt.if_then e (stmts_of ss)) (Token.if ∷ Token.left_paren ∷ i) r
    if_else :
        {e : Expr} {ss ts : List Stmt} {i j k r : List Token}
        → Reads f 0 e i (Token.right_paren ∷ Token.left_brace ∷ j)
        → Block f v ss j (Token.else' ∷ Token.left_brace ∷ k)
        → Block f v ts k r
        → ReadsStmt f v
            (Stmt.if_else e (stmts_of ss) (stmts_of ts))
            (Token.if ∷ Token.left_paren ∷ i)
            r
    import :
        {x : Ident} {r : List Token}
        → ReadsStmt f v (Stmt.import x) (Token.import ∷ Token.ident x ∷ Token.semicolon ∷ r) r
    import_version :
        {x : Ident} {s : String} {r : List Token}
        → v s ≡ true
        → ReadsStmt f v
            (Stmt.import x)
            (Token.import
              ∷ Token.ident x
              ∷ Token.left_bracket
              ∷ Token.sem_ver s
              ∷ Token.right_bracket
              ∷ Token.semicolon
              ∷ r)
            r
    for :
        {x y : Ident} {a e n : Expr} {ss : List Stmt} {i j k l r : List Token}
        → Reads f 0 a i (Token.semicolon ∷ j)
        → Reads f 0 e j (Token.semicolon ∷ Token.ident y ∷ Token.assign ∷ k)
        → Reads f 0 n k (Token.right_paren ∷ Token.left_brace ∷ l)
        → Block f v ss l r
        → ReadsStmt f v
            (Stmt.for (Stmt.let_assign x a) e (Stmt.assign y n) (stmts_of ss))
            (Token.for ∷ Token.left_paren ∷ Token.let' ∷ Token.ident x ∷ Token.assign ∷ i)
            r
    while :
        {e : Expr} {ss : List Stmt} {i j r : List Token}
        → Reads f 0 e i (Token.right_paren ∷ Token.left_brace ∷ j)
        → Block f v ss j r
        → ReadsStmt f v (Stmt.while e (stmts_of ss)) (Token.while ∷ Token.left_paren ∷ i) r
    return_unit :
        {r : List Token} → ReadsStmt f v Stmt.return_unit (Token.return ∷ Token.semicolon ∷ r) r
    return :
        {e : Expr} {i r : List Token}
        → Reads f 0 e i (Token.semicolon ∷ r)
        → ReadsStmt f v (Stmt.return e) (Token.return ∷ i) r

  -- the statements that may stand in a parallel statement
  pub data Branch (f : String → Option ℕ) (v : String → Bool)
      : Stmt → List Token → List Token → Type 0 where
    on :
        {e : Expr} {ss : List Stmt} {i j r : List Token}
        → Reads f 0 e i (Token.left_brace ∷ j)
        → Block f v ss j r
        → Branch f v (Stmt.on e (stmts_of ss)) (Token.on ∷ i) r
    block :
        {ss : List Stmt} {i r : List Token}
        → Block f v ss i r
        → Branch f v (Stmt.block (stmts_of ss)) (Token.left_brace ∷ i) r

  -- statements, with the brace that closes them
  pub data Block (f : String → Option ℕ) (v : String → Bool)
      : List Stmt → List Token → List Token → Type 0 where
    end : {r : List Token} → Block f v [] (Token.right_brace ∷ r) r
    next :
        {s : Stmt} {ss : List Stmt} {i j r : List Token}
        → ReadsStmt f v s i j
        → Block f v ss j r
        → Block f v (s ∷ ss) i r

  pub data Func (f : String → Option ℕ) (v : String → Bool)
      : Stmt → List Token → List Token → Type 0 where
    function :
        {x : Ident} {xs : List Ident} {ss : List Stmt} {i j r : List Token}
        → Names xs i (Token.left_brace ∷ j)
        → Block f v ss j r
        → Func f v
            (Stmt.declare_func x xs (stmts_of ss))
            (Token.function ∷ Token.ident x ∷ Token.left_paren ∷ i)
            r

  -- the body of a class, with the brace that closes it
  pub data Members (f : String → Option ℕ) (v : String → Bool)
      : List Stmt → List Token → List Token → Type 0 where
    no_members : {r : List Token} → Members f v [] (Token.right_brace ∷ r) r
    property :
        {x c : Ident} {ss : List Stmt} {i r : List Token}
        → Members f v ss i r
        → Members f v
            (Stmt.property x c ∷ ss)
            (Token.ident x ∷ Token.colon ∷ Token.ident c ∷ Token.semicolon ∷ i)
            r
    method :
        {s : Stmt} {ss : List Stmt} {i j r : List Token}
        → Func f v s i j
        → Members f v ss j r
        → Members f v (s ∷ ss) i r

  -- the branches of a parallel statement, with the bracket that closes them
  pub data Branches (f : String → Option ℕ) (v : String → Bool)
      : List Stmt → List Token → List Token → Type 0 where
    no_branches : {r : List Token} → Branches f v [] (Token.right_bracket ∷ r) r
    branches :
        {s : Stmt} {ss : List Stmt} {i j r : List Token}
        → Branch f v s i j
        → MoreBranches f v ss j r
        → Branches f v (s ∷ ss) i r

  pub data MoreBranches (f : String → Option ℕ) (v : String → Bool)
      : List Stmt → List Token → List Token → Type 0 where
    end_branches : {r : List Token} → MoreBranches f v [] (Token.right_bracket ∷ r) r
    next_branch :
        {s : Stmt} {ss : List Stmt} {i j r : List Token}
        → Branch f v s i j
        → MoreBranches f v ss j r
        → MoreBranches f v (s ∷ ss) (Token.comma ∷ i) r

-- a whole script
pub data Script (f : String → Option ℕ) (v : String → Bool) : List Stmt → List Token → Type 0 where
  empty : Script f v [] []
  then' :
      {s : Stmt} {ss : List Stmt} {i j : List Token}
      → ReadsStmt f v s i j
      → Script f v ss j
      → Script f v (s ∷ ss) i
