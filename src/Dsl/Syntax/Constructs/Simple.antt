-- ===== src/Dsl/Syntax/Constructs/Simple.antt =====
-- The parsers of brane-dsl/src/parser/bscript.rs for statements without blocks.
use brane.Prelude.{ℕ, ◌≡◌, refl, Bool, true, Option, some, String, List, ◌∷◌}
use brane.Dsl.Ast.{Ident, Expr, Stmt}
use brane.Dsl.Syntax.Token.{Token, discriminant, as_string}
use brane.Dsl.Syntax.Parsed.{Parser, done, tag_token}
use brane.Dsl.Syntax.Nom.{Nom, NomLaws}
use brane.Dsl.Syntax.Operator.{parse_identifier}
use brane.Dsl.Syntax.Expression.{parse_expression}
use brane.Dsl.Syntax.Statement.{
  braces, assignment, condition, let_assign_stmt, assign_stmt, import_stmt, return_stmt, expr_stmt,
  return_of, version_of,
}
use brane.Dsl.Syntax.Pratt.{parse_identifier-done}

version_of-accepted :
    (is_version : String → Bool) (s : String)
    → is_version s ≡ true
    → version_of is_version (some s) ≡ some s
unfolding version_of
version_of-accepted is_version s h = rw h refl

module _ (nom : Nom) (f64_from_str : String → Option ℕ) (is_version : String → Bool)
    (laws : NomLaws nom) where
  abbrev pub Gives : Expr → List Token → List Token → Type 0
  Gives e i r = parse_expression nom f64_from_str i ≡ done r e

  pub ident-done :
      (x : Ident) (i : List Token) → parse_identifier nom (Token.ident x ∷ i) ≡ done i x
  ident-done = parse_identifier-done f64_from_str laws

  pub assignment-done :
      (x : Ident) (e : Expr) (i r : List Token)
      → Gives e i r
      → assignment nom f64_from_str is_version (Token.ident x ∷ Token.assign ∷ i) ≡ done r (x, e)
  unfolding tag_token discriminant
  assignment-done x e i r h = laws.separated_pair-done (ident-done x _) refl h

  pub let_assign_stmt-done :
      (x : Ident) (e : Expr) (i r : List Token)
      → Gives e i (Token.semicolon ∷ r)
      → let_assign_stmt nom f64_from_str is_version (Token.let' ∷ Token.ident x ∷ Token.assign ∷ i)
        ≡ done r (Stmt.let_assign x e)
  unfolding let_assign_stmt tag_token discriminant
  let_assign_stmt-done x e i r h =
      laws.map-done
        (laws.preceded-done refl
          (laws.cut-done (laws.terminated-done (assignment-done x e i _ h) refl)))
        refl

  pub assign_stmt-done :
      (x : Ident) (e : Expr) (i r : List Token)
      → Gives e i (Token.semicolon ∷ r)
      → assign_stmt nom f64_from_str is_version (Token.ident x ∷ Token.assign ∷ i)
        ≡ done r (Stmt.assign x e)
  unfolding assign_stmt tag_token discriminant
  assign_stmt-done x e i r h =
      laws.map-done (laws.terminated-done (assignment-done x e i _ h) (laws.cut-done refl)) refl

  pub expr_stmt-done :
      (e : Expr) (i r : List Token)
      → Gives e i (Token.semicolon ∷ r)
      → expr_stmt nom f64_from_str is_version i ≡ done r (Stmt.expr e)
  unfolding expr_stmt tag_token discriminant
  expr_stmt-done e i r h = laws.map-done (laws.terminated-done h (laws.cut-done refl)) refl

  pub return_stmt-done :
      (o : Option Expr) (i r : List Token)
      → nom.opt (parse_expression nom f64_from_str) i ≡ done (Token.semicolon ∷ r) o
      → return_stmt nom f64_from_str is_version (Token.return ∷ i) ≡ done r (return_of o)
  unfolding return_stmt tag_token discriminant
  return_stmt-done o i r h = laws.map-done (laws.delimited-done refl h (laws.cut-done refl)) refl

  pub import_stmt-done :
      (x : Ident) (r : List Token)
      → import_stmt nom f64_from_str is_version (Token.import ∷ Token.ident x ∷ Token.semicolon ∷ r)
        ≡ done r (Stmt.import x)
  unfolding import_stmt tag_token discriminant
  import_stmt-done x r = laws.context-done (
      laws.map-done
        (laws.preceded-done refl (
          laws.cut-done (
            laws.terminated-done
              (laws.pair-done (ident-done x _) (laws.opt-error (laws.delimited-error refl))) refl)))
        refl)

  pub import_stmt-version :
      (x : Ident) (s : String) (r : List Token)
      → is_version s ≡ true
      → import_stmt nom f64_from_str is_version (
          Token.import
          ∷ Token.ident x
          ∷ Token.left_bracket
          ∷ Token.sem_ver s
          ∷ Token.right_bracket
          ∷ Token.semicolon
          ∷ r)
        ≡ done r (Stmt.import x)
  unfolding import_stmt tag_token discriminant as_string version_of
  import_stmt-version x s r h = laws.context-done (
      laws.map-done
        (laws.preceded-done refl (
          laws.cut-done (
            laws.terminated-done
              (laws.pair-done (ident-done x _) (
                laws.opt-done (
                  laws.delimited-done refl (laws.map-done refl (version_of-accepted is_version s h))
                    refl)))
              refl)))
        refl)

  module _ (stmt : Parser Stmt) where
    pub braces-done :
        (ss : List Stmt) (i r : List Token)
        → nom.many0 stmt i ≡ done (Token.right_brace ∷ r) ss
        → braces nom f64_from_str is_version stmt (Token.left_brace ∷ i) ≡ done r ss
    unfolding tag_token discriminant
    braces-done ss i r h = laws.delimited-done refl h refl

    pub condition-done :
        (e : Expr) (i r : List Token)
        → Gives e i (Token.right_paren ∷ r)
        → condition nom f64_from_str is_version (Token.left_paren ∷ i) ≡ done r e
    unfolding tag_token discriminant
    condition-done e i r h = laws.delimited-done refl h refl
