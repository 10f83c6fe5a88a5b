-- ===== src/Dsl/Syntax/Constructs/Blocks.antt =====
-- The parsers of brane-dsl/src/parser/bscript.rs for statements with blocks.
use brane.Prelude.{ℕ, ◌≡◌, refl, Bool, Option, String, List, [], ◌∷◌}
use brane.Dsl.Ast.{Ident, Expr, Stmt}
use brane.Dsl.Syntax.Token.{Token, discriminant}
use brane.Dsl.Syntax.Parsed.{Parser, done, error, tag_token}
use brane.Dsl.Syntax.Nom.{Nom, NomLaws}
use brane.Dsl.Syntax.Expression.{stmts_of}
use brane.Dsl.Syntax.Statement.{on_stmt, block_stmt, if_stmt, for_stmt, while_stmt, if_of}
use brane.Dsl.Syntax.Operators.{tag_miss}
use brane.Dsl.Syntax.Program.{NoElse}
use brane.Dsl.Syntax.Constructs.Simple.{
  Gives, assignment-done, let_assign_stmt-done, braces-done, condition-done,
}

NoElse-tag : (i : List Token) → NoElse i → tag_token Token.else' i ≡ error
unfolding tag_token
NoElse-tag [] h = refl
NoElse-tag (t ∷ i) h = tag_miss Token.else' t i h

module _ (nom : Nom) (f64_from_str : String → Option ℕ) (is_version : String → Bool)
    (laws : NomLaws nom) where
  module _ (stmt : Parser Stmt) where
    pub on_stmt-done :
        (e : Expr) (ss : List Stmt) (i j r : List Token)
        → Gives nom f64_from_str is_version laws e i (Token.left_brace ∷ j)
        → nom.many0 stmt j ≡ done (Token.right_brace ∷ r) ss
        → on_stmt nom f64_from_str is_version stmt (Token.on ∷ i) ≡ done r (Stmt.on e (stmts_of ss))
    unfolding on_stmt tag_token discriminant
    on_stmt-done e ss i j r h k =
        laws.map-done
          (laws.pair-done (laws.preceded-done refl (laws.cut-done h))
            (laws.cut-done (braces-done nom f64_from_str is_version laws stmt ss j r k)))
          refl

    pub block_stmt-done :
        (ss : List Stmt) (i r : List Token)
        → nom.many0 stmt i ≡ done (Token.right_brace ∷ r) ss
        → block_stmt nom f64_from_str is_version stmt (Token.left_brace ∷ i)
          ≡ done r (Stmt.block (stmts_of ss))
    unfolding block_stmt
    block_stmt-done ss i r k =
        laws.map-done (braces-done nom f64_from_str is_version laws stmt ss i r k) refl

    pub while_stmt-done :
        (e : Expr) (ss : List Stmt) (i j r : List Token)
        → Gives nom f64_from_str is_version laws e i (Token.right_paren ∷ Token.left_brace ∷ j)
        → nom.many0 stmt j ≡ done (Token.right_brace ∷ r) ss
        → while_stmt nom f64_from_str is_version stmt (Token.while ∷ Token.left_paren ∷ i)
          ≡ done r (Stmt.while e (stmts_of ss))
    unfolding while_stmt tag_token discriminant
    while_stmt-done e ss i j r h k =
        laws.map-done
          (laws.pair-done
            (laws.preceded-done refl (condition-done nom f64_from_str is_version laws stmt e i _ h))
            (braces-done nom f64_from_str is_version laws stmt ss j r k))
          refl

    pub if_stmt-then :
        (e : Expr) (ss : List Stmt) (i j r : List Token)
        → Gives nom f64_from_str is_version laws e i (Token.right_paren ∷ Token.left_brace ∷ j)
        → nom.many0 stmt j ≡ done (Token.right_brace ∷ r) ss
        → NoElse r
        → if_stmt nom f64_from_str is_version stmt (Token.if ∷ Token.left_paren ∷ i)
          ≡ done r (Stmt.if_then e (stmts_of ss))
    unfolding if_stmt if_of tag_token discriminant
    if_stmt-then e ss i j r h k w =
        laws.map-done
          (laws.preceded-done refl (
            laws.cut-done (
              laws.tuple-done (condition-done nom f64_from_str is_version laws stmt e i _ h)
                (braces-done nom f64_from_str is_version laws stmt ss j r k)
                (laws.opt-error (laws.preceded-error (NoElse-tag r w))))))
          refl

    pub if_stmt-else :
        (e : Expr) (ss ts : List Stmt) (i j l r : List Token)
        → Gives nom f64_from_str is_version laws e i (Token.right_paren ∷ Token.left_brace ∷ j)
        → nom.many0 stmt j ≡ done (Token.right_brace ∷ Token.else' ∷ Token.left_brace ∷ l) ss
        → nom.many0 stmt l ≡ done (Token.right_brace ∷ r) ts
        → if_stmt nom f64_from_str is_version stmt (Token.if ∷ Token.left_paren ∷ i)
          ≡ done r (Stmt.if_else e (stmts_of ss) (stmts_of ts))
    unfolding if_stmt if_of tag_token discriminant
    if_stmt-else e ss ts i j l r h k k' =
        laws.map-done
          (laws.preceded-done refl (
            laws.cut-done (
              laws.tuple-done (condition-done nom f64_from_str is_version laws stmt e i _ h)
                (braces-done nom f64_from_str is_version laws stmt ss j _ k)
                (laws.opt-done (
                  laws.preceded-done refl
                    (braces-done nom f64_from_str is_version laws stmt ts l r k'))))))
          refl

    pub for_stmt-done :
        (x y : Ident) (a e n : Expr) (ss : List Stmt) (i j k l r : List Token)
        → Gives nom f64_from_str is_version laws a i (Token.semicolon ∷ j)
        → Gives nom f64_from_str is_version laws e j
            (Token.semicolon ∷ Token.ident y ∷ Token.assign ∷ k)
        → Gives nom f64_from_str is_version laws n k (Token.right_paren ∷ Token.left_brace ∷ l)
        → nom.many0 stmt l ≡ done (Token.right_brace ∷ r) ss
        → for_stmt nom f64_from_str is_version stmt
            (Token.for ∷ Token.left_paren ∷ Token.let' ∷ Token.ident x ∷ Token.assign ∷ i)
          ≡ done r (Stmt.for (Stmt.let_assign x a) e (Stmt.assign y n) (stmts_of ss))
    unfolding for_stmt tag_token discriminant
    for_stmt-done x y a e n ss i j k l r h h' h'' m = laws.context-done (
        laws.map-done
          (laws.preceded-done refl (
            laws.cut-done (
              laws.pair-done
                (laws.delimited-done refl
                  (laws.tuple-done (let_assign_stmt-done nom f64_from_str is_version laws x a i j h)
                    (laws.terminated-done h' refl)
                    (laws.map-done (assignment-done nom f64_from_str is_version laws y n k _ h'')
                      refl))
                  refl)
                (braces-done nom f64_from_str is_version laws stmt ss l r m))))
          refl)
