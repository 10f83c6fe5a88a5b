-- ===== src/Dsl/Syntax/Constructs/Groups.antt =====
-- The parsers of brane-dsl/src/parser/bscript.rs for parallel statements, functions and classes.
use brane.Prelude.{ℕ, ◌≡◌, refl, ap, Bool, Option, none, some, String, List, [], ◌∷◌}
use brane.Dsl.Ast.{Ident, Stmt, Methods, no_methods}
use brane.Dsl.Syntax.Token.{Token, discriminant}
use brane.Dsl.Syntax.Parsed.{Parser, done, tag_token}
use brane.Dsl.Syntax.Nom.{Nom, NomLaws}
use brane.Dsl.Syntax.Operator.{parse_identifier}
use brane.Dsl.Syntax.Expression.{stmts_of, comma_list}
use brane.Dsl.Syntax.Statement.{
  block_or_on, parallel_stmt, declare_property_stmt, declare_func_stmt, declare_class_stmt,
  class_members, class_of,
}
use brane.Dsl.Syntax.Lists.{to_opt, head_and_rest-to_opt}
use brane.Dsl.Syntax.Constructs.Simple.{ident-done, braces-done}

module _ (nom : Nom) (f64_from_str : String → Option ℕ) (is_version : String → Bool)
    (laws : NomLaws nom) where
  module _ (stmt : Parser Stmt) where
    branches-of :
        (ss : List Stmt) (i r : List Token)
        → nom.opt (comma_list nom f64_from_str (block_or_on nom f64_from_str is_version stmt)) i
          ≡ done (Token.right_bracket ∷ Token.semicolon ∷ r) (to_opt ss)
        → (o : Option Ident) (j : List Token)
        → nom.opt
            (nom.preceded
              (tag_token Token.let')
              (nom.cut (nom.terminated (parse_identifier nom) (tag_token Token.assign))))
            j
          ≡ done (Token.parallel ∷ Token.left_bracket ∷ i) o
        → parallel_stmt nom f64_from_str is_version stmt j ≡ done r (Stmt.parallel o (stmts_of ss))
    unfolding parallel_stmt tag_token discriminant
    branches-of ss i r h o j k =
        laws.map-done
          (laws.pair-done k (
            laws.preceded-done refl
              (laws.cut-done (laws.terminated-done (laws.delimited-done refl h refl) refl))))
          (ap (λ l. some (Stmt.parallel o (stmts_of l))) (head_and_rest-to_opt ss))

    pub parallel_stmt-done :
        (ss : List Stmt) (i r : List Token)
        → nom.opt (comma_list nom f64_from_str (block_or_on nom f64_from_str is_version stmt)) i
          ≡ done (Token.right_bracket ∷ Token.semicolon ∷ r) (to_opt ss)
        → parallel_stmt nom f64_from_str is_version stmt (Token.parallel ∷ Token.left_bracket ∷ i)
          ≡ done r (Stmt.parallel none (stmts_of ss))
    unfolding tag_token discriminant
    parallel_stmt-done ss i r h =
        branches-of ss i r h none _ (laws.opt-error (laws.preceded-error refl))

    pub parallel_stmt-let :
        (x : Ident) (ss : List Stmt) (i r : List Token)
        → nom.opt (comma_list nom f64_from_str (block_or_on nom f64_from_str is_version stmt)) i
          ≡ done (Token.right_bracket ∷ Token.semicolon ∷ r) (to_opt ss)
        → parallel_stmt nom f64_from_str is_version stmt
            (Token.let' ∷ Token.ident x ∷ Token.assign ∷ Token.parallel ∷ Token.left_bracket ∷ i)
          ≡ done r (Stmt.parallel (some x) (stmts_of ss))
    unfolding tag_token discriminant
    parallel_stmt-let x ss i r h = branches-of ss i r h (some x) _ (
        laws.opt-done (
          laws.preceded-done refl (
            laws.cut-done
              (laws.terminated-done (ident-done nom f64_from_str is_version laws x _) refl))))

    pub declare_func_stmt-done :
        (x : Ident) (xs : List Ident) (ss : List Stmt) (i j r : List Token)
        → nom.opt (comma_list nom f64_from_str (parse_identifier nom)) i
          ≡ done (Token.right_paren ∷ Token.left_brace ∷ j) (to_opt xs)
        → nom.many0 stmt j ≡ done (Token.right_brace ∷ r) ss
        → declare_func_stmt nom f64_from_str is_version stmt
            (Token.function ∷ Token.ident x ∷ Token.left_paren ∷ i)
          ≡ done r (Stmt.declare_func x xs (stmts_of ss))
    unfolding declare_func_stmt tag_token discriminant
    declare_func_stmt-done x xs ss i j r h k =
        laws.map-done
          (laws.pair-done
            (laws.preceded-done refl (
              laws.cut-done (
                laws.pair-done (ident-done nom f64_from_str is_version laws x _)
                  (laws.delimited-done refl h refl))))
            (laws.cut-done (braces-done nom f64_from_str is_version laws stmt ss j r k)))
          (ap (λ l. some (Stmt.declare_func x l (stmts_of ss))) (head_and_rest-to_opt xs))

    pub declare_class_stmt-done :
        (x : Ident) (body : List Stmt) (ps : List (Ident × Ident)) (ms : Methods) (i r : List Token)
        → nom.many0
            (nom.alt (
              declare_property_stmt nom f64_from_str is_version
              ∷ declare_func_stmt nom f64_from_str is_version stmt
              ∷ []))
            i
          ≡ done (Token.right_brace ∷ r) body
        → class_members body [] no_methods ≡ some (ps, ms)
        → declare_class_stmt nom f64_from_str is_version stmt
            (Token.class ∷ Token.ident x ∷ Token.left_brace ∷ i)
          ≡ done r (Stmt.declare_class x ps ms)
    unfolding declare_class_stmt class_of tag_token discriminant
    declare_class_stmt-done x body ps ms i r h k =
        laws.map-done
          (laws.pair-done
            (laws.preceded-done refl (ident-done nom f64_from_str is_version laws x _))
            (laws.delimited-done refl h refl))
          (rw k refl)

    pub declare_property_stmt-done :
        (x c : Ident) (r : List Token)
        → declare_property_stmt nom f64_from_str is_version
            (Token.ident x ∷ Token.colon ∷ Token.ident c ∷ Token.semicolon ∷ r)
          ≡ done r (Stmt.property x c)
    unfolding declare_property_stmt tag_token discriminant
    declare_property_stmt-done x c r =
        laws.map-done
          (laws.terminated-done
            (laws.separated_pair-done (ident-done nom f64_from_str is_version laws x _) refl
              (ident-done nom f64_from_str is_version laws c _))
            (laws.cut-done refl))
          refl
