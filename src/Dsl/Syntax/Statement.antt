-- ===== src/Dsl/Syntax/Statement.antt =====
-- brane-dsl/src/parser/bscript.rs. `stmt` stands for `parse_stmt` in the parsers that it calls.
use brane.Prelude.{
  ℕ, zero, suc, Bool, Option, none, some, String, List, [], ◌∷◌, length, str_eq, if◌then◌else◌,
}
use brane.Dsl.Ast.{Ident, Expr, Stmt, Methods, no_methods, method}
use brane.Dsl.Syntax.Token.{Token, as_string}
use brane.Dsl.Syntax.Parsed.{Parser, error, spent, tag_token}
use brane.Dsl.Syntax.Nom.{Nom}
use brane.Dsl.Syntax.Operator.{parse_identifier}
use brane.Dsl.Syntax.Expression.{stmts_of, head_and_rest, comma_list, parse_expression}

-- `HashMap::insert`: a value that the key has is replaced.
unfoldable pub insert_property : Ident → Ident → List (Ident × Ident) → List (Ident × Ident)
insert_property ident class [] = (ident, class) ∷ []
insert_property ident class ((key, value) ∷ rest) =
    if str_eq ident key
    then (ident, class) ∷ rest
    else (key, value) ∷ insert_property ident class rest

unfoldable pub insert_method : Ident → Stmt → Methods → Methods
insert_method ident func no_methods = method ident func no_methods
insert_method ident func (method key value rest) =
    if str_eq ident key
    then method ident func rest
    else method key value (insert_method ident func rest)

-- the loop of `declare_class_stmt` over the body; `none` is `unreachable!()`
unfoldable pub class_members :
    List Stmt → List (Ident × Ident) → Methods → Option (List (Ident × Ident) × Methods)
unfolding insert_property insert_method
class_members [] properties functions = some (properties, functions)
class_members (Stmt.property ident class ∷ body) properties functions =
    class_members body (insert_property ident class properties) functions
class_members (Stmt.declare_func ident params block ∷ body) properties functions =
    class_members body properties
      (insert_method ident (Stmt.declare_func ident params block) functions)
class_members (_ ∷ body) properties functions = none

unfoldable pub class_of : Ident → Option (List (Ident × Ident) × Methods) → Option Stmt
class_of ident none = none
class_of ident (some (properties, functions)) = some (Stmt.declare_class ident properties functions)

unfoldable pub if_of : Expr → List Stmt → Option (List Stmt) → Stmt
if_of condition consequent none = Stmt.if_then condition (stmts_of consequent)
if_of condition consequent (some alternative) =
    Stmt.if_else condition (stmts_of consequent) (stmts_of alternative)

unfoldable pub return_of : Option Expr → Stmt
return_of none = Stmt.return_unit
return_of (some e) = Stmt.return e

-- `Version::parse(..).unwrap()` of the crate semver: `is_version` says which texts it accepts. The
-- version itself is not kept.
unfoldable pub version_of : (String → Bool) → Option String → Option String
version_of is_version none = none
version_of is_version (some text) = if is_version text then some text else none

module _ (nom : Nom) (f64_from_str : String → Option ℕ) (is_version : String → Bool) where
  abbrev pub expression : Parser Expr
  expression = parse_expression nom f64_from_str

  abbrev pub identifier : Parser Ident
  identifier = parse_identifier nom

  -- `delimited({, many0(parse_stmt), })`
  abbrev pub braces : Parser Stmt → Parser (List Stmt)
  braces stmt =
      nom.delimited (tag_token Token.left_brace) (nom.many0 stmt) (tag_token Token.right_brace)

  abbrev pub assignment : Parser (Ident × Expr)
  assignment = nom.separated_pair identifier (tag_token Token.assign) expression

  abbrev pub condition : Parser Expr
  condition = nom.delimited (tag_token Token.left_paren) expression (tag_token Token.right_paren)

  unfoldable pub let_assign_stmt : Parser Stmt
  let_assign_stmt =
      nom.map
        (nom.preceded (tag_token Token.let')
          (nom.cut (nom.terminated assignment (tag_token Token.semicolon))))
        (λ p. some (Stmt.let_assign (p.0) (p.1)))

  unfoldable pub assign_stmt : Parser Stmt
  assign_stmt =
      nom.map (nom.terminated assignment (nom.cut (tag_token Token.semicolon)))
        (λ p. some (Stmt.assign (p.0) (p.1)))

  unfoldable pub on_stmt : Parser Stmt → Parser Stmt
  on_stmt stmt =
      nom.map
        (nom.pair (nom.preceded (tag_token Token.on) (nom.cut expression)) (nom.cut (braces stmt)))
        (λ p. some (Stmt.on (p.0) (stmts_of (p.1))))

  unfoldable pub block_stmt : Parser Stmt → Parser Stmt
  block_stmt stmt = nom.map (braces stmt) (λ block. some (Stmt.block (stmts_of block)))

  abbrev pub block_or_on : Parser Stmt → Parser Stmt
  block_or_on stmt = nom.alt (on_stmt stmt ∷ block_stmt stmt ∷ [])

  unfoldable pub parallel_stmt : Parser Stmt → Parser Stmt
  parallel_stmt stmt =
      nom.map
        (nom.pair
          (nom.opt (
            nom.preceded (tag_token Token.let')
              (nom.cut (nom.terminated identifier (tag_token Token.assign)))))
          (nom.preceded (tag_token Token.parallel) (
            nom.cut (
              nom.terminated
                (nom.delimited (tag_token Token.left_bracket)
                  (nom.opt (comma_list nom f64_from_str (block_or_on stmt)))
                  (tag_token Token.right_bracket))
                (tag_token Token.semicolon)))))
        (λ p. some (Stmt.parallel (p.0) (stmts_of (head_and_rest (p.1)))))

  unfoldable pub declare_property_stmt : Parser Stmt
  declare_property_stmt =
      nom.map
        (nom.terminated (nom.separated_pair identifier (tag_token Token.colon) identifier)
          (nom.cut (tag_token Token.semicolon)))
        (λ p. some (Stmt.property (p.0) (p.1)))

  unfoldable pub declare_func_stmt : Parser Stmt → Parser Stmt
  declare_func_stmt stmt =
      nom.map
        (nom.pair
          (nom.preceded (tag_token Token.function) (
            nom.cut (
              nom.pair identifier (
                nom.delimited (tag_token Token.left_paren)
                  (nom.opt (comma_list nom f64_from_str identifier))
                  (tag_token Token.right_paren)))))
          (nom.cut (braces stmt)))
        (λ p. some (Stmt.declare_func (p.0.0) (head_and_rest (p.0.1)) (stmts_of (p.1))))

  unfoldable pub declare_class_stmt : Parser Stmt → Parser Stmt
  unfolding class_members class_of
  declare_class_stmt stmt =
      nom.map
        (nom.pair (nom.preceded (tag_token Token.class) identifier) (
          nom.delimited (tag_token Token.left_brace)
            (nom.many0 (nom.alt (declare_property_stmt ∷ declare_func_stmt stmt ∷ [])))
            (tag_token Token.right_brace)))
        (λ p. class_of (p.0) (class_members (p.1) [] no_methods))

  unfoldable pub if_stmt : Parser Stmt → Parser Stmt
  unfolding if_of
  if_stmt stmt =
      nom.map
        (nom.preceded (tag_token Token.if) (
          nom.cut (
            nom.tuple condition (braces stmt)
              (nom.opt (nom.preceded (tag_token Token.else') (braces stmt))))))
        (λ p. some (if_of (p.0) (p.1) (p.2)))

  unfoldable pub import_stmt : Parser Stmt
  unfolding version_of
  import_stmt = nom.context "'import' statement" (
      nom.map
        (nom.preceded (tag_token Token.import) (
          nom.cut (
            nom.terminated
              (nom.pair identifier (
                nom.opt (
                  nom.delimited (tag_token Token.left_bracket)
                    (nom.map (tag_token (Token.sem_ver ""))
                      (λ x. version_of is_version (as_string x)))
                    (tag_token Token.right_bracket))))
              (tag_token Token.semicolon))))
        (λ p. some (Stmt.import (p.0))))

  unfoldable pub for_stmt : Parser Stmt → Parser Stmt
  for_stmt stmt = nom.context "'for' statement" (
      nom.map
        (nom.preceded (tag_token Token.for) (
          nom.cut (
            nom.pair
              (nom.delimited (tag_token Token.left_paren)
                (nom.tuple let_assign_stmt (nom.terminated expression (tag_token Token.semicolon))
                  (nom.map assignment (λ p. some (Stmt.assign (p.0) (p.1)))))
                (tag_token Token.right_paren))
              (braces stmt))))
        (λ p. some (Stmt.for (p.0.0) (p.0.1) (p.0.2) (stmts_of (p.1)))))

  unfoldable pub while_stmt : Parser Stmt → Parser Stmt
  while_stmt stmt =
      nom.map (nom.pair (nom.preceded (tag_token Token.while) condition) (braces stmt))
        (λ p. some (Stmt.while (p.0) (stmts_of (p.1))))

  unfoldable pub return_stmt : Parser Stmt
  unfolding return_of
  return_stmt =
      nom.map
        (nom.delimited (tag_token Token.return) (nom.opt expression)
          (nom.cut (tag_token Token.semicolon)))
        (λ e. some (return_of e))

  unfoldable pub expr_stmt : Parser Stmt
  expr_stmt =
      nom.map (nom.terminated expression (nom.cut (tag_token Token.semicolon)))
        (λ e. some (Stmt.expr e))

  -- the alternatives of `parse_stmt`, in their order
  unfoldable pub alternatives : Parser Stmt → Parser Stmt
  alternatives stmt = nom.alt (
      for_stmt stmt
      ∷ assign_stmt
      ∷ on_stmt stmt
      ∷ block_stmt stmt
      ∷ parallel_stmt stmt
      ∷ declare_class_stmt stmt
      ∷ declare_func_stmt stmt
      ∷ expr_stmt
      ∷ if_stmt stmt
      ∷ import_stmt
      ∷ let_assign_stmt
      ∷ return_stmt
      ∷ while_stmt stmt
      ∷ [])

  -- with fuel for the depth of the statements
  unfoldable pub parse_stmt : ℕ → Parser Stmt
  unfolding alternatives
  parse_stmt zero input = spent
  parse_stmt (suc f) [] = error
  parse_stmt (suc f) (t ∷ i) = alternatives (parse_stmt f) (t ∷ i)

  -- with as much fuel as the input has tokens, and one more
  unfoldable pub parse_ast : Parser (List Stmt)
  unfolding parse_stmt
  parse_ast input = nom.all_consuming (nom.many0 (parse_stmt (suc (length input)))) input
