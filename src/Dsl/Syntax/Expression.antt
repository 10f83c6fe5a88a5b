-- ===== src/Dsl/Syntax/Expression.antt =====
-- brane-dsl/src/parser/expression.rs and instance.rs. `expression` stands for `self::parse`, the
-- parser of a whole expression, in the parsers that `expr_pratt` calls.
use brane.Prelude.{
  ℕ, zero, suc, Option, none, some, String, List, [], ◌∷◌, length, ltb, if◌then◌else◌,
}
use brane.Dsl.Ast.{UnOp, Expr, Exprs, Stmt, Stmts, binding_power}
use brane.Dsl.Syntax.Token.{Token}
use brane.Dsl.Syntax.Parsed.{
  Parsed, ParsedOf, Parser, done, error, failure, spent, then', tag_token,
}
use brane.Dsl.Syntax.Nom.{Nom}
use brane.Dsl.Syntax.Operator.{
  Operator, unary_power, unary_operator, parse_operator, parse_identifier, parse_literal,
}

-- `[&[h], &e[..]].concat().to_vec()`, and `unwrap_or_default()`
abbrev pub head_and_rest : {A : Type 0} → Option (A × List A) → List A
head_and_rest none = []
head_and_rest (some (h, e)) = h ∷ e

abbrev pub exprs_of : List Expr → Exprs
exprs_of [] = Exprs.nil
exprs_of (e ∷ es) = Exprs.cons e (exprs_of es)

abbrev pub stmts_of : List Stmt → Stmts
stmts_of [] = Stmts.end
stmts_of (s ∷ ss) = Stmts.stmt s (stmts_of ss)

module _ (nom : Nom) (f64_from_str : String → Option ℕ) where
  -- one or more, with commas between them
  abbrev pub comma_list : {A : Type 0} → Parser A → Parser (A × List A)
  comma_list item = nom.pair item (nom.many0 (nom.preceded (tag_token Token.comma) item))

  unfoldable pub instance_property_stmt : Parser Expr → Parser Stmt
  unfolding parse_identifier
  instance_property_stmt expression =
      nom.map (nom.separated_pair (parse_identifier nom) (tag_token Token.assign) expression)
        (λ p. some (Stmt.assign (p.0) (p.1)))

  -- `instance::parse`
  unfoldable pub parse_instance : Parser Expr → Parser Expr
  parse_instance expression =
      nom.map
        (nom.preceded (tag_token Token.new) (
          nom.cut (
            nom.pair (parse_identifier nom) (
              nom.delimited (tag_token Token.left_brace)
                (nom.opt (comma_list (instance_property_stmt expression)))
                (tag_token Token.right_brace)))))
        (λ p. some (Expr.instance' (p.0) (stmts_of (head_and_rest (p.1)))))

  unfoldable pub call_expr : Parser Expr → Parser Expr
  call_expr expression =
      nom.map
        (nom.pair (parse_identifier nom) (
          nom.delimited (tag_token Token.left_paren) (nom.opt (comma_list expression))
            (tag_token Token.right_paren)))
        (λ p. some (Expr.call (p.0) (exprs_of (head_and_rest (p.1)))))

  unfoldable pub expr_atom : Parser Expr → Parser Expr
  expr_atom expression = nom.alt (
      parse_instance expression
      ∷ call_expr expression
      ∷ nom.map (parse_literal nom f64_from_str) (λ l. some (Expr.literal l))
      ∷ nom.map (parse_identifier nom) (λ x. some (Expr.ident x))
      ∷ [])

  -- the entries of an array, behind its bracket
  unfoldable pub array_entries : Parser Expr → Parser (Option (Expr × List Expr))
  array_entries expression =
      nom.terminated
        (nom.opt (nom.terminated (comma_list expression) (nom.opt (tag_token Token.comma))))
        (tag_token Token.right_bracket)

  -- The first `match` of `expr_pratt`, on what `unary_operator` gave for `input`. `self` is
  -- `expr_pratt`, which takes the binding power first.
  unfoldable pub pratt_prefix : (ℕ → Parser Expr) → List Token → Parsed UnOp → Parsed Expr
  pratt_prefix self input (done r UnOp.idx) =
      then' (array_entries (self 0) r)
        (λ r₂ entries. done r₂ (Expr.array (exprs_of (head_and_rest entries))))
  pratt_prefix self input (done r UnOp.prio) =
      nom.terminated (self 0) (tag_token Token.right_paren) r
  pratt_prefix self input (done r operator) =
      then' (self (unary_power operator).1 r) (λ r₂ rhs. done r₂ (Expr.unary operator rhs))
  pratt_prefix self input error = expr_atom (self 0) input
  pratt_prefix self input failure = expr_atom (self 0) input
  pratt_prefix self input ParsedOf.panic = ParsedOf.panic
  pratt_prefix self input spent = spent

  -- One round of its loop, on what `operator::parse` gave for `remainder`; `next` is the next round.
  unfoldable pub pratt_round :
      (ℕ → Parser Expr)
      → (List Token → Expr → Parsed Expr)
      → ℕ
      → List Token
      → Expr
      → Parsed Operator
      → Parsed Expr
  pratt_round self next min_bp remainder lhs (done r (Operator.binary operator)) =
      if ltb ((binding_power operator).0) min_bp
      then done remainder lhs
      else then' (self ((binding_power operator).1) r)
          (λ r₃ rhs. next r₃ (Expr.binary operator lhs rhs))
  pratt_round self next min_bp remainder lhs (done r (Operator.unary UnOp.idx)) =
      if ltb ((unary_power UnOp.idx).0) min_bp
      then done remainder lhs
      else then' (nom.terminated (self 0) (tag_token Token.right_bracket) r)
          (λ r₂ rhs. next r₂ (Expr.index lhs rhs))
  pratt_round self next min_bp remainder lhs (done r (Operator.unary operator)) =
      if ltb ((unary_power operator).0) min_bp
      then done remainder lhs
      else next remainder (Expr.unary operator lhs)
  pratt_round self next min_bp remainder lhs error = done remainder lhs
  pratt_round self next min_bp remainder lhs failure = done remainder lhs
  pratt_round self next min_bp remainder lhs ParsedOf.panic = ParsedOf.panic
  pratt_round self next min_bp remainder lhs spent = spent

  -- the loop, with fuel for its rounds
  unfoldable pub pratt_loop : (ℕ → Parser Expr) → ℕ → ℕ → List Token → Expr → Parsed Expr
  unfolding pratt_round
  pratt_loop self zero min_bp remainder lhs = spent
  pratt_loop self (suc f) min_bp remainder lhs =
      pratt_round self (pratt_loop self f min_bp) min_bp remainder lhs
        (parse_operator nom remainder)

  -- with fuel for the depth of the calls and, at each of them, for the rounds
  unfoldable pub expr_pratt : ℕ → ℕ → Parser Expr
  unfolding pratt_prefix pratt_loop
  expr_pratt zero min_bp input = spent
  expr_pratt (suc f) min_bp input =
      then' (pratt_prefix (expr_pratt f) input (unary_operator nom input))
        (pratt_loop (expr_pratt f) f min_bp)

  -- `expression::parse`, with as much fuel as the input has tokens, and one more
  unfoldable pub parse_expression : Parser Expr
  unfolding expr_pratt
  parse_expression input = expr_pratt (suc (length input)) 0 input
