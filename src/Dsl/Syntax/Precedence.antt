-- ===== src/Dsl/Syntax/Precedence.antt =====
-- `expression::parse` reads what the grammar of Dsl/Syntax/Grammar describes.
use brane.Prelude.{ℕ, suc, ◌<◌, ◌≡◌, refl, ap, ◌∙◌, Option, String, List, [], ◌∷◌, length, arith}
use brane.Dsl.Ast.{UnOp, Expr, Stmt}
use brane.Dsl.Syntax.Token.{Token, discriminant}
use brane.Dsl.Syntax.Parsed.{Parser, done, then', tag_token}
use brane.Dsl.Syntax.Nom.{Nom, NomLaws}
use brane.Dsl.Syntax.Operator.{unary_power}
use brane.Dsl.Syntax.Expression.{
  exprs_of, stmts_of, comma_list, instance_property_stmt, pratt_prefix, expr_pratt,
  parse_expression,
}
use brane.Dsl.Syntax.Grammar.{
  Reads, Items, More, Fields, MoreFields, Below, literal, ident, call, instance', array,
  array_trailing, parens, not', neg, index, binary, no_items, items, end, next, no_fields, fields,
  end_fields, next_field,
}
use brane.Dsl.Syntax.Lengths.{
  Reads-length, Items-length, More-length, Fields-length, Below-More, Below-MoreFields,
}
use brane.Dsl.Syntax.Operators.{look_up}
use brane.Dsl.Syntax.Pratt.{
  IsLiteral-prefix, expr_atom-literal, expr_atom-ident, expr_atom-call, expr_atom-instance,
  instance_property_stmt-done,
}
use brane.Dsl.Syntax.Reaching.{
  Reaches, finish, from_atom, from_prefix, reads_binary, reads_index, reads_unary, reads_parens,
}
use brane.Dsl.Syntax.Lists.{
  to_opt, head_and_rest-to_opt, Closes-enough, more_end, more_next, no_items_run, array_run,
  array_trailing_run, array_empty_run, no_fields_run, more_fields_end,
}

module _ (nom : Nom) (f64_from_str : String → Option ℕ) (laws : NomLaws nom) where
  -- `expression::parse`, and `instance_property_stmt`, in a call with the fuel `f`
  abbrev expression : ℕ → Parser Expr
  expression f = expr_pratt nom f64_from_str f 0

  abbrev property : ℕ → Parser Stmt
  property f = instance_property_stmt nom f64_from_str (expression f)

  abbrev Runs : {A : Type 0} → (ℕ → Parser A) → A → List Token → List Token → Type 0
  Runs p x i r = (f : ℕ) → length i < f → p f i ≡ done r x

  comma_list_run :
      (e : Expr) (es : List Expr) (i s r : List Token)
      → Reaches nom f64_from_str laws 0 e i s
      → Below 0 s
      → length s < length i
      → Runs (λ f. nom.many0 (nom.preceded (tag_token Token.comma) (expression f))) es s r
      → Runs (λ f. comma_list nom f64_from_str (expression f)) (e, es) i r
  comma_list_run e es i s r d w l m f h =
      laws.pair-done (finish nom f64_from_str laws f 0 e i s d h w) (m f (omega arith))

  mutual
    unfolding look_up discriminant pratt_prefix then' unary_power

    Reads-Reaches :
        {b : ℕ} {e : Expr} {i r : List Token}
        → Reads f64_from_str b e i r
        → Reaches nom f64_from_str laws b e i r
    Reads-Reaches (literal {t = t} {l = l} {r = r} h) =
        from_atom nom f64_from_str laws _ (Expr.literal l) t r r (IsLiteral-prefix t h)
          (omega arith) (λ f k. expr_atom-literal f64_from_str laws (expression f) r h)
    Reads-Reaches (ident {x = x} {r = r} h) =
        from_atom nom f64_from_str laws _ (Expr.ident x) (Token.ident x) r r refl (omega arith)
          (λ f k. expr_atom-ident f64_from_str laws (expression f) x r h)
    Reads-Reaches (call {x = x} {es = es} {i = i} {r = r} m) =
        let k = Items-length m in
        from_atom nom f64_from_str laws _ (Expr.call x (exprs_of es)) (Token.ident x)
          (Token.left_paren ∷ i) r refl (omega arith)
          (λ f h.
            expr_atom-call f64_from_str laws (expression f) x i r (to_opt es)
              (Items-run m f (omega arith))
            ∙ ap (λ l. done r (Expr.call x (exprs_of l))) (head_and_rest-to_opt es))
    Reads-Reaches (instance' {x = x} {ps = ps} {i = i} {r = r} m) =
        let k = Fields-length m in
        from_atom nom f64_from_str laws _ (Expr.instance' x (stmts_of ps)) Token.new
          (Token.ident x ∷ Token.left_brace ∷ i) r refl (omega arith)
          (λ f h.
            expr_atom-instance f64_from_str laws (expression f) x i r (to_opt ps)
              (Fields-run m f (omega arith))
            ∙ ap (λ l. done r (Expr.instance' x (stmts_of l))) (head_and_rest-to_opt ps))
    Reads-Reaches (array {r = r} (no_items c)) =
        from_prefix nom f64_from_str laws _ (Expr.array (exprs_of [])) Token.left_bracket UnOp.idx
          (Token.right_bracket ∷ r) r refl (omega arith)
          (λ f h.
            array_empty_run nom f64_from_str laws (expr_pratt nom f64_from_str f) r
              (Closes-enough nom f64_from_str laws c f 0 (omega arith)))
    Reads-Reaches (array {i = i} {r = r} (items {e = e} {es = es} {s = s} d m)) =
        let k = Reads-length d in
        let k' = More-length m in
        from_prefix nom f64_from_str laws _ (Expr.array (exprs_of (e ∷ es))) Token.left_bracket
          UnOp.idx i r refl (omega arith)
          (λ f h. array_run nom f64_from_str laws (expr_pratt nom f64_from_str f) e es i r (
            comma_list_run e es i s _ (Reads-Reaches d) (Below-More m) (Reads-length d) (More-run m)
              f h))
    Reads-Reaches (array_trailing {i = i} {r = r} (items {e = e} {es = es} {s = s} d m)) =
        let k = Reads-length d in
        let k' = More-length m in
        from_prefix nom f64_from_str laws _ (Expr.array (exprs_of (e ∷ es))) Token.left_bracket
          UnOp.idx i r refl (omega arith)
          (λ f h.
            array_trailing_run nom f64_from_str laws (expr_pratt nom f64_from_str f) e es i r (
              comma_list_run e es i s _ (Reads-Reaches d) (Below-More m) (Reads-length d)
                (More-run m) f h))
    Reads-Reaches (parens {e = e} {i = i} {r = r} d) =
        let s = Reads-length d in
        reads_parens nom f64_from_str laws _ e i r (Reads-Reaches d) (omega arith)
    Reads-Reaches (not' {e = e} {i = i} {r = r} d w) =
        reads_unary nom f64_from_str laws _ UnOp.not' Token.not' e i r refl (λ self h. rw h refl)
          (Reads-Reaches d) w (Reads-length d)
    Reads-Reaches (neg {e = e} {i = i} {r = r} d w) =
        reads_unary nom f64_from_str laws _ UnOp.neg Token.minus e i r refl (λ self h. rw h refl)
          (Reads-Reaches d) w (Reads-length d)
    Reads-Reaches (index {b = b} {e = e} {n = n} {i = i} {j = j} {r = r} w d k) =
        let s = Reads-length d in
        let s' = Reads-length k in
        reads_index nom f64_from_str laws b e n i j r w (Reads-Reaches d) (Reads-Reaches k)
          (omega arith) (omega arith)
    Reads-Reaches (binary {b = b} {op = op} {e = e} {n = n} {i = i} {j = j} {r = r} w d k v) =
        let s = Reads-length d in
        let s' = Reads-length k in
        reads_binary nom f64_from_str laws op b e n i j r w (Reads-Reaches d) (Reads-Reaches k) v
          (omega arith) (omega arith)

    Items-run :
        {es : List Expr} {i r : List Token}
        → Items f64_from_str es i r
        → Runs (λ f. nom.opt (comma_list nom f64_from_str (expression f))) (to_opt es) i r
    Items-run (no_items c) f h = no_items_run nom f64_from_str laws c f h
    Items-run (items {e = e} {es = es} {i = i} {s = s} {r = r} d m) f h = laws.opt-done (
        comma_list_run e es i s r (Reads-Reaches d) (Below-More m) (Reads-length d) (More-run m) f
          h)

    More-run :
        {es : List Expr} {i r : List Token}
        → More f64_from_str es i r
        → Runs (λ f. nom.many0 (nom.preceded (tag_token Token.comma) (expression f))) es i r
    More-run (end c) f h = more_end nom f64_from_str laws c f h
    More-run (next {e = e} {es = es} {i = i} {s = s} {r = r} d m) f h =
        let k = Reads-length d in
        more_next nom f64_from_str laws (expression f) e es i s r
          (finish nom f64_from_str laws f 0 e i s (Reads-Reaches d) (omega arith) (Below-More m)) k
          (More-run m f (omega arith))

    Fields-run :
        {ps : List Stmt} {i r : List Token}
        → Fields f64_from_str ps i r
        → Runs (λ f. nom.opt (comma_list nom f64_from_str (property f))) (to_opt ps) i r
    Fields-run no_fields f h = no_fields_run nom f64_from_str laws (expression f) _
    Fields-run (fields {x = x} {e = e} {i = i} {s = s} d m) f h =
        let k = Reads-length d in
        laws.opt-done (
          laws.pair-done
            (instance_property_stmt-done f64_from_str laws (expression f) x i s e (
              finish nom f64_from_str laws f 0 e i s (Reads-Reaches d) (omega arith)
                (Below-MoreFields m)))
            (MoreFields-run m f (omega arith)))

    MoreFields-run :
        {ps : List Stmt} {i r : List Token}
        → MoreFields f64_from_str ps i r
        → Runs (λ f. nom.many0 (nom.preceded (tag_token Token.comma) (property f))) ps i r
    MoreFields-run end_fields f h = more_fields_end nom f64_from_str laws (property f) _
    MoreFields-run (next_field {x = x} {e = e} {ps = ps} {i = i} {s = s} {r = r} d m) f h =
        let k = Reads-length d in
        more_next nom f64_from_str laws (property f) (Stmt.assign x e) ps
          (Token.ident x ∷ Token.assign ∷ i) s r
          (instance_property_stmt-done f64_from_str laws (expression f) x i s e (
            finish nom f64_from_str laws f 0 e i s (Reads-Reaches d) (omega arith)
              (Below-MoreFields m)))
          (omega arith) (MoreFields-run m f (omega arith))

  pub Reads-expr_pratt :
      {b : ℕ} {e : Expr} {i r : List Token}
      → Reads f64_from_str b e i r
      → Below b r
      → (f : ℕ) → length i < f
      → expr_pratt nom f64_from_str f b i ≡ done r e
  unfolding Reads-Reaches
  Reads-expr_pratt {b} {e} {i} {r} d w f h =
      finish nom f64_from_str laws f b e i r (Reads-Reaches d) h w

  -- The parser reads the whole language of the grammar: where the tokens `i` are those of the
  -- expression `e` and the tokens `r`, and the first of `r` continues no expression,
  -- `expression::parse` ends, gives `e`, and leaves `r`.
  pub Reads-parse_expression :
      {e : Expr} {i r : List Token}
      → Reads f64_from_str 0 e i r
      → Below 0 r
      → parse_expression nom f64_from_str i ≡ done r e
  unfolding parse_expression
  Reads-parse_expression {e} {i} {r} d w = Reads-expr_pratt d w (suc (length i)) (omega arith)
