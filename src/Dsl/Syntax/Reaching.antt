-- ===== src/Dsl/Syntax/Reaching.antt =====
-- `expr_pratt` on the constructs of Dsl/Syntax/Grammar that are made of others, with its fuel.
use brane.Prelude.{
  ℕ, zero, suc, ◌≤◌, ◌<◌, ◌≡◌, refl, ◌∙◌, Option, none, some, String, List, ◌∷◌, length, le→ltb,
  arith,
}
use brane.Dsl.Ast.{BinOp, UnOp, Expr, binding_power}
use brane.Dsl.Syntax.Token.{Token, discriminant}
use brane.Dsl.Syntax.Parsed.{Parser, done, then', tag_token}
use brane.Dsl.Syntax.Nom.{Nom, NomLaws}
use brane.Dsl.Syntax.Operator.{unary_tokens, unary_power}
use brane.Dsl.Syntax.Expression.{expr_atom, pratt_prefix, pratt_round, pratt_loop, expr_pratt}
use brane.Dsl.Syntax.Grammar.{Below, left_power, spelling}
use brane.Dsl.Syntax.Operators.{
  look_up, pratt_loop-Below, parse_operator-binary, parse_operator_lem,
}
use brane.Dsl.Syntax.Pratt.{expr_pratt-prefix, pratt_prefix-atom, pratt_prefix-operator}

module _ (nom : Nom) (f64_from_str : String → Option ℕ) (laws : NomLaws nom) where
  -- `expr_pratt` with one more than the fuel `f` has read `e`, and its loop goes on at `r`.
  abbrev pub Reached : ℕ → ℕ → Expr → List Token → List Token → Type 0
  Reached f b e i r =
      (g : ℕ) × (length r < g)
      × (expr_pratt nom f64_from_str (suc f) b i
          ≡ pratt_loop nom f64_from_str (expr_pratt nom f64_from_str f) g b r e)

  abbrev pub Reaches : ℕ → Expr → List Token → List Token → Type 0
  Reaches b e i r = (f : ℕ) → length i < suc f → Reached f b e i r

  pub finish :
      (f b : ℕ) (e : Expr) (i r : List Token)
      → Reaches b e i r
      → length i < f
      → Below b r
      → expr_pratt nom f64_from_str f b i ≡ done r e
  finish zero b e i r d h w = absurd (omega arith)
  finish (suc f) b e i r d h w = go (d f h)
    where
      go : Reached f b e i r → expr_pratt nom f64_from_str (suc f) b i ≡ done r e
      go (zero, k, p) = absurd (omega arith)
      go (suc g, k, p) =
          p ∙ pratt_loop-Below f64_from_str laws (expr_pratt nom f64_from_str f) g b r e w

  pub from_atom :
      (b : ℕ) (e : Expr) (t : Token) (i r : List Token)
      → look_up unary_tokens t ≡ none
      → length r < suc (length i)
      → ((f : ℕ)
          → length i < f
          → expr_atom nom f64_from_str (expr_pratt nom f64_from_str f 0) (t ∷ i) ≡ done r e)
      → Reaches b e (t ∷ i) r
  from_atom b e t i r u s h f k = (
    f,
    omega arith,
    expr_pratt-prefix f64_from_str laws f b (t ∷ i) (
        pratt_prefix-atom f64_from_str laws (expr_pratt nom f64_from_str f) t i u
        ∙ h f (omega arith)),
  )

  pub from_prefix :
      (b : ℕ) (e : Expr) (t : Token) (op : UnOp) (i r : List Token)
      → look_up unary_tokens t ≡ some op
      → length r < suc (length i)
      → ((f : ℕ)
          → length i < f
          → pratt_prefix nom f64_from_str (expr_pratt nom f64_from_str f) (t ∷ i) (done i op)
            ≡ done r e)
      → Reaches b e (t ∷ i) r
  from_prefix b e t op i r u s h f k = (
    f,
    omega arith,
    expr_pratt-prefix f64_from_str laws f b (t ∷ i) (
        pratt_prefix-operator f64_from_str laws (expr_pratt nom f64_from_str f) t i u
        ∙ h f (omega arith)),
  )

  loop_binary :
      (self : ℕ → Parser Expr) (g b : ℕ) (op : BinOp) (e n : Expr) (j r : List Token)
      → b ≤ (binding_power op).0
      → self ((binding_power op).1) j ≡ done r n
      → pratt_loop nom f64_from_str self (suc g) b (spelling op ∷ j) e
        ≡ pratt_loop nom f64_from_str self g b r (Expr.binary op e n)
  unfolding pratt_loop pratt_round then'
  loop_binary self g b op e n j r w h =
      rw (parse_operator-binary f64_from_str laws op j)
        (rw (le→ltb ((binding_power op).0) b w) (rw h refl))

  loop_index :
      (self : ℕ → Parser Expr) (g b : ℕ) (e n : Expr) (j r : List Token)
      → b ≤ 11
      → self 0 j ≡ done (Token.right_bracket ∷ r) n
      → pratt_loop nom f64_from_str self (suc g) b (Token.left_bracket ∷ j) e
        ≡ pratt_loop nom f64_from_str self g b r (Expr.index e n)
  unfolding pratt_loop pratt_round then' unary_power tag_token discriminant look_up
  loop_index self g b e n j r w h =
      rw (parse_operator_lem f64_from_str laws Token.left_bracket j)
        (rw (le→ltb 11 b w) (rw (laws.terminated-done h refl) refl))

  pub reads_binary :
      (op : BinOp) (b : ℕ) (e n : Expr) (i j r : List Token)
      → b ≤ (binding_power op).0
      → Reaches b e i (spelling op ∷ j)
      → Reaches ((binding_power op).1) n j r
      → Below ((binding_power op).1) r
      → length r < length j
      → suc (length j) < length i
      → Reaches b (Expr.binary op e n) i r
  reads_binary op b e n i j r w d k v s s' f h = go (d f h)
    where
      go : Reached f b e i (spelling op ∷ j) → Reached f b (Expr.binary op e n) i r
      go (zero, l, p) = absurd (omega arith)
      go (suc g, l, p) = (
        g,
        omega arith,
        p
            ∙ loop_binary (expr_pratt nom f64_from_str f) g b op e n j r w
                (finish f ((binding_power op).1) n j r k (omega arith) v),
      )

  pub reads_index :
      (b : ℕ) (e n : Expr) (i j r : List Token)
      → b ≤ 11
      → Reaches b e i (Token.left_bracket ∷ j)
      → Reaches 0 n j (Token.right_bracket ∷ r)
      → suc (length r) < length j
      → suc (length j) < length i
      → Reaches b (Expr.index e n) i r
  unfolding Below left_power
  reads_index b e n i j r w d k s s' f h = go (d f h)
    where
      go : Reached f b e i (Token.left_bracket ∷ j) → Reached f b (Expr.index e n) i r
      go (zero, l, p) = absurd (omega arith)
      go (suc g, l, p) = (
        g,
        omega arith,
        p
            ∙ loop_index (expr_pratt nom f64_from_str f) g b e n j r w
                (finish f 0 n j (Token.right_bracket ∷ r) k (omega arith) tt),
      )

  pub reads_unary :
      (b : ℕ) (op : UnOp) (t : Token) (e : Expr) (i r : List Token)
      → look_up unary_tokens t ≡ some op
      → ((self : ℕ → Parser Expr)
          → self 11 i ≡ done r e
          → pratt_prefix nom f64_from_str self (t ∷ i) (done i op) ≡ done r (Expr.unary op e))
      → Reaches 11 e i r
      → Below 11 r
      → length r < length i
      → Reaches b (Expr.unary op e) (t ∷ i) r
  reads_unary b op t e i r u p d w s =
      from_prefix b (Expr.unary op e) t op i r u (omega arith)
        (λ f h. p (expr_pratt nom f64_from_str f) (finish f 11 e i r d h w))

  pub reads_parens :
      (b : ℕ) (e : Expr) (i r : List Token)
      → Reaches 0 e i (Token.right_paren ∷ r)
      → suc (length r) < length i
      → Reaches b e (Token.left_paren ∷ i) r
  unfolding pratt_prefix Below left_power look_up discriminant tag_token
  reads_parens b e i r d s =
      from_prefix b e Token.left_paren UnOp.prio i r refl (omega arith)
        (λ f h. laws.terminated-done (finish f 0 e i (Token.right_paren ∷ r) d h tt) refl)
