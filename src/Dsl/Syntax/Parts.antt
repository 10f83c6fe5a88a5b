-- ===== src/Dsl/Syntax/Parts.antt =====
-- What the proofs about `parse_stmt` of brane-dsl/src/parser/bscript.rs share.
use brane.Prelude.{ℕ, zero, suc, ◌<◌, ◌≡◌, refl, Bool, Option, String, List, [], ◌∷◌, length, arith}
use brane.Dsl.Ast.{Ident, Expr, Stmt}
use brane.Dsl.Syntax.Token.{Token, discriminant}
use brane.Dsl.Syntax.Parsed.{Parser, done, error, tag_token}
use brane.Dsl.Syntax.Nom.{Nom, NomLaws}
use brane.Dsl.Syntax.Operator.{parse_identifier}
use brane.Dsl.Syntax.Expression.{comma_list, parse_expression}
use brane.Dsl.Syntax.Statement.{block_or_on, declare_property_stmt, declare_func_stmt, parse_stmt}
use brane.Dsl.Syntax.Grammar.{Reads, Below, left_power}
use brane.Dsl.Syntax.Operators.{look_up}
use brane.Dsl.Syntax.Precedence.{Reads-parse_expression}
use brane.Dsl.Syntax.Lists.{to_opt, more_next}
use brane.Dsl.Syntax.Pratt.{parse_identifier-done, parse_identifier-error}
use brane.Dsl.Syntax.Program
use brane.Dsl.Syntax.Program.{
  ReadsStmt, Branch, Block, Func, Members, Branches, MoreBranches, Names, MoreNames, Script,
}
use brane.Dsl.Syntax.Alternatives
use brane.Dsl.Syntax.Alternatives.{alt-all}
use brane.Dsl.Syntax.Starts.{
  Start, at_literal, at_ident, at_new, at_bracket, at_paren, at_not, at_minus, NotKeyword,
  Reads-Start, Start-NotKeyword, parse_expression-error,
}
use brane.Dsl.Syntax.Constructs
use brane.Dsl.Syntax.Dispatch

abbrev pub NonEmpty : List Token → Type 0
NonEmpty [] = ⊥
NonEmpty (t ∷ i) = Unit

pub Start-NonEmpty : {f : String → Option ℕ} {i : List Token} → Start f i → NonEmpty i
Start-NonEmpty (at_literal h) = tt
Start-NonEmpty at_ident = tt
Start-NonEmpty at_new = tt
Start-NonEmpty at_bracket = tt
Start-NonEmpty at_paren = tt
Start-NonEmpty at_not = tt
Start-NonEmpty at_minus = tt

module _ (nom : Nom) (f64_from_str : String → Option ℕ) (is_version : String → Bool)
    (laws : NomLaws nom) where
  abbrev pub Runs : {A : Type 0} → (ℕ → Parser A) → A → List Token → List Token → Type 0
  Runs p x i r = (f : ℕ) → length i < f → p f i ≡ done r x

  abbrev pub stmt : ℕ → Parser Stmt
  stmt f = parse_stmt nom f64_from_str is_version f

  -- one of the alternatives is taken
  pub takes :
      (s : Stmt) (i r : List Token)
      → NonEmpty i
      → ((f : ℕ)
          → length i < suc f
          → Dispatch.Takes nom f64_from_str is_version laws (stmt f) s i r)
      → Runs stmt s i r
  unfolding parse_stmt
  takes s [] r n h f l = elim n [ ]
  takes s (t ∷ i) r n h zero l = absurd (omega arith)
  takes s (t ∷ i) r n h (suc f) l = h f l

  -- The expression inside a statement is read to its end.
  pub reads :
      {e : Expr} {i r : List Token}
      → Reads f64_from_str 0 e i r
      → Below 0 r
      → parse_expression nom f64_from_str i ≡ done r e
  reads d w = Reads-parse_expression nom f64_from_str laws d w

  pub brace_error :
      (f : ℕ) (i : List Token)
      → parse_stmt nom f64_from_str is_version (suc f) (Token.right_brace ∷ i) ≡ error
  unfolding parse_stmt
  brace_error f i = Dispatch.alternatives-brace nom f64_from_str is_version laws (stmt f) i

  pub semicolon_error :
      (i : List Token) → parse_expression nom f64_from_str (Token.semicolon ∷ i) ≡ error
  unfolding discriminant look_up
  semicolon_error i =
      parse_expression-error nom f64_from_str is_version laws Token.semicolon i refl refl refl refl
        refl refl refl refl

  pub Takes-let :
      (self : Parser Stmt) {x : Ident} {e : Expr} {i r : List Token}
      → Reads f64_from_str 0 e i (Token.semicolon ∷ r)
      → Dispatch.Takes nom f64_from_str is_version laws self
          (Stmt.let_assign x e)
          (Token.let' ∷ Token.ident x ∷ Token.assign ∷ i)
          r
  unfolding Below left_power
  Takes-let self {x} {e} {i} {r} h = go i (Start-NotKeyword (Reads-Start h)) (reads h tt)
    where
      go :
          (i : List Token)
          → NotKeyword i
          → parse_expression nom f64_from_str i ≡ done (Token.semicolon ∷ r) e
          → Dispatch.Takes nom f64_from_str is_version laws self
              (Stmt.let_assign x e)
              (Token.let' ∷ Token.ident x ∷ Token.assign ∷ i)
              r
      go [] k p = elim k [ ]
      go (t ∷ i) (h₁, h₂, h₃, h₄, h₅, h₆, h₇, h₈) p =
          Dispatch.Takes-let_assign nom f64_from_str is_version laws self _ x t i r h₅
            (Constructs.let_assign_stmt-done nom f64_from_str is_version laws x e (t ∷ i) r p)

  MoreNames-run :
      {xs : List Ident} {i r : List Token}
      → MoreNames xs i r
      → nom.many0 (nom.preceded (tag_token Token.comma) (parse_identifier nom)) i
        ≡ done (Token.right_paren ∷ r) xs
  unfolding tag_token discriminant
  MoreNames-run Program.end_names = laws.many0-error (laws.preceded-error refl)
  MoreNames-run (Program.next_name {x = x} {xs = xs} {i = i} {r = r} h) =
      more_next nom f64_from_str laws (parse_identifier nom) x xs (Token.ident x ∷ i) i
        (Token.right_paren ∷ r) (parse_identifier-done f64_from_str laws x i) (omega arith)
        (MoreNames-run h)

  pub Names-run :
      {xs : List Ident} {i r : List Token}
      → Names xs i r
      → nom.opt (comma_list nom f64_from_str (parse_identifier nom)) i
        ≡ done (Token.right_paren ∷ r) (to_opt xs)
  unfolding discriminant
  Names-run (Program.no_names {r = r}) =
      laws.opt-error
        (laws.pair-error (parse_identifier-error f64_from_str laws Token.right_paren r refl))
  Names-run (Program.names {x = x} {i = i} h) =
      laws.opt-done (laws.pair-done (parse_identifier-done f64_from_str laws x i) (MoreNames-run h))

  pub no_branch :
      (stmt : Parser Stmt) (i : List Token)
      → block_or_on nom f64_from_str is_version stmt (Token.right_bracket ∷ i) ≡ error
  unfolding discriminant
  no_branch stmt i = alt-all nom f64_from_str is_version laws _ _ (Token.right_bracket ∷ i) (
    Alternatives.on_stmt-error nom f64_from_str is_version laws stmt Token.right_bracket i refl,
    (
      Alternatives.block_stmt-error nom f64_from_str is_version laws stmt Token.right_bracket i
          refl,
      tt,
    ),
  )

  -- an item of a class
  abbrev pub member : Parser Stmt → Parser Stmt
  member stmt = nom.alt (
      declare_property_stmt nom f64_from_str is_version
      ∷ declare_func_stmt nom f64_from_str is_version stmt
      ∷ [])

  pub no_member :
      (stmt : Parser Stmt) (i : List Token) → member stmt (Token.right_brace ∷ i) ≡ error
  unfolding discriminant
  no_member stmt i = alt-all nom f64_from_str is_version laws _ _ (Token.right_brace ∷ i) (
    Alternatives.declare_property_stmt-error nom f64_from_str is_version laws stmt Token.right_brace
        i refl,
    (
      Alternatives.declare_func_stmt-error nom f64_from_str is_version laws stmt Token.right_brace i
          refl,
      tt,
    ),
  )
