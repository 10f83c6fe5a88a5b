-- ===== src/Dsl/Syntax/Alternatives.antt =====
-- The statements of brane-dsl/src/parser/bscript.rs give way to each other by their first token.
use brane.Prelude.{ℕ, ◌≡◌, refl, ◌∙◌, Bool, false, Option, String, List, [], ◌∷◌, ◌++◌, ◌==◌}
use brane.Dsl.Ast.{Ident, Stmt}
use brane.Dsl.Syntax.Token.{Token, discriminant}
use brane.Dsl.Syntax.Parsed.{Parser, done, error, tag_token}
use brane.Dsl.Syntax.Nom.{Nom, NomLaws}
use brane.Dsl.Syntax.Statement.{
  assignment, let_assign_stmt, assign_stmt, on_stmt, block_stmt, parallel_stmt,
  declare_property_stmt, declare_func_stmt, declare_class_stmt, if_stmt, import_stmt, for_stmt,
  while_stmt, return_stmt,
}
use brane.Dsl.Syntax.Operators.{tag_miss}
use brane.Dsl.Syntax.Pratt.{parse_identifier-done, parse_identifier-error}

abbrev pub AllErrors : {A : Type 0} → List (Parser A) → List Token → Type 0
AllErrors [] i = Unit
AllErrors (p ∷ ps) i = (p i ≡ error) × AllErrors ps i

-- The token is not of that variant.
abbrev pub Differs : Token → Token → Type 0
Differs t variant = (discriminant t == discriminant variant) ≡ false

module _ (nom : Nom) (f64_from_str : String → Option ℕ) (is_version : String → Bool)
    (laws : NomLaws nom) where
  pub alt-skip :
      {A : Type 0} (ps : List (Parser A)) (q : Parser A) (qs : List (Parser A)) (i : List Token)
      → AllErrors ps i
      → nom.alt (ps ++ q ∷ qs) i ≡ nom.alt (q ∷ qs) i
  alt-skip [] q qs i e = refl
  alt-skip (p ∷ []) q qs i e = laws.alt-error (e.0)
  alt-skip (p ∷ o ∷ ps) q qs i e = laws.alt-error (e.0) ∙ alt-skip (o ∷ ps) q qs i (e.1)

  pub alt-nth :
      {A : Type 0} (ps : List (Parser A)) (q : Parser A) (qs : List (Parser A)) (i r : List Token)
      (x : A)
      → AllErrors ps i
      → q i ≡ done r x
      → nom.alt (ps ++ q ∷ qs) i ≡ done r x
  alt-nth ps q qs i r x e h = alt-skip ps q qs i e ∙ laws.alt-done h

  pub alt-all :
      {A : Type 0} (p : Parser A) (ps : List (Parser A)) (i : List Token)
      → AllErrors (p ∷ ps) i
      → nom.alt (p ∷ ps) i ≡ error
  alt-all p [] i e = laws.alt-last p i ∙ e.0
  alt-all p (q ∷ ps) i e = laws.alt-error (e.0) ∙ alt-all q ps i (e.1)

  module _ (stmt : Parser Stmt) (t : Token) (i : List Token) where
    pub for_stmt-error :
        Differs t Token.for → for_stmt nom f64_from_str is_version stmt (t ∷ i) ≡ error
    unfolding for_stmt
    for_stmt-error h =
        laws.context-error (laws.map-error (laws.preceded-error (tag_miss Token.for t i h)))

    pub assign_stmt-error :
        assignment nom f64_from_str is_version (t ∷ i) ≡ error
        → assign_stmt nom f64_from_str is_version (t ∷ i) ≡ error
    unfolding assign_stmt
    assign_stmt-error h = laws.map-error (laws.terminated-error h)

    pub assignment-error :
        (discriminant t == 45) ≡ false → assignment nom f64_from_str is_version (t ∷ i) ≡ error
    assignment-error h = laws.separated_pair-error (parse_identifier-error f64_from_str laws t i h)

    pub on_stmt-error :
        Differs t Token.on → on_stmt nom f64_from_str is_version stmt (t ∷ i) ≡ error
    unfolding on_stmt
    on_stmt-error h =
        laws.map-error (laws.pair-error (laws.preceded-error (tag_miss Token.on t i h)))

    pub block_stmt-error :
        Differs t Token.left_brace → block_stmt nom f64_from_str is_version stmt (t ∷ i) ≡ error
    unfolding block_stmt
    block_stmt-error h = laws.map-error (laws.delimited-error (tag_miss Token.left_brace t i h))

    pub parallel_stmt-error :
        Differs t Token.let'
        → Differs t Token.parallel
        → parallel_stmt nom f64_from_str is_version stmt (t ∷ i) ≡ error
    unfolding parallel_stmt
    parallel_stmt-error h k = laws.map-error (
        laws.pair-second (laws.opt-error (laws.preceded-error (tag_miss Token.let' t i h)))
          (laws.preceded-error (tag_miss Token.parallel t i k)))

    -- `let x :=` is read, and then it is no parallel statement.
    pub parallel_stmt-let_error :
        (x : Ident)
        → Differs t Token.parallel
        → parallel_stmt nom f64_from_str is_version stmt
            (Token.let' ∷ Token.ident x ∷ Token.assign ∷ t ∷ i)
          ≡ error
    unfolding parallel_stmt tag_token discriminant
    parallel_stmt-let_error x k = laws.map-error (
        laws.pair-second
          (laws.opt-done (
            laws.preceded-done refl (
              laws.cut-done
                (laws.terminated-done (parse_identifier-done f64_from_str laws x _) refl))))
          (laws.preceded-error (tag_miss Token.parallel t i k)))

    pub declare_class_stmt-error :
        Differs t Token.class → declare_class_stmt nom f64_from_str is_version stmt (t ∷ i) ≡ error
    unfolding declare_class_stmt
    declare_class_stmt-error h =
        laws.map-error (laws.pair-error (laws.preceded-error (tag_miss Token.class t i h)))

    pub declare_func_stmt-error :
        Differs t Token.function
        → declare_func_stmt nom f64_from_str is_version stmt (t ∷ i) ≡ error
    unfolding declare_func_stmt
    declare_func_stmt-error h =
        laws.map-error (laws.pair-error (laws.preceded-error (tag_miss Token.function t i h)))

    pub declare_property_stmt-error :
        (discriminant t == 45) ≡ false
        → declare_property_stmt nom f64_from_str is_version (t ∷ i) ≡ error
    unfolding declare_property_stmt
    declare_property_stmt-error h = laws.map-error (
        laws.terminated-error
          (laws.separated_pair-error (parse_identifier-error f64_from_str laws t i h)))

    pub if_stmt-error :
        Differs t Token.if → if_stmt nom f64_from_str is_version stmt (t ∷ i) ≡ error
    unfolding if_stmt
    if_stmt-error h = laws.map-error (laws.preceded-error (tag_miss Token.if t i h))

    pub import_stmt-error :
        Differs t Token.import → import_stmt nom f64_from_str is_version (t ∷ i) ≡ error
    unfolding import_stmt
    import_stmt-error h =
        laws.context-error (laws.map-error (laws.preceded-error (tag_miss Token.import t i h)))

    pub let_assign_stmt-error :
        Differs t Token.let' → let_assign_stmt nom f64_from_str is_version (t ∷ i) ≡ error
    unfolding let_assign_stmt
    let_assign_stmt-error h = laws.map-error (laws.preceded-error (tag_miss Token.let' t i h))

    pub return_stmt-error :
        Differs t Token.return → return_stmt nom f64_from_str is_version (t ∷ i) ≡ error
    unfolding return_stmt
    return_stmt-error h = laws.map-error (laws.delimited-error (tag_miss Token.return t i h))

    pub while_stmt-error :
        Differs t Token.while → while_stmt nom f64_from_str is_version stmt (t ∷ i) ≡ error
    unfolding while_stmt
    while_stmt-error h =
        laws.map-error (laws.pair-error (laws.preceded-error (tag_miss Token.while t i h)))
