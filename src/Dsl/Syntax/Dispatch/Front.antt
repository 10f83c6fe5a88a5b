-- ===== src/Dsl/Syntax/Dispatch/Front.antt =====
-- The alternatives of `parse_stmt` of brane-dsl/src/parser/bscript.rs before an expression.
use brane.Prelude.{ℕ, ◌≡◌, refl, ◌∙◌, Bool, Option, String, List, [], ◌∷◌}
use brane.Dsl.Ast.{Stmt}
use brane.Dsl.Syntax.Token.{Token, discriminant}
use brane.Dsl.Syntax.Parsed.{Parser, done}
use brane.Dsl.Syntax.Nom.{Nom, NomLaws}
use brane.Dsl.Syntax.Statement.{
  assign_stmt, on_stmt, block_stmt, parallel_stmt, declare_func_stmt, declare_class_stmt, for_stmt,
  alternatives,
}
use brane.Dsl.Syntax.Operators.{look_up}
use brane.Dsl.Syntax.Alternatives
use brane.Dsl.Syntax.Alternatives.{Differs, AllErrors, alt-nth, alt-skip, alt-all}

module _ (nom : Nom) (f64_from_str : String → Option ℕ) (is_version : String → Bool)
    (laws : NomLaws nom) (stmt : Parser Stmt) where
  -- The alternatives of `parse_stmt` give `s` for the tokens `i`, and leave `r`.
  abbrev pub Takes : Stmt → List Token → List Token → Type 0
  Takes s i r = alternatives nom f64_from_str is_version stmt i ≡ done r s

  pub Takes-for :
      (s : Stmt) (i r : List Token)
      → for_stmt nom f64_from_str is_version stmt i ≡ done r s
      → Takes s i r
  unfolding alternatives
  Takes-for s i r h = laws.alt-done h

  pub Takes-assign :
      (s : Stmt) (t : Token) (i r : List Token)
      → Differs t Token.for
      → assign_stmt nom f64_from_str is_version (t ∷ i) ≡ done r s
      → Takes s (t ∷ i) r
  unfolding alternatives
  Takes-assign s t i r e h =
      laws.alt-error (Alternatives.for_stmt-error nom f64_from_str is_version laws stmt t i e)
      ∙ laws.alt-done h

  pub Takes-on :
      (s : Stmt) (i r : List Token)
      → on_stmt nom f64_from_str is_version stmt (Token.on ∷ i) ≡ done r s
      → Takes s (Token.on ∷ i) r
  unfolding alternatives discriminant look_up
  Takes-on s i r h =
      alt-nth nom f64_from_str is_version laws
        (for_stmt nom f64_from_str is_version stmt ∷ assign_stmt nom f64_from_str is_version ∷ [])
        (on_stmt nom f64_from_str is_version stmt) _ _ r s
        (
          Alternatives.for_stmt-error nom f64_from_str is_version laws stmt Token.on _ refl,
          (
            Alternatives.assign_stmt-error nom f64_from_str is_version laws stmt Token.on _ (
                Alternatives.assignment-error nom f64_from_str is_version laws stmt Token.on _
                  refl),
            tt,
          ),
        )
        h

  pub Takes-block :
      (s : Stmt) (i r : List Token)
      → block_stmt nom f64_from_str is_version stmt (Token.left_brace ∷ i) ≡ done r s
      → Takes s (Token.left_brace ∷ i) r
  unfolding alternatives discriminant look_up
  Takes-block s i r h =
      alt-nth nom f64_from_str is_version laws
        (for_stmt nom f64_from_str is_version stmt
          ∷ assign_stmt nom f64_from_str is_version
          ∷ on_stmt nom f64_from_str is_version stmt
          ∷ [])
        (block_stmt nom f64_from_str is_version stmt) _ _ r s
        (
          Alternatives.for_stmt-error nom f64_from_str is_version laws stmt Token.left_brace _ refl,
          (
            Alternatives.assign_stmt-error nom f64_from_str is_version laws stmt Token.left_brace _
                (Alternatives.assignment-error nom f64_from_str is_version laws stmt
                  Token.left_brace _ refl),
            (
              Alternatives.on_stmt-error nom f64_from_str is_version laws stmt Token.left_brace _
                  refl,
              tt,
            ),
          ),
        )
        h

  pub Takes-parallel :
      (s : Stmt) (i r : List Token)
      → parallel_stmt nom f64_from_str is_version stmt (Token.parallel ∷ i) ≡ done r s
      → Takes s (Token.parallel ∷ i) r
  unfolding alternatives discriminant look_up
  Takes-parallel s i r h =
      alt-nth nom f64_from_str is_version laws
        (for_stmt nom f64_from_str is_version stmt
          ∷ assign_stmt nom f64_from_str is_version
          ∷ on_stmt nom f64_from_str is_version stmt
          ∷ block_stmt nom f64_from_str is_version stmt
          ∷ [])
        (parallel_stmt nom f64_from_str is_version stmt) _ _ r s
        (
          Alternatives.for_stmt-error nom f64_from_str is_version laws stmt Token.parallel _ refl,
          (
            Alternatives.assign_stmt-error nom f64_from_str is_version laws stmt Token.parallel _ (
                Alternatives.assignment-error nom f64_from_str is_version laws stmt Token.parallel _
                  refl),
            (
              Alternatives.on_stmt-error nom f64_from_str is_version laws stmt Token.parallel _
                  refl,
              (
                Alternatives.block_stmt-error nom f64_from_str is_version laws stmt Token.parallel _
                    refl,
                tt,
              ),
            ),
          ),
        )
        h

  pub Takes-let_parallel :
      (s : Stmt) (i r : List Token)
      → parallel_stmt nom f64_from_str is_version stmt (Token.let' ∷ i) ≡ done r s
      → Takes s (Token.let' ∷ i) r
  unfolding alternatives discriminant look_up
  Takes-let_parallel s i r h =
      alt-nth nom f64_from_str is_version laws
        (for_stmt nom f64_from_str is_version stmt
          ∷ assign_stmt nom f64_from_str is_version
          ∷ on_stmt nom f64_from_str is_version stmt
          ∷ block_stmt nom f64_from_str is_version stmt
          ∷ [])
        (parallel_stmt nom f64_from_str is_version stmt) _ _ r s
        (
          Alternatives.for_stmt-error nom f64_from_str is_version laws stmt Token.let' _ refl,
          (
            Alternatives.assign_stmt-error nom f64_from_str is_version laws stmt Token.let' _ (
                Alternatives.assignment-error nom f64_from_str is_version laws stmt Token.let' _
                  refl),
            (
              Alternatives.on_stmt-error nom f64_from_str is_version laws stmt Token.let' _ refl,
              (
                Alternatives.block_stmt-error nom f64_from_str is_version laws stmt Token.let' _
                    refl,
                tt,
              ),
            ),
          ),
        )
        h

  pub Takes-class :
      (s : Stmt) (i r : List Token)
      → declare_class_stmt nom f64_from_str is_version stmt (Token.class ∷ i) ≡ done r s
      → Takes s (Token.class ∷ i) r
  unfolding alternatives discriminant look_up
  Takes-class s i r h =
      alt-nth nom f64_from_str is_version laws
        (for_stmt nom f64_from_str is_version stmt
          ∷ assign_stmt nom f64_from_str is_version
          ∷ on_stmt nom f64_from_str is_version stmt
          ∷ block_stmt nom f64_from_str is_version stmt
          ∷ parallel_stmt nom f64_from_str is_version stmt
          ∷ [])
        (declare_class_stmt nom f64_from_str is_version stmt) _ _ r s
        (
          Alternatives.for_stmt-error nom f64_from_str is_version laws stmt Token.class _ refl,
          (
            Alternatives.assign_stmt-error nom f64_from_str is_version laws stmt Token.class _ (
                Alternatives.assignment-error nom f64_from_str is_version laws stmt Token.class _
                  refl),
            (
              Alternatives.on_stmt-error nom f64_from_str is_version laws stmt Token.class _ refl,
              (
                Alternatives.block_stmt-error nom f64_from_str is_version laws stmt Token.class _
                    refl,
                (
                  Alternatives.parallel_stmt-error nom f64_from_str is_version laws stmt Token.class
                      _ refl refl,
                  tt,
                ),
              ),
            ),
          ),
        )
        h

  pub Takes-func :
      (s : Stmt) (i r : List Token)
      → declare_func_stmt nom f64_from_str is_version stmt (Token.function ∷ i) ≡ done r s
      → Takes s (Token.function ∷ i) r
  unfolding alternatives discriminant look_up
  Takes-func s i r h =
      alt-nth nom f64_from_str is_version laws
        (for_stmt nom f64_from_str is_version stmt
          ∷ assign_stmt nom f64_from_str is_version
          ∷ on_stmt nom f64_from_str is_version stmt
          ∷ block_stmt nom f64_from_str is_version stmt
          ∷ parallel_stmt nom f64_from_str is_version stmt
          ∷ declare_class_stmt nom f64_from_str is_version stmt
          ∷ [])
        (declare_func_stmt nom f64_from_str is_version stmt) _ _ r s
        (
          Alternatives.for_stmt-error nom f64_from_str is_version laws stmt Token.function _ refl,
          (
            Alternatives.assign_stmt-error nom f64_from_str is_version laws stmt Token.function _ (
                Alternatives.assignment-error nom f64_from_str is_version laws stmt Token.function _
                  refl),
            (
              Alternatives.on_stmt-error nom f64_from_str is_version laws stmt Token.function _
                  refl,
              (
                Alternatives.block_stmt-error nom f64_from_str is_version laws stmt Token.function _
                    refl,
                (
                  Alternatives.parallel_stmt-error nom f64_from_str is_version laws stmt
                      Token.function _ refl refl,
                  (
                    Alternatives.declare_class_stmt-error nom f64_from_str is_version laws stmt
                        Token.function _ refl,
                    tt,
                  ),
                ),
              ),
            ),
          ),
        )
        h
