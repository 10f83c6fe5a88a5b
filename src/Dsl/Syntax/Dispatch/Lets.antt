-- ===== src/Dsl/Syntax/Dispatch/Lets.antt =====
-- A `let` in `parse_stmt` of brane-dsl/src/parser/bscript.rs, and a closing brace.
use brane.Prelude.{ℕ, ◌≡◌, refl, Bool, Option, String, List, [], ◌∷◌}
use brane.Dsl.Ast.{Ident, Stmt}
use brane.Dsl.Syntax.Token.{Token, discriminant}
use brane.Dsl.Syntax.Parsed.{Parser, done, error}
use brane.Dsl.Syntax.Nom.{Nom, NomLaws}
use brane.Dsl.Syntax.Statement.{
  let_assign_stmt, assign_stmt, on_stmt, block_stmt, parallel_stmt, declare_func_stmt,
  declare_class_stmt, if_stmt, import_stmt, for_stmt, expr_stmt, alternatives,
}
use brane.Dsl.Syntax.Operators.{look_up}
use brane.Dsl.Syntax.Alternatives
use brane.Dsl.Syntax.Alternatives.{Differs, AllErrors, alt-nth, alt-skip, alt-all}
use brane.Dsl.Syntax.Starts.{parse_expression-error, expr_stmt-error}

module _ (nom : Nom) (f64_from_str : String → Option ℕ) (is_version : String → Bool)
    (laws : NomLaws nom) (stmt : Parser Stmt) where
  -- The alternatives of `parse_stmt` give `s` for the tokens `i`, and leave `r`.
  abbrev Takes : Stmt → List Token → List Token → Type 0
  Takes s i r = alternatives nom f64_from_str is_version stmt i ≡ done r s

  -- behind `let x :=`, a token `t` other than `parallel`
  pub Takes-let_assign :
      (s : Stmt) (x : Ident) (t : Token) (i r : List Token)
      → Differs t Token.parallel
      → let_assign_stmt nom f64_from_str is_version
          (Token.let' ∷ Token.ident x ∷ Token.assign ∷ t ∷ i)
        ≡ done r s
      → Takes s (Token.let' ∷ Token.ident x ∷ Token.assign ∷ t ∷ i) r
  unfolding alternatives discriminant look_up
  Takes-let_assign s x t i r h k =
      alt-nth nom f64_from_str is_version laws
        (for_stmt nom f64_from_str is_version stmt
          ∷ assign_stmt nom f64_from_str is_version
          ∷ on_stmt nom f64_from_str is_version stmt
          ∷ block_stmt nom f64_from_str is_version stmt
          ∷ parallel_stmt nom f64_from_str is_version stmt
          ∷ declare_class_stmt nom f64_from_str is_version stmt
          ∷ declare_func_stmt nom f64_from_str is_version stmt
          ∷ expr_stmt nom f64_from_str is_version
          ∷ if_stmt nom f64_from_str is_version stmt
          ∷ import_stmt nom f64_from_str is_version
          ∷ [])
        (let_assign_stmt nom f64_from_str is_version) _ _ r s
        (
          Alternatives.for_stmt-error nom f64_from_str is_version laws stmt Token.let' _ refl,
          (
            Alternatives.assign_stmt-error nom f64_from_str is_version laws stmt Token.let' _ (
                Alternatives.assignment-error nom f64_from_str is_version laws stmt Token.let' _
                  refl),
            (
              Alternatives.on_stmt-error nom f64_from_str is_version laws stmt Token.let' _ refl,
              (
                Alternatives.block_stmt-error nom f64_from_str is_version laws stmt Token.let' _
                    refl,
                (
                  Alternatives.parallel_stmt-let_error nom f64_from_str is_version laws stmt t i x
                      h,
                  (
                    Alternatives.declare_class_stmt-error nom f64_from_str is_version laws stmt
                        Token.let' _ refl,
                    (
                      Alternatives.declare_func_stmt-error nom f64_from_str is_version laws stmt
                          Token.let' _ refl,
                      (
                        expr_stmt-error nom f64_from_str is_version laws _ (
                            parse_expression-error nom f64_from_str is_version laws Token.let' _
                              refl refl refl refl refl refl refl refl),
                        (
                          Alternatives.if_stmt-error nom f64_from_str is_version laws stmt
                              Token.let' _ refl,
                          (
                            Alternatives.import_stmt-error nom f64_from_str is_version laws stmt
                                Token.let' _ refl,
                            tt,
                          ),
                        ),
                      ),
                    ),
                  ),
                ),
              ),
            ),
          ),
        )
        k

  -- No statement starts with the brace that closes a block.
  pub alternatives-brace :
      (i : List Token)
      → alternatives nom f64_from_str is_version stmt (Token.right_brace ∷ i) ≡ error
  unfolding alternatives discriminant look_up
  alternatives-brace i = alt-all nom f64_from_str is_version laws _ _ (Token.right_brace ∷ i) (
    Alternatives.for_stmt-error nom f64_from_str is_version laws stmt Token.right_brace _ refl,
    (
      Alternatives.assign_stmt-error nom f64_from_str is_version laws stmt Token.right_brace _ (
          Alternatives.assignment-error nom f64_from_str is_version laws stmt Token.right_brace _
            refl),
      (
        Alternatives.on_stmt-error nom f64_from_str is_version laws stmt Token.right_brace _ refl,
        (
          Alternatives.block_stmt-error nom f64_from_str is_version laws stmt Token.right_brace _
              refl,
          (
            Alternatives.parallel_stmt-error nom f64_from_str is_version laws stmt Token.right_brace
                _ refl refl,
            (
              Alternatives.declare_class_stmt-error nom f64_from_str is_version laws stmt
                  Token.right_brace _ refl,
              (
                Alternatives.declare_func_stmt-error nom f64_from_str is_version laws stmt
                    Token.right_brace _ refl,
                (
                  expr_stmt-error nom f64_from_str is_version laws _ (
                      parse_expression-error nom f64_from_str is_version laws Token.right_brace _
                        refl refl refl refl refl refl refl refl),
                  (
                    Alternatives.if_stmt-error nom f64_from_str is_version laws stmt
                        Token.right_brace _ refl,
                    (
                      Alternatives.import_stmt-error nom f64_from_str is_version laws stmt
                          Token.right_brace _ refl,
                      (
                        Alternatives.let_assign_stmt-error nom f64_from_str is_version laws stmt
                            Token.right_brace _ refl,
                        (
                          Alternatives.return_stmt-error nom f64_from_str is_version laws stmt
                              Token.right_brace _ refl,
                          (
                            Alternatives.while_stmt-error nom f64_from_str is_version laws stmt
                                Token.right_brace _ refl,
                            tt,
                          ),
                        ),
                      ),
                    ),
                  ),
                ),
              ),
            ),
          ),
        ),
      ),
    ),
  )
