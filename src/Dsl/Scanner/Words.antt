-- ===== src/Dsl/Scanner/Words.antt =====
-- How brane-dsl/src/scanner/scanner.rs takes keywords and comments.
use Prim.Native.Char.{Char, code}
use brane.Prelude.{
  ◌≡◌, refl, ap, ◌∙◌, true, false, Option, none, some, Option-cases, inl, inr, String, List, [],
  ◌∷◌, ◌++◌, ◌==◌, In, here, there, arith,
}
use brane.Prelude.Codes.{chars}
use brane.Dsl.Syntax.Token.{Token}
use brane.Dsl.Syntax.Parsed.{ParsedOf, done, error}
use brane.Dsl.Syntax.Nom.{NomOf, NomLaws}
use brane.Dsl.Scanner.Characters.{
  Span, Scanner, Characters, CharactersLaws, strip, skip_spaces, is_space,
}
use brane.Dsl.Scanner.Scan.{
  keywords, ws0, word_tags, keyword, operator, single_line_comment, multi_line_comment, comment,
  scan_token,
}

abbrev word_or : Token → Option (Token × Span) → Option Span → Option (Token × Span)
word_or token more none = more
word_or token more (some r) = some (token, r)

-- the first word that the text starts with, and what is behind it
unfoldable pub first_word : List (String × Token) → Span → Option (Token × Span)
first_word [] i = none
first_word ((word, token) ∷ rest) i = word_or token (first_word rest i) (strip (chars word) i)

abbrev pub scanned : Option (Token × Span) → ParsedOf Char Token
scanned none = error
scanned (some (t, r)) = done r t

space-no_slash : (c : Char) → is_space c ≡ true → (47 == code c) ≡ false
space-no_slash c h = ground arith

skip_spaces-space : (c : Char) (i : Span) → is_space c ≡ true → skip_spaces (c ∷ i) ≡ skip_spaces i
unfolding skip_spaces
skip_spaces-space c i h = rw h refl

module _ {nom : NomOf Char} {cs : Characters} (laws : NomLaws nom)
    (char_laws : CharactersLaws cs) where
  word_tags-first :
      (word : String) (token : Token) (rest : List (String × Token)) (i : Span)
      → nom.alt (word_tags nom cs ((word, token) ∷ rest)) i
        ≡ scanned (first_word ((word, token) ∷ rest) i)
  unfolding word_tags first_word
  word_tags-first word token [] i = elim (Option-cases (strip (chars word) i)) [
    | inl h ↦ rw h (laws.alt-last _ _ ∙ laws.map-error (char_laws.tag-none h))
    | inr (r, h) ↦ rw h (laws.alt-done (laws.map-done (char_laws.tag-strip h) refl))
  ]
  word_tags-first word token ((w, t) ∷ rest) i = elim (Option-cases (strip (chars word) i)) [
    | inl h ↦
        rw h (laws.alt-error (laws.map-error (char_laws.tag-none h)) ∙ word_tags-first w t rest i)
    | inr (r, h) ↦ rw h (laws.alt-done (laws.map-done (char_laws.tag-strip h) refl))
  ]

  ws0-done :
      {A : Type 0} (p : Scanner A) (x : A) (i r : Span)
      → p (skip_spaces i) ≡ done r x
      → ws0 nom cs p i ≡ done (skip_spaces r) x
  unfolding ws0
  ws0-done p x i r h =
      laws.delimited-done ((char_laws.multispace0-skip i).1) h ((char_laws.multispace0-skip r).1)

  ws0-error :
      {A : Type 0} (p : Scanner A) (i : Span) → p (skip_spaces i) ≡ error → ws0 nom cs p i ≡ error
  unfolding ws0
  ws0-error p i h = laws.delimited-second ((char_laws.multispace0-skip i).1) h

  -- A text that starts with no comment.
  comment-error :
      (i : Span)
      → strip (chars "//") i ≡ none
      → strip (chars "/*") i ≡ none
      → comment nom cs i ≡ error
  unfolding comment single_line_comment multi_line_comment
  comment-error i h k =
      laws.alt-error (char_laws.value-error (laws.pair-error (char_laws.tag-none h)))
      ∙ laws.alt-last _ _
      ∙ char_laws.value-error (laws.pair-error (char_laws.tag-none k))

  -- A text that starts with a keyword.
  keyword-done :
      (i r : Span) (t : Token)
      → strip (chars "//") i ≡ none
      → strip (chars "/*") i ≡ none
      → first_word keywords (skip_spaces i) ≡ some (t, r)
      → scan_token nom cs i ≡ done (skip_spaces r) t
  unfolding scan_token keyword
  keyword-done i r t h k e =
      laws.alt-error (comment-error i h k)
      ∙ laws.alt-done (ws0-done _ t i r (word_tags-first _ _ _ _ ∙ ap scanned e))

  -- Every keyword at the start of a text is a token, whatever characters follow it, those of a
  -- longer name included; the white space behind it is taken too.
  pub scan_token-keyword :
      {word : String} {token : Token}
      → In (word, token) keywords
      → (r : Span) → scan_token nom cs (chars word ++ r) ≡ done (skip_spaces r) token
  unfolding chars strip skip_spaces first_word
  scan_token-keyword here r = keyword-done (chars "break" ++ r) r Token.break refl refl refl
  scan_token-keyword (there here) r = keyword-done (chars "class" ++ r) r Token.class refl refl refl
  scan_token-keyword (there (there here)) r =
      keyword-done (chars "continue" ++ r) r Token.continue refl refl refl
  scan_token-keyword (there (there (there here))) r =
      keyword-done (chars "else" ++ r) r Token.else' refl refl refl
  scan_token-keyword (there (there (there (there here)))) r =
      keyword-done (chars "for" ++ r) r Token.for refl refl refl
  scan_token-keyword (there (there (there (there (there here))))) r =
      keyword-done (chars "func" ++ r) r Token.function refl refl refl
  scan_token-keyword (there (there (there (there (there (there here)))))) r =
      keyword-done (chars "if" ++ r) r Token.if refl refl refl
  scan_token-keyword (there (there (there (there (there (there (there here))))))) r =
      keyword-done (chars "import" ++ r) r Token.import refl refl refl
  scan_token-keyword (there (there (there (there (there (there (there (there here)))))))) r =
      keyword-done (chars "let" ++ r) r Token.let' refl refl refl
  scan_token-keyword (there (there (there (there (there (there (there (there (there here)))))))))
        r =
      keyword-done (chars "new" ++ r) r Token.new refl refl refl
  scan_token-keyword
        (there (there (there (there (there (there (there (there (there (there here)))))))))) r =
      keyword-done (chars "on" ++ r) r Token.on refl refl refl
  scan_token-keyword
        (there (there (there (there (there (there (there (there (there (there (there here)))))))))))
        r =
      keyword-done (chars "parallel" ++ r) r Token.parallel refl refl refl
  scan_token-keyword
        (there (
          there
            (there (there (there (there (there (there (there (there (there (there here))))))))))))
        r =
      keyword-done (chars "return" ++ r) r Token.return refl refl refl
  scan_token-keyword
        (there (
          there (
            there (
              there (there (there (there (there (there (there (there (there (there here)))))))))))))
        r =
      keyword-done (chars "unit" ++ r) r Token.unit refl refl refl
  scan_token-keyword
        (there (
          there (
            there (
              there (
                there
                  (there (there (there (there (there (there (there (there (there here))))))))))))))
        r =
      keyword-done (chars "while" ++ r) r Token.while refl refl refl
  scan_token-keyword
        (there (
          there (
            there (
              there (
                there (
                  there
                    (there (there (there (there (there (there (there (there (there x)))))))))))))))
        r =
      elim x [ ]

  -- A line comment behind white space, as one on the line after another comment, is not a comment:
  -- its first slash is read as a division, and the second is left.
  pub scan_token-spaced_comment :
      (c : Char) (r : Span)
      → is_space c ≡ true
      → scan_token nom cs (c ∷ chars "//" ++ r) ≡ done (chars "/" ++ r) Token.slash
  unfolding chars strip skip_spaces first_word scan_token keyword operator
  scan_token-spaced_comment c r h =
      let no = space-no_slash c h in
      let spaces = skip_spaces-space c (chars "//" ++ r) h in
      laws.alt-error (comment-error (c ∷ chars "//" ++ r) (rw no refl) (rw no refl))
      ∙ laws.alt-error
          (ws0-error _ (c ∷ chars "//" ++ r) (rw spaces (word_tags-first _ _ _ (chars "//" ++ r))))
      ∙ laws.alt-done (
          ws0-done _ Token.slash (c ∷ chars "//" ++ r) (chars "/" ++ r)
            (rw spaces (word_tags-first _ _ _ (chars "//" ++ r))))
