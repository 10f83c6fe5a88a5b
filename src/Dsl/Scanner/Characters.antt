-- ===== src/Dsl/Scanner/Characters.antt =====
-- The parsers of characters in the crate nom that brane-dsl/src/scanner uses: parameters of the
-- model, with what nom documents of them as laws. A span is the list of its characters.
use Prim.Native.Char.{Char, code}
use brane.Prelude.{
  ◌≡◌, Bool, true, false, ◌||◌, Option, none, some, String, List, [], ◌∷◌, ◌==◌, if◌then◌else◌,
}
use brane.Prelude.Codes.{chars}
use brane.Dsl.Syntax.Parsed.{ParserOf, done, error}

abbrev pub Span : Type 0
Span = List Char

abbrev pub Scanner : Type 0 → Type 0
Scanner A = ParserOf Char A

-- the rest of the text behind a prefix
unfoldable pub strip : Span → Span → Option Span
strip [] i = some i
strip (c ∷ w) [] = none
strip (c ∷ w) (d ∷ i) = if code c == code d then strip w i else none

abbrev pub is_space : Char → Bool
is_space c = code c == 32 || code c == 9 || code c == 10 || code c == 13

unfoldable pub skip_spaces : Span → Span
skip_spaces [] = []
skip_spaces (c ∷ i) = if is_space c then skip_spaces i else c ∷ i

unfoldable pub contains : Span → Char → Bool
contains [] c = false
contains (d ∷ w) c = code d == code c || contains w c

pub record Characters : Type 1 where
  pub tag : String → Scanner Span
  pub char : String → Scanner Span
  pub one_of : String → Scanner Span
  pub is_not : String → Scanner Span
  pub take_until : String → Scanner Span
  pub escaped : Scanner Span → String → Scanner Span → Scanner Span
  pub alpha1 : Scanner Span
  pub alphanumeric1 : Scanner Span
  pub multispace0 : Scanner Span
  pub recognize : {A : Type 0} → Scanner A → Scanner Span
  pub value : {A B : Type 0} → B → Scanner A → Scanner B
  pub many1 : {A : Type 0} → Scanner A → Scanner (List A)

pub record CharactersLaws (cs : Characters) : Type 1 where
  pub tag-strip :
      {w : String} {i r : Span} → strip (chars w) i ≡ some r → cs.tag w i ≡ done r (chars w)
  pub tag-none : {w : String} {i : Span} → strip (chars w) i ≡ none → cs.tag w i ≡ error
  -- one character at least
  pub is_not-member :
      {w : String} {c : Char} {i : Span} → contains (chars w) c ≡ true → cs.is_not w (c ∷ i) ≡ error
  -- the white space in front, if any
  pub multispace0-skip : (i : Span) → (s : Span) × (cs.multispace0 i ≡ done (skip_spaces i) s)
  pub value-error :
      {A B : Type 0} {x : B} {p : Scanner A} {i : Span} → p i ≡ error → cs.value x p i ≡ error
