-- ===== src/Dsl/Scanner/Tests.antt =====
-- The theorems of the scanner at concrete texts, with parsers of characters that satisfy the laws.
use Prim.Native.Char.{Char, code}
use brane.Prelude.{
  ℕ, ◌-◌, ◌≡◌, refl, Bool, not, ◌&&◌, ◌||◌, leb, take, length, true, Option, none, some, String, [],
  ◌∷◌, ◌++◌, if◌then◌else◌, here, there,
}
use brane.Prelude.Codes.{chars}
use brane.Dsl.Syntax.Token.{Token}
use brane.Dsl.Syntax.Parsed.{ParsedOf, done, error, then'}
use brane.Dsl.Syntax.Combinators.{combinators, combinators-laws}
use brane.Dsl.Scanner.Characters.{
  Span, Scanner, Characters, CharactersLaws, strip, skip_spaces, is_space, contains,
}
use brane.Dsl.Scanner.Scan.{scan_token}
use brane.Dsl.Scanner.Words.{scan_token-keyword, scan_token-spaced_comment}

tag_of : String → Option Span → ParsedOf Char Span
tag_of w none = error
tag_of w (some r) = done r (chars w)

-- one character of the text, if the test allows it
one : (Char → Bool) → Scanner Span
one test [] = error
one test (c ∷ i) = if test c then done i (c ∷ []) else error

-- the characters in front that the test allows, and the rest
front : (Char → Bool) → Span → Span
front test [] = []
front test (c ∷ i) = if test c then c ∷ front test i else []

behind : (Char → Bool) → Span → Span
behind test [] = []
behind test (c ∷ i) = if test c then behind test i else c ∷ i

at_least_one : Span → Span → ParsedOf Char Span
at_least_one [] r = error
at_least_one (c ∷ s) r = done r (c ∷ s)

some_of : (Char → Bool) → Scanner Span
some_of test i = at_least_one (front test i) (behind test i)

between : ℕ → ℕ → Char → Bool
between a b c = leb a (code c) && leb (code c) b

letter : Char → Bool
letter c = between 65 90 c || between 97 122 c

-- the text before a word
until : Span → Span → Span → ParsedOf Char Span
until w before [] = error
until w before (c ∷ i) = elim (strip w (c ∷ i)) [
  | some r ↦ done (c ∷ i) before
  | none ↦ until w (before ++ c ∷ []) i
]

-- `escaped` allows no escapes here.
parsers : Characters
parsers = record {
  tag = λ w i. tag_of w (strip (chars w) i);
  char = λ w. one (contains (chars w));
  one_of = λ w. one (contains (chars w));
  is_not = λ w. some_of (λ c. not (contains (chars w) c));
  take_until = λ w. until (chars w) [];
  escaped = λ p w q. p;
  alpha1 = some_of letter;
  alphanumeric1 = some_of (λ c. letter c || between 48 57 c);
  multispace0 = λ i. done (skip_spaces i) (front is_space i);
  recognize = λ p i. then' (p i) (λ r x. done r (take (length i - length r) i));
  value = λ x p i. then' (p i) (λ r y. done r x);
  many1 = λ p. combinators.map (combinators.pair p (combinators.many0 p)) (λ x. some (x.0 ∷ x.1));
}

-- A character that `is_not` excludes is not taken.
front-excluded :
    (w : Span) (c : Char) (i : Span)
    → contains w c ≡ true
    → front (λ d. not (contains w d)) (c ∷ i) ≡ []
unfolding front
front-excluded w c i h = rw h refl

parsers-laws : CharactersLaws parsers
unfolding parsers tag_of then' some_of at_least_one
parsers-laws = record {
  tag-strip = λ h. rw h refl;
  tag-none = λ h. rw h refl;
  is_not-member = λ {w} {c} {i} h. rw (front-excluded (chars w) c i h) refl;
  multispace0-skip = λ i. (front is_space i, refl);
  value-error = λ h. rw h refl;
}

-- `format`
scan_token-keyword_example :
    scan_token combinators parsers (chars "format") ≡ done (chars "mat") Token.for
unfolding chars skip_spaces
scan_token-keyword_example =
    scan_token-keyword combinators-laws parsers-laws (there (there (there (there here))))
      (chars "mat")

scan_token-spaced_comment_example :
    scan_token combinators parsers ("\n" ∷ chars "//" ++ chars " b")
    ≡ done (chars "/" ++ chars " b") Token.slash
scan_token-spaced_comment_example =
    scan_token-spaced_comment combinators-laws parsers-laws "\n" (chars " b") refl
