-- ===== src/Dsl/Syntax/Nom.antt =====
-- The combinators of the crate nom that brane-dsl/src/parser uses: parameters of the model, with
-- what nom documents of them as laws.
use brane.Prelude.{◌<◌, ◌≡◌, Option, none, some, String, List, [], ◌∷◌, length}
use brane.Dsl.Syntax.Token.{Token}
use brane.Dsl.Syntax.Parsed.{ParsedOf, ParserOf, done, error}

-- A closure given to `map` panics where it gives `none`. `tuple` is `seq::tuple` of three parsers.
pub record NomOf (T : Type 0) : Type 1 where
  pub alt : {A : Type 0} → List (ParserOf T A) → ParserOf T A
  pub map : {A B : Type 0} → ParserOf T A → (A → Option B) → ParserOf T B
  pub opt : {A : Type 0} → ParserOf T A → ParserOf T (Option A)
  pub cut : {A : Type 0} → ParserOf T A → ParserOf T A
  pub many0 : {A : Type 0} → ParserOf T A → ParserOf T (List A)
  pub pair : {A B : Type 0} → ParserOf T A → ParserOf T B → ParserOf T (A × B)
  pub tuple : {A B C : Type 0} → ParserOf T A → ParserOf T B → ParserOf T C → ParserOf T (A × B × C)
  pub preceded : {A B : Type 0} → ParserOf T A → ParserOf T B → ParserOf T B
  pub terminated : {A B : Type 0} → ParserOf T A → ParserOf T B → ParserOf T A
  pub delimited : {A B C : Type 0} → ParserOf T A → ParserOf T B → ParserOf T C → ParserOf T B
  pub separated_pair :
      {A B C : Type 0} → ParserOf T A → ParserOf T B → ParserOf T C → ParserOf T (A × C)
  pub context : {A : Type 0} → String → ParserOf T A → ParserOf T A
  pub all_consuming : {A : Type 0} → ParserOf T A → ParserOf T A

-- over the tokens of a script
abbrev pub Nom : Type 1
Nom = NomOf Token

pub record NomLaws {T : Type 0} (nom : NomOf T) : Type 1 where
  -- `alt` gives the result of the first parser that does not give an error.
  pub alt-done :
      {A : Type 0} {p : ParserOf T A} {ps : List (ParserOf T A)} {i r : List T} {x : A}
      → p i ≡ done r x
      → nom.alt (p ∷ ps) i ≡ done r x
  pub alt-error :
      {A : Type 0} {p q : ParserOf T A} {ps : List (ParserOf T A)} {i : List T}
      → p i ≡ error
      → nom.alt (p ∷ q ∷ ps) i ≡ nom.alt (q ∷ ps) i
  pub alt-panic :
      {A : Type 0} {p : ParserOf T A} {ps : List (ParserOf T A)} {i : List T}
      → p i ≡ ParsedOf.panic
      → nom.alt (p ∷ ps) i ≡ ParsedOf.panic
  pub alt-last : {A : Type 0} (p : ParserOf T A) (i : List T) → nom.alt (p ∷ []) i ≡ p i
  pub map-done :
      {A B : Type 0} {p : ParserOf T A} {f : A → Option B} {i r : List T} {x : A} {y : B}
      → p i ≡ done r x
      → f x ≡ some y
      → nom.map p f i ≡ done r y
  pub map-error :
      {A B : Type 0} {p : ParserOf T A} {f : A → Option B} {i : List T}
      → p i ≡ error
      → nom.map p f i ≡ error
  pub map-panic :
      {A B : Type 0} {p : ParserOf T A} {f : A → Option B} {i r : List T} {x : A}
      → p i ≡ done r x
      → f x ≡ none
      → nom.map p f i ≡ ParsedOf.panic
  pub map-passes :
      {A B : Type 0} {p : ParserOf T A} {f : A → Option B} {i : List T}
      → p i ≡ ParsedOf.panic
      → nom.map p f i ≡ ParsedOf.panic
  pub opt-done :
      {A : Type 0} {p : ParserOf T A} {i r : List T} {x : A}
      → p i ≡ done r x
      → nom.opt p i ≡ done r (some x)
  pub opt-error :
      {A : Type 0} {p : ParserOf T A} {i : List T} → p i ≡ error → nom.opt p i ≡ done i none
  pub cut-done :
      {A : Type 0} {p : ParserOf T A} {i r : List T} {x : A}
      → p i ≡ done r x
      → nom.cut p i ≡ done r x
  -- `many0` ends at the first error; its parser must take something each time.
  pub many0-error :
      {A : Type 0} {p : ParserOf T A} {i : List T} → p i ≡ error → nom.many0 p i ≡ done i []
  pub many0-done :
      {A : Type 0} {p : ParserOf T A} {i r s : List T} {x : A} {xs : List A}
      → p i ≡ done r x
      → length r < length i
      → nom.many0 p r ≡ done s xs
      → nom.many0 p i ≡ done s (x ∷ xs)
  pub pair-done :
      {A B : Type 0} {p : ParserOf T A} {q : ParserOf T B} {i r s : List T} {x : A} {y : B}
      → p i ≡ done r x
      → q r ≡ done s y
      → nom.pair p q i ≡ done s (x, y)
  pub pair-error :
      {A B : Type 0} {p : ParserOf T A} {q : ParserOf T B} {i : List T}
      → p i ≡ error
      → nom.pair p q i ≡ error
  pub pair-second :
      {A B : Type 0} {p : ParserOf T A} {q : ParserOf T B} {i r : List T} {x : A}
      → p i ≡ done r x
      → q r ≡ error
      → nom.pair p q i ≡ error
  pub preceded-done :
      {A B : Type 0} {p : ParserOf T A} {q : ParserOf T B} {i r s : List T} {x : A} {y : B}
      → p i ≡ done r x
      → q r ≡ done s y
      → nom.preceded p q i ≡ done s y
  pub preceded-error :
      {A B : Type 0} {p : ParserOf T A} {q : ParserOf T B} {i : List T}
      → p i ≡ error
      → nom.preceded p q i ≡ error
  pub preceded-second :
      {A B : Type 0} {p : ParserOf T A} {q : ParserOf T B} {i r : List T} {x : A}
      → p i ≡ done r x
      → q r ≡ error
      → nom.preceded p q i ≡ error
  pub terminated-done :
      {A B : Type 0} {p : ParserOf T A} {q : ParserOf T B} {i r s : List T} {x : A} {y : B}
      → p i ≡ done r x
      → q r ≡ done s y
      → nom.terminated p q i ≡ done s x
  pub terminated-error :
      {A B : Type 0} {p : ParserOf T A} {q : ParserOf T B} {i : List T}
      → p i ≡ error
      → nom.terminated p q i ≡ error
  pub delimited-done :
      {A B C : Type 0} {p : ParserOf T A} {q : ParserOf T B} {o : ParserOf T C} {i r s t : List T}
      {x : A} {y : B} {z : C}
      → p i ≡ done r x
      → q r ≡ done s y
      → o s ≡ done t z
      → nom.delimited p q o i ≡ done t y
  pub delimited-error :
      {A B C : Type 0} {p : ParserOf T A} {q : ParserOf T B} {o : ParserOf T C} {i : List T}
      → p i ≡ error
      → nom.delimited p q o i ≡ error
  pub delimited-second :
      {A B C : Type 0} {p : ParserOf T A} {q : ParserOf T B} {o : ParserOf T C} {i r : List T}
      {x : A}
      → p i ≡ done r x
      → q r ≡ error
      → nom.delimited p q o i ≡ error
  -- all but the last of the three
  pub delimited-third :
      {A B C : Type 0} {p : ParserOf T A} {q : ParserOf T B} {o : ParserOf T C} {i r s : List T}
      {x : A} {y : B}
      → p i ≡ done r x
      → q r ≡ done s y
      → o s ≡ error
      → nom.delimited p q o i ≡ error
  pub separated_pair-done :
      {A B C : Type 0} {p : ParserOf T A} {q : ParserOf T B} {o : ParserOf T C} {i r s t : List T}
      {x : A} {y : B} {z : C}
      → p i ≡ done r x
      → q r ≡ done s y
      → o s ≡ done t z
      → nom.separated_pair p q o i ≡ done t (x, z)
  pub separated_pair-error :
      {A B C : Type 0} {p : ParserOf T A} {q : ParserOf T B} {o : ParserOf T C} {i : List T}
      → p i ≡ error
      → nom.separated_pair p q o i ≡ error
  pub separated_pair-second :
      {A B C : Type 0} {p : ParserOf T A} {q : ParserOf T B} {o : ParserOf T C} {i r : List T}
      {x : A}
      → p i ≡ done r x
      → q r ≡ error
      → nom.separated_pair p q o i ≡ error
  pub tuple-done :
      {A B C : Type 0} {p : ParserOf T A} {q : ParserOf T B} {o : ParserOf T C} {i r s t : List T}
      {x : A} {y : B} {z : C}
      → p i ≡ done r x
      → q r ≡ done s y
      → o s ≡ done t z
      → nom.tuple p q o i ≡ done t (x, y, z)
  pub context-done :
      {A : Type 0} {name : String} {p : ParserOf T A} {i r : List T} {x : A}
      → p i ≡ done r x
      → nom.context name p i ≡ done r x
  pub context-error :
      {A : Type 0} {name : String} {p : ParserOf T A} {i : List T}
      → p i ≡ error
      → nom.context name p i ≡ error
  pub all_consuming-done :
      {A : Type 0} {p : ParserOf T A} {i : List T} {x : A}
      → p i ≡ done [] x
      → nom.all_consuming p i ≡ done [] x
