-- ===== src/Dsl/Syntax/Combinators.antt =====
-- Combinators with the behaviour that nom documents: the laws of Dsl/Syntax/Nom can hold.
use brane.Prelude.{
  ℕ, zero, suc, ◌<◌, ◌≡◌, refl, Option, none, some, List, [], ◌∷◌, length, ltb, ltb→lt, lt→ltb,
  Bool-cases, inl, inr, if◌then◌else◌, arith,
}
use brane.Dsl.Syntax.Parsed.{ParsedOf, ParserOf, done, error, failure, spent, then'}
use brane.Dsl.Syntax.Nom.{NomOf, NomLaws}

unfoldable pub alt : {T A : Type 0} → List (ParserOf T A) → ParserOf T A
alt [] i = error
alt (p ∷ ps) i = elim (p i) [
  | done r x ↦ done r x
  | error ↦ alt ps i
  | failure ↦ failure
  | ParsedOf.panic ↦ ParsedOf.panic
  | spent ↦ spent
]

unfoldable pub apply : {T B : Type 0} → List T → Option B → ParsedOf T B
apply r none = ParsedOf.panic
apply r (some y) = done r y

unfoldable pub map : {T A B : Type 0} → ParserOf T A → (A → Option B) → ParserOf T B
unfolding then' apply
map p f i = then' (p i) (λ r x. apply r (f x))

unfoldable pub opt_of : {T A : Type 0} → List T → ParsedOf T A → ParsedOf T (Option A)
opt_of i (done r x) = done r (some x)
opt_of i error = done i none
opt_of i failure = failure
opt_of i ParsedOf.panic = ParsedOf.panic
opt_of i spent = spent

unfoldable pub cut_of : {T A : Type 0} → ParsedOf T A → ParsedOf T A
cut_of (done r x) = done r x
cut_of error = failure
cut_of failure = failure
cut_of ParsedOf.panic = ParsedOf.panic
cut_of spent = spent

-- a round of `many0`; `more` reads the rest
unfoldable pub many_of :
    {T A : Type 0} → List T → (List T → ParsedOf T (List A)) → ParsedOf T A → ParsedOf T (List A)
unfolding then'
many_of i more (done r x) =
    if ltb (length r) (length i) then then' (more r) (λ s xs. done s (x ∷ xs)) else error
many_of i more error = done i []
many_of i more failure = failure
many_of i more ParsedOf.panic = ParsedOf.panic
many_of i more spent = spent

unfoldable pub many : {T A : Type 0} → ℕ → ParserOf T A → ParserOf T (List A)
unfolding many_of
many zero p i = spent
many (suc f) p i = many_of i (many f p) (p i)

unfoldable pub pair : {T A B : Type 0} → ParserOf T A → ParserOf T B → ParserOf T (A × B)
unfolding then'
pair p q i = then' (p i) (λ r x. then' (q r) (λ s y. done s (x, y)))

unfoldable pub all_of : {T A : Type 0} → ParsedOf T A → ParsedOf T A
all_of (done [] x) = done [] x
all_of (done (t ∷ r) x) = error
all_of error = error
all_of failure = failure
all_of ParsedOf.panic = ParsedOf.panic
all_of spent = spent

unfoldable pub combinators : {T : Type 0} → NomOf T
unfolding alt map opt_of cut_of many pair all_of
combinators = record {
  alt = alt;
  map = map;
  opt = λ p i. opt_of i (p i);
  cut = λ p i. cut_of (p i);
  many0 = λ p i. many (suc (length i)) p i;
  pair = pair;
  tuple =
      λ p q o i. then' (p i) (λ r x. then' (q r) (λ s y. then' (o s) (λ t z. done t (x, y, z))));
  preceded = λ p q i. then' (p i) (λ r x. q r);
  terminated = λ p q i. then' (p i) (λ r x. then' (q r) (λ s y. done s x));
  delimited = λ p q o i. then' (p i) (λ r x. then' (q r) (λ s y. then' (o s) (λ t z. done t y)));
  separated_pair =
      λ p q o i. then' (p i) (λ r x. then' (q r) (λ s y. then' (o s) (λ t z. done t (x, z))));
  context = λ name p. p;
  all_consuming = λ p i. all_of (p i);
}

-- More fuel than tokens does not change `many`.
many_enough :
    {T A : Type 0} (p : ParserOf T A) (f g : ℕ) (i : List T)
    → length i < f
    → length i < g
    → many f p i ≡ many g p i
unfolding many many_of
many_enough p zero g i h k = absurd (omega arith)
many_enough p (suc f) zero i h k = absurd (omega arith)
many_enough {T = T} {A = A} p (suc f) (suc g) i h k =
    go (λ r l. many_enough p f g r (omega arith) (omega arith)) (p i)
  where
    go :
        ((r : List T) → length r < length i → many f p r ≡ many g p r)
        → (o : ParsedOf T A) → many_of i (many f p) o ≡ many_of i (many g p) o
    go same (done r x) = elim (Bool-cases (ltb (length r) (length i))) [
      | inl e ↦ let l = ltb→lt (length r) (length i) e in rw e (rw (same r l) refl)
      | inr e ↦ rw e refl
    ]
    go same error = refl
    go same failure = refl
    go same ParsedOf.panic = refl
    go same spent = refl

alt-not_last : {T A : Type 0} (p : ParserOf T A) (i : List T) → alt (p ∷ []) i ≡ p i
unfolding alt
alt-not_last {T = T} {A = A} p i = go (p i)
  where
    go :
        (o : ParsedOf T A)
        → elim o [
          | done r x ↦ done r x
          | error ↦ error
          | failure ↦ failure
          | ParsedOf.panic ↦ ParsedOf.panic
          | spent ↦ spent
        ]
          ≡ o
    go (done r x) = refl
    go error = refl
    go failure = refl
    go ParsedOf.panic = refl
    go spent = refl

many-done :
    {T A : Type 0} (p : ParserOf T A) (i r s : List T) (x : A) (xs : List A)
    → p i ≡ done r x
    → length r < length i
    → many (suc (length r)) p r ≡ done s xs
    → many (suc (length i)) p i ≡ done s (x ∷ xs)
unfolding many many_of then'
many-done p i r s x xs h l m =
    let e = many_enough p (length i) (suc (length r)) r (omega arith) (omega arith) in
    rw (h, lt→ltb (length r) (length i) l, e, m) refl

pub combinators-laws : {T : Type 0} → NomLaws (combinators {T = T})
unfolding combinators alt map apply opt_of cut_of many many_of pair all_of then'
combinators-laws = record {
  alt-done = λ h. rw h refl;
  alt-error = λ h. rw h refl;
  alt-panic = λ h. rw h refl;
  alt-last = alt-not_last;
  map-done = λ h k. rw (h, k) refl;
  map-error = λ h. rw h refl;
  map-panic = λ h k. rw (h, k) refl;
  map-passes = λ h. rw h refl;
  opt-done = λ h. rw h refl;
  opt-error = λ h. rw h refl;
  cut-done = λ h. rw h refl;
  many0-error = λ h. rw h refl;
  many0-done = λ {A} {p} {i} {r} {s} {x} {xs} h l m. many-done p i r s x xs h l m;
  pair-done = λ h k. rw (h, k) refl;
  pair-error = λ h. rw h refl;
  pair-second = λ h k. rw (h, k) refl;
  preceded-done = λ h k. rw (h, k) refl;
  preceded-error = λ h. rw h refl;
  preceded-second = λ h k. rw (h, k) refl;
  terminated-done = λ h k. rw (h, k) refl;
  terminated-error = λ h. rw h refl;
  delimited-done = λ h k l. rw (h, k, l) refl;
  delimited-error = λ h. rw h refl;
  delimited-second = λ h k. rw (h, k) refl;
  delimited-third = λ h k l. rw (h, k, l) refl;
  separated_pair-done = λ h k l. rw (h, k, l) refl;
  separated_pair-error = λ h. rw h refl;
  separated_pair-second = λ h k. rw (h, k) refl;
  tuple-done = λ h k l. rw (h, k, l) refl;
  context-done = λ h. h;
  context-error = λ h. h;
  all_consuming-done = λ h. rw h refl;
}
