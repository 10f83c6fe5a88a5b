-- ===== src/Packages/Keys.antt =====
-- A key of the package index determines the name and the version: no version's text has a dash.
use brane.Prelude.{
  ℕ, ◌≡◌, ◌≢◌, refl, sym, ap, ◌∙◌, ◌<◌, ◌^◌, true, Bool-cases, inl, inr, String, [], ◌∷◌, ◌++◌,
  ok_inj, ◌==◌, ==_iff, ==_refl, head-eq_of_cons-eq, tail-eq_of_cons-eq, arith,
}
use brane.Prelude.Codes.{codes, codes_inj}
use brane.Version.{Version, IsU64, is_latest}
use brane.Version.Text.{Text, to_string, from_str, show_u64, latest_text, text_eq}
use brane.Version.Roundtrip.{AllDigits, show_u64-AllDigits, from_str-to_string}
use brane.Packages.{key_of}

abbrev NoDash : Text → Type 0
NoDash [] = Unit
NoDash (c ∷ cs) = (c ≢ b'-') × NoDash cs

AllDigits-NoDash : (t : Text) → AllDigits t → NoDash t
AllDigits-NoDash [] h = tt
AllDigits-NoDash (c ∷ cs) (low, high, h) = (λ e. omega (arith, low, e), AllDigits-NoDash cs h)

NoDash-append : (s t : Text) → NoDash s → NoDash t → NoDash (s ++ t)
NoDash-append [] t h k = k
NoDash-append (c ∷ s) t (d, h) k = (d, NoDash-append s t h k)

latest_text-NoDash : NoDash latest_text
latest_text-NoDash = (
  λ e. omega (arith, e),
  (
    λ e. omega (arith, e),
    (
      λ e. omega (arith, e),
      (λ e. omega (arith, e), (λ e. omega (arith, e), (λ e. omega (arith, e), tt))),
    ),
  ),
)

to_string-NoDash : (v : Version) → IsU64 v → NoDash (to_string v)
unfolding to_string
to_string-NoDash v fits = elim (Bool-cases (is_latest v)) [
  | inl l ↦ rw l latest_text-NoDash
  | inr l ↦ rw l (
      NoDash-append (show_u64 v.major) _ (number v.major fits.major) (
        dot,
        NoDash-append (show_u64 v.minor) _ (number v.minor fits.minor)
            (dot, number v.patch fits.patch),
      ))
]
  where
    number : (n : ℕ) → n < 2 ^ 64 → NoDash (show_u64 n)
    number n h = AllDigits-NoDash (show_u64 n) (show_u64-AllDigits n h)

    dot : ◌≢◌ {A = ℕ} b'.' b'-'
    dot e = omega (arith, e)

NoDash-within : (s ys t : Text) → NoDash s → s ≡ ys ++ (b'-' ∷ t) → ⊥
NoDash-within [] [] t h e = cc
NoDash-within [] (y ∷ ys) t h e = cc
NoDash-within (c ∷ s) [] t (d, h) e = d (head-eq_of_cons-eq e)
NoDash-within (c ∷ s) (y ∷ ys) t (d, h) e = NoDash-within s ys t h (tail-eq_of_cons-eq e)

last_dash :
    (xs ys s t : Text)
    → NoDash s
    → NoDash t
    → xs ++ (b'-' ∷ s) ≡ ys ++ (b'-' ∷ t)
    → (xs ≡ ys) × (s ≡ t)
last_dash [] [] s t h k e = (refl, tail-eq_of_cons-eq e)
last_dash [] (y ∷ ys) s t h k e = absurd (NoDash-within s ys t h (tail-eq_of_cons-eq e))
last_dash (x ∷ xs) [] s t h k e = absurd (NoDash-within t xs s k (sym (tail-eq_of_cons-eq e)))
last_dash (x ∷ xs) (y ∷ ys) s t h k e =
    let (p, q) = last_dash xs ys s t h k (tail-eq_of_cons-eq e) in
    (λ i. head-eq_of_cons-eq e i ∷ p i, q)

to_string_inj : (v w : Version) → IsU64 v → IsU64 w → to_string v ≡ to_string w → v ≡ w
to_string_inj v w h k e =
    ok_inj (sym (from_str-to_string v h) ∙ ap from_str e ∙ from_str-to_string w k)

-- Two packages with versions of `u64` numbers have the same key only if they have the same name and
-- the same version.
pub key_of_inj :
    (name name' : String) (v w : Version)
    → IsU64 v
    → IsU64 w
    → key_of name v ≡ key_of name' w
    → (name ≡ name') × (v ≡ w)
unfolding key_of
key_of_inj name name' v w h k e =
    let (p, q) =
      last_dash (codes name) (codes name') (to_string v) (to_string w) (to_string-NoDash v h)
        (to_string-NoDash w k) e in
    (codes_inj name name' p, to_string_inj v w h k q)

pub text_eq_sound : (s t : Text) → (text_eq s t ≡ true) → s ≡ t
text_eq_sound [] [] h = refl
text_eq_sound (a ∷ s) (b ∷ t) h = elim (Bool-cases (a == b)) [
  | inl e ↦ λ i. (==_iff a b).0 e i ∷ text_eq_sound s t (rw e at h) i
  | inr e ↦ let h' = rw e at h in cc
]
text_eq_sound [] (b ∷ t) h = cc
text_eq_sound (a ∷ s) [] h = cc

pub text_eq_refl : (s : Text) → text_eq s s ≡ true
text_eq_refl [] = refl
text_eq_refl (a ∷ s) = rw (==_refl a) (text_eq_refl s)
