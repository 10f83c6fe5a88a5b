-- ===== src/Version/Parsed.antt =====
-- What a successful parse of a version promises.
use brane.Prelude.{
  ℕ, ◌+◌, ◌-◌, ◌*◌, ◌^◌, ◌<◌, ◌≡◌, refl, true, false, [], ◌∷◌, map, Outcome, ok, err, map_err,
  ◌>>=◌, if◌then◌else◌, arith, Bool-cases, inl, inr,
}
use brane.Version.{Version, IsU64, is_latest, latest}
use brane.Version.Text.{
  Text, ParseIntError, ParseError, parse_digits, parse_u64, parse_part, major_parse_error,
  minor_parse_error, patch_parse_error, find_dot, dot2_of, smajor_of, sminor_of, spatch_of, skip_v,
  from_str, text_eq, to_lower, latest_text,
}

parse_digits-bound : (n : ℕ) (t : Text) (m : ℕ) → n < 2 ^ 64 → parse_digits n t ≡ ok m → m < 2 ^ 64
unfolding parse_digits
parse_digits-bound n [] m h e = ground arith
parse_digits-bound n (c ∷ t) m h e = ground (arith, parse_digits-bound (n * 10 + (c - b'0')) t m)

parse_u64-bound : (t : Text) (m : ℕ) → parse_u64 t ≡ ok m → m < 2 ^ 64
unfolding parse_u64
parse_u64-bound [] m e = cc
parse_u64-bound (c ∷ []) m e = parse_digits-bound 0 (c ∷ []) m (omega arith) e
parse_u64-bound (c ∷ d ∷ cs) m e =
    ground (arith, parse_digits-bound 0 (d ∷ cs) m, parse_digits-bound 0 (c ∷ d ∷ cs) m)

-- the value of one of the three numbers
parse_major-bound :
    (e : ParseIntError → ParseError) (t : Text) (m : ℕ)
    → map_err e (parse_u64 t) ≡ ok m
    → m < 2 ^ 64
parse_major-bound e t m h = ground (arith, parse_u64-bound t m)

parse_part-bound :
    (e : Text → ParseIntError → ParseError) (t : Text) (m : ℕ) → parse_part e t ≡ ok m → m < 2 ^ 64
unfolding parse_part
parse_part-bound e [] m h = ground arith
parse_part-bound e (c ∷ t) m h = parse_major-bound (e (c ∷ t)) (c ∷ t) m h

is_latest-latest : is_latest latest ≡ true
unfolding is_latest latest
is_latest-latest = refl

IsU64-latest : IsU64 latest
unfolding latest
IsU64-latest = omega arith

-- the three numbers, put together
finish : (r₁ r₂ r₃ : Outcome ParseError ℕ) → Outcome ParseError Version
finish r₁ r₂ r₃ = do
  major ← r₁
  minor ← r₂
  patch ← r₃
  let result : Version = record { major = major; minor = minor; patch = patch }
  if is_latest result then err ParseError.accidental_latest else ok result

abbrev Bounded : Outcome ParseError ℕ → Type 0
Bounded r = (m : ℕ) → r ≡ ok m → m < 2 ^ 64

finish_sound :
    (r₁ r₂ r₃ : Outcome ParseError ℕ) (v : Version)
    → Bounded r₁
    → Bounded r₂
    → Bounded r₃
    → finish r₁ r₂ r₃ ≡ ok v
    → IsU64 v × (is_latest v ≡ false)
unfolding finish
finish_sound (ok a) (ok b) (ok c) v h₁ h₂ h₃ e = ground (arith, h₁ a refl, h₂ b refl, h₃ c refl)
finish_sound _ _ _ v h₁ h₂ h₃ e = ground arith

from_str-finish :
    (s : Text)
    → from_str s ≡ (
        if text_eq (map to_lower s) latest_text
        then ok latest
        else let dot1 = find_dot s in
          let dot2 = dot2_of s dot1 in
          let smajor = skip_v (smajor_of s dot1) in
          finish
            (map_err (major_parse_error smajor) (parse_u64 smajor))
            (parse_part minor_parse_error (sminor_of s dot1 dot2))
            (parse_part patch_parse_error (spatch_of s dot2)))
unfolding from_str finish
from_str-finish s = refl

-- A text that parses gives numbers that fit `u64`, and it gives 'latest' exactly if, in lower
-- case, it is the word "latest": three maximal numbers never make 'latest' by accident.
pub from_str_sound :
    (s : Text) (v : Version)
    → from_str s ≡ ok v
    → IsU64 v × (is_latest v ≡ text_eq (map to_lower s) latest_text)
from_str_sound s v h = elim (Bool-cases (text_eq (map to_lower s) latest_text)) [
  | inl l ↦ ground (arith, from_str-finish s, is_latest-latest, IsU64-latest)
  | inr l ↦ rw l (
      finish_sound _ _ _ v (parse_major-bound _ _) (parse_part-bound _ _) (parse_part-bound _ _)
        (rw l at (rw (from_str-finish s) at h)))
]
