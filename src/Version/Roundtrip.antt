-- ===== src/Version/Roundtrip.antt =====
-- Reading a version back from its text.
use brane.Prelude.{
  ℕ, zero, suc, ◌+◌, ◌-◌, ◌*◌, ◌/◌, ◌%◌, ◌^◌, ◌≤◌, ◌<◌, ◌≡◌, refl, sym, ap, ◌∙◌, true, false, some,
  [], ◌∷◌, ◌++◌, map, length, append_assoc, length-append, drop, take-append, ok, map_err, ltb,
  le→ltb, lt→ltb, arith, Bool-cases, inl, inr,
}
use native.Mathlib.Decide.{dec_lt}
use native.Mathlib.Numerals.{add-one}
use brane.Version.{Version, IsU64, is_latest, latest}
use brane.Version.Text.{
  Text, ParseIntError, ParseError, parse_digits, parse_u64, show_digits, show_u64, find_dot,
  dot2_of, smajor_of, sminor_of, spatch_of, skip_v, parse_part, from_str, to_string, text_eq,
  to_lower, latest_text,
}

-- every byte is a digit
abbrev pub AllDigits : Text → Type 0
AllDigits [] = Unit
AllDigits (c ∷ cs) = (b'0' ≤ c) × (c ≤ b'9') × AllDigits cs

power : ℕ → ℕ
power zero = 1
power (suc f) = 10 * power f

show_digits-step :
    (f n : ℕ) (out : Text)
    → 10 ≤ n
    → show_digits (suc f) n out ≡ show_digits f (n / 10) ((b'0' + n % 10) ∷ out)
unfolding show_digits
show_digits-step f n out h = rw (le→ltb n 10 h)

show_digits-last : (f n : ℕ) (out : Text) → n < 10 → show_digits (suc f) n out ≡ (b'0' + n) ∷ out
unfolding show_digits
show_digits-last f n out h = rw (lt→ltb n 10 h)

parse_digits-step :
    (n d m : ℕ) (cs : Text)
    → d < 10
    → m ≡ n * 10 + d
    → m < 2 ^ 64
    → parse_digits n ((b'0' + d) ∷ cs) ≡ parse_digits m cs
unfolding parse_digits
parse_digits-step n d m cs h e k = ground arith

-- Reading what was shown continues with what stood behind it.
parse_digits-show_digits :
    (f n : ℕ) (out : Text)
    → n < power (suc f)
    → n < 2 ^ 64
    → parse_digits 0 (show_digits (suc f) n out) ≡ parse_digits n out
parse_digits-show_digits zero n out h k =
    rw (show_digits-last zero n out (unfold power in omega arith))
      (parse_digits-step 0 n n out (unfold power in omega arith) (omega arith) k)
parse_digits-show_digits (suc f) n out h k = elim (dec_lt n 10) [
  | yes e ↦ rw (show_digits-last (suc f) n out e) (parse_digits-step 0 n n out e (omega arith) k)
  | no e ↦ rw (show_digits-step (suc f) n out (omega arith)) (
      rw
        (parse_digits-show_digits f (n / 10) ((b'0' + n % 10) ∷ out) (unfold power in omega arith)
          (omega arith))
        (parse_digits-step (n / 10) (n % 10) n out (omega arith) (omega arith) k))
]

show_digits-AllDigits :
    (f n : ℕ) (out : Text)
    → AllDigits out
    → n < power (suc f)
    → AllDigits (show_digits (suc f) n out)
show_digits-AllDigits zero n out h k =
    rw (show_digits-last zero n out (unfold power in omega arith))
      (unfold power in omega arith, unfold power in omega arith, h)
show_digits-AllDigits (suc f) n out h k = elim (dec_lt n 10) [
  | yes e ↦ rw (show_digits-last (suc f) n out e) (omega arith, omega arith, h)
  | no e ↦ rw (show_digits-step (suc f) n out (omega arith)) (
      show_digits-AllDigits f (n / 10) _ (omega arith, omega arith, h)
        (unfold power in omega arith))
]

-- the text of a number is not empty
abbrev IsNonempty : Text → Type 0
IsNonempty [] = ⊥
IsNonempty (c ∷ cs) = Unit

show_digits-IsNonempty : (f n : ℕ) (out : Text) → IsNonempty out → IsNonempty (show_digits f n out)
unfolding show_digits
show_digits-IsNonempty zero n out h = h
show_digits-IsNonempty (suc f) n out h = elim (Bool-cases (ltb n 10)) [
  | inl e ↦ rw e tt
  | inr e ↦ rw e (show_digits-IsNonempty f (n / 10) _ tt)
]

parse_u64-AllDigits : (t : Text) → IsNonempty t → AllDigits t → parse_u64 t ≡ parse_digits 0 t
unfolding parse_u64
parse_u64-AllDigits (c ∷ []) h k = refl
parse_u64-AllDigits (c ∷ d ∷ cs) h k = ground arith
parse_u64-AllDigits [] h k = absurd h

parse_part-IsNonempty :
    (failed : Text → ParseIntError → ParseError) (t : Text)
    → IsNonempty t
    → parse_part failed t ≡ map_err (failed t) (parse_u64 t)
unfolding parse_part
parse_part-IsNonempty failed (c ∷ t) h = refl
parse_part-IsNonempty failed [] h = absurd h

find_dot-append : (t rest : Text) → AllDigits t → find_dot (t ++ b'.' ∷ rest) ≡ some (length t)
unfolding find_dot
find_dot-append [] rest h = refl
find_dot-append (c ∷ t) rest h = ground (arith, find_dot-append t rest)

drop_past_suc : (t rest : Text) (c : ℕ) → drop (suc (length t)) (t ++ c ∷ rest) ≡ rest
drop_past_suc [] rest c = refl
drop_past_suc (d ∷ t) rest c = drop_past_suc t rest c

drop_past : (t rest : Text) (c : ℕ) → drop (length t + 1) (t ++ c ∷ rest) ≡ rest
drop_past t rest c = rw add-one (drop_past_suc t rest c)

skip_v-append : (t rest : Text) → IsNonempty t → AllDigits t → skip_v t ≡ t
unfolding skip_v
skip_v-append (c ∷ t) rest h k = ground arith
skip_v-append [] rest h k = absurd h

not_latest_text :
    (t : Text) (rest : Text)
    → IsNonempty t
    → AllDigits t
    → text_eq (map to_lower (t ++ rest)) latest_text ≡ false
not_latest_text (c ∷ t) rest h k = ground arith
not_latest_text [] rest h k = absurd h

-- the parts of a text with two dots
module _ (a b c : Text) (da : AllDigits a) (db : AllDigits b) where
  abbrev dotted : Text
  dotted = a ++ (b'.' ∷ (b ++ (b'.' ∷ c)))

  dot2-dotted : dot2_of dotted (find_dot dotted) ≡ some (length a + 1 + length b)
  unfolding dot2_of
  dot2-dotted = rw (find_dot-append a _ da) (rw drop_past (rw (find_dot-append b c db)))

  smajor-dotted : smajor_of dotted (find_dot dotted) ≡ a
  unfolding smajor_of
  smajor-dotted = rw (find_dot-append a _ da) (take-append a _)

  sminor-dotted : sminor_of dotted (find_dot dotted) (some (length a + 1 + length b)) ≡ b
  unfolding sminor_of
  sminor-dotted = rw (find_dot-append a _ da) (
      rw drop_past (
        let e : length a + 1 + length b - (length a + 1) ≡ length b = omega arith in
        rw e (take-append b _)))

  spatch-dotted : spatch_of dotted (some (length a + 1 + length b)) ≡ c
  unfolding spatch_of
  spatch-dotted =
      let e : length a + 1 + length b ≡ length (a ++ b'.' ∷ b) =
        omega (arith, length-append a (b'.' ∷ b)) in
      rw e (rw (← append_assoc a (b'.' ∷ b) (b'.' ∷ c)) (drop_past (a ++ b'.' ∷ b) c b'.'))

  -- what `from_str` makes of the numbers that the parts denote
  from_str-dotted :
      (x y z : ℕ)
      → IsNonempty a
      → IsNonempty b
      → IsNonempty c
      → parse_u64 a ≡ ok x
      → parse_u64 b ≡ ok y
      → parse_u64 c ≡ ok z
      → is_latest (record { major = x; minor = y; patch = z }) ≡ false
      → from_str dotted ≡ ok (record { major = x; minor = y; patch = z })
  unfolding from_str
  from_str-dotted x y z ha hb hc ea eb ec h = rw (not_latest_text a _ ha da) (
      rw (smajor-dotted, skip_v-append a [] ha da, ea)
        (rw (dot2-dotted, sminor-dotted, parse_part-IsNonempty _ b hb, eb)
          (rw (spatch-dotted, parse_part-IsNonempty _ c hc, ec) (rw h))))

shown-IsNonempty : (f n : ℕ) → IsNonempty (show_digits (suc f) n [])
unfolding show_digits
shown-IsNonempty f n = elim (Bool-cases (ltb n 10)) [
  | inl e ↦ rw e tt
  | inr e ↦ rw e (show_digits-IsNonempty f (n / 10) _ tt)
]

fits_20 : (n : ℕ) → n < 2 ^ 64 → n < power (suc 19)
unfolding power
fits_20 n h = omega arith

show_u64-IsNonempty : (n : ℕ) → IsNonempty (show_u64 n)
unfolding show_u64
show_u64-IsNonempty n = shown-IsNonempty 19 n

pub show_u64-AllDigits : (n : ℕ) → n < 2 ^ 64 → AllDigits (show_u64 n)
unfolding show_u64
show_u64-AllDigits n h = show_digits-AllDigits 19 n [] tt (fits_20 n h)

-- `u64::from_str` reads back what `u64`'s `Display` writes.
pub parse_u64-show_u64 : (n : ℕ) → n < 2 ^ 64 → parse_u64 (show_u64 n) ≡ ok n
parse_u64-show_u64 n h =
    rw (parse_u64-AllDigits (show_u64 n) (show_u64-IsNonempty n) (show_u64-AllDigits n h)) (
      unfold show_u64 in
      parse_digits-show_digits 19 n [] (fits_20 n h) h ∙ unfold parse_digits in refl)

latest_unique : (v : Version) → is_latest v ≡ true → v ≡ latest
unfolding is_latest latest
latest_unique v h = ground arith

from_str-latest : from_str latest_text ≡ ok latest
unfolding from_str
from_str-latest = refl

-- Reading the text of a version whose numbers fit `u64` gives that version, 'latest' included.
pub from_str-to_string : (v : Version) → IsU64 v → from_str (to_string v) ≡ ok v
unfolding to_string
from_str-to_string v fits = elim (Bool-cases (is_latest v)) [
  | inl l ↦ rw l (from_str-latest ∙ ap ok (sym (latest_unique v l)))
  | inr l ↦ rw l (
      from_str-dotted (show_u64 v.major) (show_u64 v.minor) (show_u64 v.patch)
        (show_u64-AllDigits v.major fits.major) (show_u64-AllDigits v.minor fits.minor) v.major
        v.minor v.patch (show_u64-IsNonempty v.major) (show_u64-IsNonempty v.minor)
        (show_u64-IsNonempty v.patch) (parse_u64-show_u64 v.major fits.major)
        (parse_u64-show_u64 v.minor fits.minor) (parse_u64-show_u64 v.patch fits.patch) l)
]
