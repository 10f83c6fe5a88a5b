-- ===== src/Version/Text.antt =====
-- `FromStr` and `Display` of specifications/src/version.rs. A `&str` is the list of its UTF-8
-- bytes; the code only cuts it at ASCII bytes. `u64::from_str`, `u64`'s `Display` and
-- `to_lowercase` are the standard library's: the first two are written out, and of the third the
-- ASCII letters are, since no other character has a lowercase form among the letters of "latest".
use brane.Prelude.{
  ℕ, zero, suc, ◌+◌, ◌-◌, ◌*◌, ◌/◌, ◌%◌, ◌^◌, Bool, true, false, not, ◌&&◌, Option, none, some,
  List, [], ◌∷◌, ◌++◌, map, take, drop, Outcome, ok, err, map_err, ◌>>=◌, ltb, leb, ◌==◌,
  if◌then◌else◌,
}
use mathlib.Core.Option
use brane.Version.{Version, is_latest, latest}

abbrev pub Text : Type 0
Text = List ℕ

-- `std::num::ParseIntError`
pub data ParseIntError : Type 0 where
  empty invalid_digit pos_overflow : ParseIntError

pub data ParseError : Type 0 where
  accidental_latest : ParseError
  major_parse_error minor_parse_error patch_parse_error : Text → ParseIntError → ParseError

abbrev pub is_digit : ℕ → Bool
is_digit c = leb b'0' c && leb c b'9'

-- the loop of `u64::from_str`: both the product and the sum are checked
unfoldable pub parse_digits : ℕ → Text → Outcome ParseIntError ℕ
parse_digits n [] = ok n
parse_digits n (c ∷ cs) =
    let rest = parse_digits (n * 10 + (c - b'0')) cs in
    if not (is_digit c)
    then err invalid_digit
    else if ltb (n * 10 + (c - b'0')) (2 ^ 64)
    then rest
    else err pos_overflow

-- one leading '+' is allowed before digits
unfoldable pub parse_u64 : Text → Outcome ParseIntError ℕ
unfolding parse_digits
parse_u64 [] = err empty
parse_u64 (c ∷ []) = parse_digits 0 (c ∷ [])
parse_u64 (c ∷ d ∷ cs) = if c == b'+' then parse_digits 0 (d ∷ cs) else parse_digits 0 (c ∷ d ∷ cs)

-- `u64`'s `Display`: the digits of `n` before `out`. Twenty digits are enough.
unfoldable pub show_digits : ℕ → ℕ → Text → Text
show_digits zero n out = out
show_digits (suc f) n out =
    let rest = show_digits f (n / 10) ((b'0' + n % 10) ∷ out) in
    if ltb n 10 then (b'0' + n) ∷ out else rest

unfoldable pub show_u64 : ℕ → Text
show_u64 n = show_digits 20 n []

abbrev pub to_lower : ℕ → ℕ
to_lower c = if leb b'A' c && leb c b'Z' then c + 32 else c

abbrev pub latest_text : Text
latest_text = b'l' ∷ b'a' ∷ b't' ∷ b'e' ∷ b's' ∷ b't' ∷ []

abbrev pub text_eq : Text → Text → Bool
text_eq [] [] = true
text_eq (a ∷ s) (b ∷ t) = a == b && text_eq s t
text_eq _ _ = false

-- `s.find('.')`
unfoldable pub find_dot : Text → Option ℕ
find_dot [] = none
find_dot (c ∷ cs) = if c == b'.' then some 0 else Option.map suc (find_dot cs)

-- `s[from..to]` and `s[from..]`
abbrev pub slice : Text → ℕ → ℕ → Text
slice s from to = take (to - from) (drop from s)

-- the three parts of the text, by the positions of the first two dots
unfoldable pub dot2_of : Text → Option ℕ → Option ℕ
unfolding find_dot
dot2_of s none = none
dot2_of s (some pos1) = Option.map (λ pos2. pos1 + 1 + pos2) (find_dot (drop (pos1 + 1) s))

unfoldable pub smajor_of : Text → Option ℕ → Text
smajor_of s none = s
smajor_of s (some pos1) = take pos1 s

unfoldable pub sminor_of : Text → Option ℕ → Option ℕ → Text
sminor_of s none _ = []
sminor_of s (some pos1) none = drop (pos1 + 1) s
sminor_of s (some pos1) (some pos2) = slice s (pos1 + 1) pos2

unfoldable pub spatch_of : Text → Option ℕ → Text
spatch_of s none = []
spatch_of s (some pos2) = drop (pos2 + 1) s

-- a leading 'v' is skipped
unfoldable pub skip_v : Text → Text
skip_v [] = []
skip_v (c ∷ cs) = if c == b'v' then cs else c ∷ cs

-- a part that is empty stands for 0
unfoldable pub parse_part : (Text → ParseIntError → ParseError) → Text → Outcome ParseError ℕ
unfolding parse_u64
parse_part failed [] = ok 0
parse_part failed (c ∷ cs) = map_err (failed (c ∷ cs)) (parse_u64 (c ∷ cs))

unfoldable pub from_str : Text → Outcome ParseError Version
from_str s = if text_eq (map to_lower s) latest_text then ok latest else do
  let dot1 = find_dot s
  let dot2 = dot2_of s dot1
  let smajor = skip_v (smajor_of s dot1)
  major ← map_err (major_parse_error smajor) (parse_u64 smajor)
  minor ← parse_part minor_parse_error (sminor_of s dot1 dot2)
  patch ← parse_part patch_parse_error (spatch_of s dot2)
  let result : Version = record { major = major; minor = minor; patch = patch }
  if is_latest result then err accidental_latest else ok result

-- `fmt` of `Display`
unfoldable pub to_string : Version → Text
unfolding is_latest show_u64
to_string v =
    if is_latest v
    then latest_text
    else show_u64 v.major ++ (b'.' ∷ (show_u64 v.minor ++ (b'.' ∷ show_u64 v.patch)))
