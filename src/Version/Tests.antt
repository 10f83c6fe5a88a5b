-- ===== src/Version/Tests.antt =====
-- The version theorems at concrete versions.
use brane.Prelude.{
  ◌≡◌, refl, ◌↔◌, true, false, none, some, List, [], ◌∷◌, Ordering, ok, err, arith, if◌then◌else◌,
  map,
}
use brane.Version.{
  Version, SemVersion, IsU64, not_resolved, cmp, eq, is_latest, resolve_latest, partial_cmp_semver,
  eq_semver, from_semver,
}
use brane.Version.Order.{cmp_consistent, semver_agrees, swap}
use brane.Version.Resolve.{
  refusal, resolve_latest-IsNewest, resolve_latest-refusal, Occurs, IsNewest, AllResolved,
}
use brane.Version.Text.{
  Text, parse_digits, parse_u64, find_dot, dot2_of, smajor_of, sminor_of, spatch_of, skip_v,
  parse_part, from_str, to_string, to_lower, text_eq, latest_text,
}
use brane.Version.Parsed.{from_str_sound}
use brane.Version.Roundtrip.{from_str-to_string}

abbrev v1_2_3 : Version
v1_2_3 = record { major = 1; minor = 2; patch = 3 }

abbrev v0_9_9 : Version
v0_9_9 = record { major = 0; minor = 9; patch = 9 }

abbrev unresolved : Version
unresolved = record {
  major = 18446744073709551615;
  minor = 18446744073709551615;
  patch = 18446744073709551615;
}

abbrev semver : SemVersion
semver = record { major = 1; minor = 2; patch = 3 }

v1_2_3-IsU64 : IsU64 v1_2_3
v1_2_3-IsU64 = record { major = omega arith; minor = omega arith; patch = omega arith }

cmp_consistent_example :
    ((cmp v1_2_3 v0_9_9 ≡ Ordering.eq) ↔ (eq v1_2_3 v0_9_9 ≡ true))
    × (cmp v0_9_9 v1_2_3 ≡ swap (cmp v1_2_3 v0_9_9))
cmp_consistent_example = cmp_consistent v1_2_3 v0_9_9

semver_agrees_example :
    (partial_cmp_semver v0_9_9 semver
      ≡ (if is_latest v0_9_9 then none else some (cmp v0_9_9 (from_semver semver))))
    × (eq_semver v0_9_9 semver
        ≡ (if is_latest v0_9_9 then false else eq v0_9_9 (from_semver semver)))
semver_agrees_example = semver_agrees v0_9_9 semver

abbrev offered : List Version
offered = v0_9_9 ∷ v1_2_3 ∷ []

unresolved-is_latest : is_latest unresolved ≡ true
unfolding is_latest
unresolved-is_latest = refl

offered-AllResolved : AllResolved offered
unfolding is_latest
offered-AllResolved = (refl, (refl, tt))

resolve_latest-IsNewest_example :
    (m : Version) × (resolve_latest unresolved offered ≡ ok m)
    × Occurs m offered
    × IsNewest m offered
resolve_latest-IsNewest_example =
    resolve_latest-IsNewest unresolved v0_9_9 (v1_2_3 ∷ []) unresolved-is_latest offered-AllResolved

offered-refusal : refusal unresolved (v1_2_3 ∷ unresolved ∷ []) ≡ some not_resolved
unfolding is_latest
offered-refusal = refl

resolve_latest-refusal_example :
    resolve_latest unresolved (v1_2_3 ∷ unresolved ∷ []) ≡ err not_resolved
resolve_latest-refusal_example =
    resolve_latest-refusal unresolved (v1_2_3 ∷ unresolved ∷ []) not_resolved offered-refusal

from_str-to_string_example : from_str (to_string v1_2_3) ≡ ok v1_2_3
from_str-to_string_example = from_str-to_string v1_2_3 v1_2_3-IsU64

-- "v1.2.3"
abbrev text_v1_2_3 : Text
text_v1_2_3 = b'v' ∷ b'1' ∷ b'.' ∷ b'2' ∷ b'.' ∷ b'3' ∷ []

text_v1_2_3-parsed : from_str text_v1_2_3 ≡ ok v1_2_3
unfolding from_str skip_v find_dot dot2_of smajor_of sminor_of spatch_of parse_part parse_u64
    parse_digits is_latest
text_v1_2_3-parsed = refl

from_str_sound_example :
    IsU64 v1_2_3 × (is_latest v1_2_3 ≡ text_eq (map to_lower text_v1_2_3) latest_text)
from_str_sound_example = from_str_sound text_v1_2_3 v1_2_3 text_v1_2_3-parsed
