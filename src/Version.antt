-- ===== src/Version.antt =====
-- specifications/src/version.rs: the `Version` of a package, a triple of `u64` numbers of which
-- one value stands for the unresolved 'latest'. Comparison, `resolve_latest` and the conversions
-- of `semver::Version` (a third-party record with the same three fields, of which the code reads
-- nothing else). Text is in Version/Text.antt.
pub mod Order
pub mod Resolve
pub mod Text
pub mod Parsed
pub mod Roundtrip
mod Tests
use brane.Prelude.{
  ℕ, ◌-◌, ◌^◌, ◌<◌, ◌≡◌, Bool, true, false, not, ◌&&◌, Option, none, some, List, [], ◌∷◌, compare,
  Ordering, Outcome, ok, err, panic, ◌==◌, if◌then◌else◌,
}

abbrev pub u64_max : ℕ
u64_max = 2 ^ 64 - 1

pub record Version : Type 0 where
  pub major : ℕ
  pub minor : ℕ
  pub patch : ℕ

-- the values that the fields, `u64` in the source, can take
pub record IsU64 (v : Version) : Type 0 where
  pub major : v.major < 2 ^ 64
  pub minor : v.minor < 2 ^ 64
  pub patch : v.patch < 2 ^ 64

pub data ResolveError : Type 0 where
  already_resolved : Version → ResolveError
  not_resolved no_versions : ResolveError

unfoldable pub is_latest : Version → Bool
is_latest v = v.major == u64_max && v.minor == u64_max && v.patch == u64_max

unfoldable pub latest : Version
latest = record { major = u64_max; minor = u64_max; patch = u64_max }

unfoldable pub new : ℕ → ℕ → ℕ → Outcome ⊥ Version
unfolding is_latest
new major minor patch =
    let result : Version = record { major = major; minor = minor; patch = patch } in
    if is_latest result then panic else ok result

unfoldable pub default : Outcome ⊥ Version
unfolding new
default = new 0 0 0

-- `eq` of `PartialEq`
unfoldable pub eq : Version → Version → Bool
eq a b = a.major == b.major && a.minor == b.minor && a.patch == b.patch

-- `Ordering::is_ne`
abbrev pub is_ne : Ordering → Bool
is_ne Ordering.eq = false
is_ne _ = true

-- `Ordering::is_gt`, which `>` tests
abbrev pub is_gt : Ordering → Bool
is_gt Ordering.gt = true
is_gt _ = false

unfoldable pub cmp : Version → Version → Ordering
cmp a b =
    let order₁ = compare a.major b.major in
    let order₂ = compare a.minor b.minor in
    if is_ne order₁ then order₁ else if is_ne order₂ then order₂ else compare a.patch b.patch

unfoldable pub partial_cmp : Version → Version → Option Ordering
partial_cmp a b = some (cmp a b)

abbrev pub gt : Version → Version → Bool
gt a b = elim (partial_cmp a b) [ some o ↦ is_gt o | none ↦ false ]

-- the body of the loop of `resolve_latest`: the newest version that was seen
unfoldable pub newest : Option Version → List Version → Outcome ResolveError (Option Version)
unfolding is_latest cmp partial_cmp
newest last_version [] = ok last_version
newest last_version (version ∷ iter) =
    let next : Option Version = elim last_version [
      | none ↦ some version
      | some lversion ↦ (if gt version lversion then some version else some lversion)
    ] in
    let rest = newest next iter in if is_latest version then err not_resolved else rest

-- The new value of `self`, on success.
unfoldable pub resolve_latest : Version → List Version → Outcome ResolveError Version
unfolding newest
resolve_latest self iter =
    let found = newest none iter in
    if not (is_latest self) then err (already_resolved self) else elim found [
      | ok (some version) ↦ ok version
      | ok none ↦ err no_versions
      | err e ↦ err e
      | panic ↦ panic
    ]

-- the fields of `semver::Version` that the code reads
pub record SemVersion : Type 0 where
  pub major : ℕ
  pub minor : ℕ
  pub patch : ℕ

unfoldable pub eq_semver : Version → SemVersion → Bool
unfolding is_latest
eq_semver a b =
    not (is_latest a) && (a.major == b.major && (a.minor == b.minor && a.patch == b.patch))

unfoldable pub partial_cmp_semver : Version → SemVersion → Option Ordering
unfolding is_latest
partial_cmp_semver a b =
    let order₁ = compare a.major b.major in
    let order₂ = compare a.minor b.minor in
    if is_latest a
    then none
    else if is_ne order₁
    then some order₁
    else if is_ne order₂
    then some order₂
    else some (compare a.patch b.patch)

unfoldable pub from_semver : SemVersion → Version
from_semver v = record { major = v.major; minor = v.minor; patch = v.patch }
