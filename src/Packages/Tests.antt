-- ===== src/Packages/Tests.antt =====
-- The theorems of the package index at three packages.
use brane.Packages.Duplicates.{from_packages-duplicate}
use brane.Packages.{duplicate_package}
use brane.Prelude.{
  err, ◌++◌, ℕ, ◌<◌, ◌^◌, ◌≡◌, ◌≢◌, refl, false, none, some, String, List, [], ◌∷◌, In, here, there,
  Ordering, ok, arith,
}
use brane.Value.{ecu}
use brane.Version.{Version, IsU64, cmp}
use brane.Version.Text.{Text, show_digits}
use brane.Packages.{PackageInfo, new_info, key_of, new, from_packages, get}
use brane.Packages.Lookup.{AllU64, get-from_packages, get-In}
use brane.Packages.Latest.{get-newest}

abbrev info_of : String → Version → PackageInfo
info_of name version = new_info name version ecu [] "" false [] []

abbrev old : Version
old = record { major = 1; minor = 0; patch = 0 }

abbrev newer : Version
newer = record { major = 1; minor = 2; patch = 0 }

abbrev known : List PackageInfo
known = info_of "filter" newer ∷ info_of "hello" old ∷ info_of "filter" old ∷ []

abbrev indexed : List (Text × PackageInfo)
indexed =
    (key_of "filter" old, info_of "filter" old)
    ∷ (key_of "hello" old, info_of "hello" old)
    ∷ (key_of "filter" newer, info_of "filter" newer)
    ∷ []

known-indexed : from_packages known ≡ ok (new indexed)
unfolding from_packages new_info show_digits
known-indexed = refl

abbrev fits : (minor : ℕ) → minor < 2 ^ 64 → IsU64 (record { major = 1; minor = minor; patch = 0 })
fits minor h = record { major = omega arith; minor = h; patch = omega arith }

known-fit : AllU64 known
unfolding new_info
known-fit = (fits 2 (omega arith), (fits 0 (omega arith), (fits 0 (omega arith), tt)))

filter-found : get (new indexed) "filter" (some newer) ≡ some (info_of "filter" newer)
unfolding get new_info new show_digits
filter-found = refl

get-from_packages_example :
    get (new indexed) (info_of "hello" old).name (some (info_of "hello" old).version)
    ≡ some (info_of "hello" old)
get-from_packages_example =
    get-from_packages known (new indexed) (info_of "hello" old) known-indexed (there here)

get-In_example :
    In (info_of "filter" newer) known
    × ((info_of "filter" newer).name ≡ "filter")
    × ((info_of "filter" newer).version ≡ newer)
get-In_example =
    get-In known (new indexed) "filter" newer (info_of "filter" newer) known-indexed known-fit
      (fits 2 (omega arith)) filter-found

get-newest_example :
    (p : PackageInfo) × (get (new indexed) (info_of "filter" old).name none ≡ some p)
    × In p known
    × (p.name ≡ (info_of "filter" old).name)
    × (cmp (info_of "filter" old).version p.version ≢ Ordering.gt)
get-newest_example =
    get-newest known (new indexed) (info_of "filter" old) known-indexed (there (there here))

-- a package twice
abbrev twice : List PackageInfo
twice = info_of "filter" old ∷ info_of "hello" old ∷ info_of "filter" old ∷ []

twice-refused : from_packages twice ≡ err (duplicate_package "filter" old)
unfolding from_packages new_info show_digits
twice-refused = refl

twice-fit : AllU64 twice
unfolding new_info
twice-fit = (fits 0 (omega arith), (fits 0 (omega arith), (fits 0 (omega arith), tt)))

from_packages-duplicate_example :
    (before after : List PackageInfo) × (first again : PackageInfo) × (twice
      ≡ before ++ (again ∷ after))
    × In first before
    × (first.name ≡ again.name)
    × (first.version ≡ again.version)
    × (duplicate_package "filter" old ≡ duplicate_package again.name again.version)
from_packages-duplicate_example =
    from_packages-duplicate twice (duplicate_package "filter" old) twice-refused twice-fit
