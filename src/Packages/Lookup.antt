-- ===== src/Packages/Lookup.antt =====
-- What `get` finds in an index that `from_packages` made.
use brane.Prelude.{
  some_inj, ok_inj, ◌⊎◌, ◌≡◌, refl, sym, Bool-cases, Option-cases, inl, inr, none, some, String,
  List, [], ◌∷◌, In, here, there, Outcome, ok, err, panic, ◌>>=◌,
}
use brane.Version.{Version, IsU64}
use brane.Version.Text.{Text, text_eq}
use brane.Packages.{
  PackageInfo, PackageIndex, PackageIndexError, key_of, find_package, keyed, from_packages, get,
  new,
}
use brane.Packages.Keys.{key_of_inj, text_eq_sound, text_eq_refl}

abbrev pub Entries : Type 0
Entries = List (Text × PackageInfo)

abbrev pub key_for : PackageInfo → Text
key_for p = key_of p.name p.version

-- every entry has the key of its package
abbrev pub AllKeyed : Entries → Type 0
AllKeyed [] = Unit
AllKeyed ((k, p) ∷ m) = (k ≡ key_for p) × AllKeyed m

-- a package of the list, or one that was there before
pub find_package_sound :
    (m : Entries) (k : Text) (p : PackageInfo)
    → AllKeyed m
    → find_package k m ≡ some p
    → (k ≡ key_for p) × In (k, p) m
unfolding find_package
find_package_sound [] k p h e = cc
find_package_sound ((j, q) ∷ m) k p (d, h) e = elim (Bool-cases (text_eq j k)) [
  | inl same ↦
      let q≡p = some_inj (rw (find_package, same) at e) in
      let j≡k = text_eq_sound j k same in rw (← q≡p, ← j≡k) (d, here)
  | inr other ↦
      let (a, b) = find_package_sound m k p h (rw (find_package, other) at e) in (a, there b)
]

module _ (p : PackageInfo) where
  -- an entry with another key in front
  behind :
      (q : PackageInfo) (m : Entries) (k : Text)
      → find_package (key_for q) m ≡ none
      → find_package k m ≡ some p
      → find_package k ((key_for q, q) ∷ m) ≡ some p
  unfolding find_package
  behind q m k absent f = elim (Bool-cases (text_eq (key_for q) k)) [
    | inl same ↦ let found = rw (← text_eq_sound (key_for q) k same) at f in cc
    | inr other ↦ rw (find_package, other) f
  ]

  -- what was found is still found after more packages, since none of them has its key
  keyed-keeps :
      (ps : List PackageInfo) (m m' : Entries) (k : Text)
      → find_package k m ≡ some p
      → keyed ps m ≡ ok m'
      → find_package k m' ≡ some p
  unfolding keyed find_package
  keyed-keeps [] m m' k f e = rw (← ok_inj e) f
  keyed-keeps (q ∷ ps) m m' k f e = elim (Option-cases (find_package (key_for q) m)) [
    | inl none' ↦
        keyed-keeps ps ((key_for q, q) ∷ m) m' k (behind q m k none' f) (rw (keyed, none') at e)
    | inr (r, some') ↦ let e' = rw (keyed, some') at e in cc
  ]

pub keyed-AllKeyed :
    (ps : List PackageInfo) (m m' : Entries) → keyed ps m ≡ ok m' → AllKeyed m → AllKeyed m'
unfolding keyed
keyed-AllKeyed [] m m' e h = rw (← ok_inj e) h
keyed-AllKeyed (q ∷ ps) m m' e h = elim (Option-cases (find_package (key_for q) m)) [
  | inl none' ↦ keyed-AllKeyed ps ((key_for q, q) ∷ m) m' (rw (keyed, none') at e) (refl, h)
  | inr (r, some') ↦ let e' = rw (keyed, some') at e in cc
]

-- the entries are those that were there and those of the packages
pub keyed-In :
    (ps : List PackageInfo) (m m' : Entries) (k : Text) (p : PackageInfo)
    → keyed ps m ≡ ok m'
    → In (k, p) m'
    → In (k, p) m ⊎ In p ps
unfolding keyed
keyed-In [] m m' k p e i = inl (rw (ok_inj e) i)
keyed-In (q ∷ ps) m m' k p e i = elim (Option-cases (find_package (key_for q) m)) [
  | inl none' ↦ elim (keyed-In ps ((key_for q, q) ∷ m) m' k p (rw (keyed, none') at e) i) [
    | inl old ↦ from_front q ps m k p old
    | inr new' ↦ inr (there new')
  ]
  | inr (r, some') ↦ let e' = rw (keyed, some') at e in cc
]
  where
    from_front :
        (q : PackageInfo) (ps : List PackageInfo) (m : Entries) (k : Text) (p : PackageInfo)
        → In (k, p) ((key_for q, q) ∷ m)
        → In (k, p) m ⊎ In p (q ∷ ps)
    from_front q ps m k p here = inr here
    from_front q ps m k p (there i) = inl i

pub keyed-finds :
    (ps : List PackageInfo) (m m' : Entries) (p : PackageInfo)
    → keyed ps m ≡ ok m'
    → In p ps
    → find_package (key_for p) m' ≡ some p
unfolding keyed find_package
keyed-finds [] m m' p e i = elim i [ ]
keyed-finds (q ∷ ps) m m' p e here = elim (Option-cases (find_package (key_for q) m)) [
  | inl none' ↦
      keyed-keeps q ps ((key_for q, q) ∷ m) m' (key_for q)
        (rw (find_package, text_eq_refl (key_for q)) refl) (rw (keyed, none') at e)
  | inr (r, some') ↦ let e' = rw (keyed, some') at e in cc
]
keyed-finds (q ∷ ps) m m' p e (there i) = elim (Option-cases (find_package (key_for q) m)) [
  | inl none' ↦ keyed-finds ps ((key_for q, q) ∷ m) m' p (rw (keyed, none') at e) i
  | inr (r, some') ↦ let e' = rw (keyed, some') at e in cc
]

-- `from_packages` succeeds with the entries that its loop collects
pub from_packages-keyed :
    (ps : List PackageInfo) (index : PackageIndex)
    → from_packages ps ≡ ok index
    → (m : Entries) × (keyed ps [] ≡ ok m) × (index ≡ new m)
unfolding from_packages
from_packages-keyed ps index e = made (keyed ps []) refl e
  where
    made :
        (r : Outcome PackageIndexError Entries)
        → keyed ps [] ≡ r
        → (r >>= λ m. ok (new m)) ≡ ok index
        → (m : Entries) × (keyed ps [] ≡ ok m) × (index ≡ new m)
    made (ok m) p h = (m, p, sym (ok_inj h))
    made (err x) p h = cc
    made panic p h = cc

-- Every package of an index is found under its name and its version.
pub get-from_packages :
    (ps : List PackageInfo) (index : PackageIndex) (p : PackageInfo)
    → from_packages ps ≡ ok index
    → In p ps
    → get index p.name (some p.version) ≡ some p
unfolding get new
get-from_packages ps index p e i =
    let (m, k, same) = from_packages-keyed ps index e in rw same (keyed-finds ps [] m p k i)

-- the versions of the packages are of `u64` numbers
abbrev pub AllU64 : List PackageInfo → Type 0
AllU64 [] = Unit
AllU64 (p ∷ ps) = IsU64 p.version × AllU64 ps

pub AllU64-In : (ps : List PackageInfo) {p : PackageInfo} → AllU64 ps → In p ps → IsU64 p.version
AllU64-In [] h i = elim i [ ]
AllU64-In (q ∷ ps) (h, hs) here = h
AllU64-In (q ∷ ps) (h, hs) (there i) = AllU64-In ps hs i

pub old_none :
    (k : Text) (p : PackageInfo) (ps : List PackageInfo)
    → In {A = Text × PackageInfo} (k, p) [] ⊎ In p ps
    → In p ps
old_none k p ps (inl i) = elim i [ ]
old_none k p ps (inr i) = i

-- Where the numbers of all versions fit `u64`, what an index of packages finds under a name and a
-- version is one of the packages, and has that name and that version.
pub get-In :
    (ps : List PackageInfo) (index : PackageIndex) (name : String) (v : Version) (p : PackageInfo)
    → from_packages ps ≡ ok index
    → AllU64 ps
    → IsU64 v
    → get index name (some v) ≡ some p
    → In p ps × (p.name ≡ name) × (p.version ≡ v)
unfolding get new
get-In ps index name v p e all fits g =
    let (m, k, same) = from_packages-keyed ps index e in
    let g' = rw same at g in
    let (key, i) = find_package_sound m (key_of name v) p (keyed-AllKeyed ps [] m k tt) g' in
    let member = old_none _ p ps (keyed-In ps [] m (key_of name v) p k i) in
    let (n, w) = key_of_inj p.name name p.version v (AllU64-In ps all member) fits (sym key) in
    (member, n, w)
