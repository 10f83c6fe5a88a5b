-- ===== src/Packages/Duplicates.antt =====
-- When `from_packages` refuses its packages.
use brane.Prelude.{
  ◌≡◌, refl, sym, ap, subst, ◌⊎◌, inl, inr, Option-cases, List, [], ◌∷◌, ◌++◌, In, here, there,
  Outcome, ok, err, panic, ◌>>=◌,
}
use brane.Heap.Members.{In-append_left, In-append_right}
use brane.Version.Text.{Text}
use brane.Packages.{
  PackageInfo, PackageIndexError, duplicate_package, find_package, keyed, from_packages, new,
}
use brane.Packages.Keys.{key_of_inj}
use brane.Packages.Lookup.{Entries, key_for, AllKeyed, find_package_sound, AllU64, AllU64-In}

-- a package whose key one before it has, in the list or among the entries
record Duplicate (m : Entries) (ps : List PackageInfo) (e : PackageIndexError) : Type 0 where
  before : List PackageInfo
  after : List PackageInfo
  first : PackageInfo
  again : PackageInfo
  is : ps ≡ before ++ (again ∷ after)
  same_key : key_for again ≡ key_for first
  earlier : ((k : Text) × In {A = Text × PackageInfo} (k, first) m) ⊎ In first before
  error : e ≡ duplicate_package again.name again.version

earlier-cons :
    (q p : PackageInfo) (m : Entries) (before : List PackageInfo)
    → ((k : Text) × In {A = Text × PackageInfo} (k, p) ((key_for q, q) ∷ m)) ⊎ In p before
    → ((k : Text) × In {A = Text × PackageInfo} (k, p) m) ⊎ In p (q ∷ before)
earlier-cons q p m before (inl (k, here)) = inr here
earlier-cons q p m before (inl (k, there i)) = inl (k, i)
earlier-cons q p m before (inr i) = inr (there i)

keyed-Duplicate :
    (ps : List PackageInfo) (m : Entries) (e : PackageIndexError)
    → keyed ps m ≡ err e
    → AllKeyed m
    → Duplicate m ps e
unfolding keyed
keyed-Duplicate [] m e h all = cc
keyed-Duplicate (q ∷ ps) m e h all = elim (Option-cases (find_package (key_for q) m)) [
  | inl none' ↦
      let d = keyed-Duplicate ps ((key_for q, q) ∷ m) e (rw (keyed, none') at h) (refl, all) in
      record {
        before = q ∷ d.before;
        after = d.after;
        first = d.first;
        again = d.again;
        is = ap (λ qs. q ∷ qs) d.is;
        same_key = d.same_key;
        earlier = earlier-cons q d.first m d.before d.earlier;
        error = d.error;
      }
  | inr (r, some') ↦
      let (same, i) = find_package_sound m (key_for q) r all some' in
      record {
        before = [];
        after = ps;
        first = r;
        again = q;
        is = refl;
        same_key = same;
        earlier = inl (key_for q, i);
        error = let h' = rw (keyed, some') at h in cc;
      }
]

from_packages-keyed_err :
    (ps : List PackageInfo) (e : PackageIndexError) (r : Outcome PackageIndexError Entries)
    → keyed ps [] ≡ r
    → (r >>= λ m. ok (new m)) ≡ err e
    → keyed ps [] ≡ err e
from_packages-keyed_err ps e (ok m) p h = cc
from_packages-keyed_err ps e (err x) p h = cc
from_packages-keyed_err ps e panic p h = cc

earlier_nil :
    (p : PackageInfo) (before : List PackageInfo)
    → ((k : Text) × In {A = Text × PackageInfo} (k, p) []) ⊎ In p before
    → In p before
earlier_nil p before (inl (k, i)) = elim i [ ]
earlier_nil p before (inr i) = i

-- Where the numbers of all versions fit `u64` and no index is made of the packages, some package has
-- the name and the version of one before it in the list, and the error names the two.
pub from_packages-duplicate :
    (ps : List PackageInfo) (e : PackageIndexError)
    → from_packages ps ≡ err e
    → AllU64 ps
    → (before after : List PackageInfo) × (first again : PackageInfo) × (ps
        ≡ before ++ (again ∷ after))
      × In first before
      × (first.name ≡ again.name)
      × (first.version ≡ again.version)
      × (e ≡ duplicate_package again.name again.version)
unfolding from_packages
from_packages-duplicate ps e h all =
    let d = keyed-Duplicate ps [] e (from_packages-keyed_err ps e _ refl h) tt in
    let i = earlier_nil d.first d.before d.earlier in
    let all' = subst AllU64 d.is all in
    let (n, v) =
      key_of_inj d.first.name d.again.name d.first.version d.again.version
        (AllU64-In _ all' (In-append_left (d.again ∷ d.after) i))
        (AllU64-In _ all' (In-append_right d.before here)) (sym d.same_key) in
    (d.before, d.after, d.first, d.again, d.is, i, n, v, d.error)
