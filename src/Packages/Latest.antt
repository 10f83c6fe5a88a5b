-- ===== src/Packages/Latest.antt =====
-- What `get` finds without a version: the newest.
use brane.Prelude.{
  some_inj, ◌⊎◌, ◌≡◌, ◌≢◌, refl, sym, ap, ◌∙◌, Bool, true, false, Bool-cases, Option-cases, inl,
  inr, none, some, String, List, [], ◌∷◌, In, here, there, ok, str_eq, str_eq_iff, if◌then◌else◌,
  Ordering,
}
use brane.Version.{Version, cmp}
use brane.Version.Order.{cmp_trans, cmp-swap, swap, cmp-eq_iff}
use brane.Version.Text.{Text}
use brane.Packages.{
  PackageInfo, PackageIndex, key_of, find_package, find_latest, from_packages, get,
  get_latest_version, ge, set_latest, note_latest, latest_of, new,
}
use brane.Packages.Lookup.{
  Entries, key_for, find_package_sound, keyed-AllKeyed, old_none, keyed-In, keyed-finds,
  from_packages-keyed,
}

abbrev Latest : Type 0
Latest = List (String × (Version × Text))

find_latest-set :
    (name : String) (l : Version × Text) (m : Latest)
    → find_latest name (set_latest name l m) ≡ some l
unfolding find_latest
find_latest-set name l [] = rw (find_latest, (str_eq_iff name name).1 refl) refl
find_latest-set name l ((n, k) ∷ m) = elim (Bool-cases (str_eq n name)) [
  | inl same ↦ rw (set_latest, same, find_latest, same) refl
  | inr other ↦ rw (set_latest, other, find_latest, other) (find_latest-set name l m)
]

find_latest-set_other :
    (name other : String) (l : Version × Text) (m : Latest)
    → str_eq name other ≡ false
    → find_latest other (set_latest name l m) ≡ find_latest other m
unfolding find_latest
find_latest-set_other name other l [] h = rw (find_latest, h) refl
find_latest-set_other name other l ((n, k) ∷ m) h = elim (Bool-cases (str_eq n name)) [
  | inl same ↦
      let e : n ≡ name = (str_eq_iff n name).0 same in
      let h' : str_eq n other ≡ false = rw e h in rw (set_latest, same, find_latest, h') refl
  | inr differs ↦
      rw (set_latest, differs, find_latest)
        (both n k m (set_latest name l m) (find_latest-set_other name other l m h))
]
  where
    both :
        (n : String) (k : Version × Text) (m t : Latest)
        → find_latest other t ≡ find_latest other m
        → find_latest other ((n, k) ∷ t) ≡ find_latest other ((n, k) ∷ m)
    both n k m t e = ap (λ r. if str_eq n other then some k else r) e

-- a package is noted under its name, or a version that is not older stands there already
data Noted (key : Text) (q : PackageInfo) (m : Latest) : Type 0 where
  first :
      find_latest q.name m ≡ none
      → note_latest key q m ≡ set_latest q.name (q.version, key) m
      → Noted key q m
  newer :
      (v : Version) (j : Text)
      → find_latest q.name m ≡ some (v, j)
      → cmp v q.version ≢ Ordering.gt
      → note_latest key q m ≡ set_latest q.name (q.version, key) m
      → Noted key q m
  older :
      (v : Version) (j : Text)
      → find_latest q.name m ≡ some (v, j)
      → cmp q.version v ≢ Ordering.gt
      → note_latest key q m ≡ m
      → Noted key q m

at_least : Ordering → Bool
at_least o = elim o [ Ordering.lt ↦ false | _ ↦ true ]

at_least-swap : (o : Ordering) → at_least o ≡ true → swap o ≢ Ordering.gt
unfolding at_least
at_least-swap Ordering.lt h e = cc
at_least-swap Ordering.eq h e = cc
at_least-swap Ordering.gt h e = cc

not_at_least : (o : Ordering) → at_least o ≡ false → o ≢ Ordering.gt
unfolding at_least
not_at_least Ordering.lt h e = cc
not_at_least Ordering.eq h e = cc
not_at_least Ordering.gt h e = cc

ge-cmp : (v w : Version) → ge v w ≡ true → cmp w v ≢ Ordering.gt
unfolding at_least
ge-cmp v w h = rw (cmp-swap v w) (at_least-swap (cmp v w) h)

ge_not-cmp : (v w : Version) → ge v w ≡ false → cmp v w ≢ Ordering.gt
unfolding at_least
ge_not-cmp v w h = not_at_least (cmp v w) h

note-Noted : (key : Text) (q : PackageInfo) (m : Latest) → Noted key q m
unfolding note_latest
note-Noted key q m = elim (Option-cases (find_latest q.name m)) [
  | inl none' ↦ first none' (rw (note_latest, none') refl)
  | inr ((v, j), e) ↦ elim (Bool-cases (ge q.version v)) [
    | inl g ↦ newer v j e (ge-cmp q.version v g) (rw (note_latest, e, g) refl)
    | inr g ↦ older v j e (ge_not-cmp q.version v g) (rw (note_latest, e, g) refl)
  ]
]

cmp_refl : (v : Version) → cmp v v ≢ Ordering.gt
cmp_refl v e = let same = (cmp-eq_iff v v).1 refl in cc

none-some : {A : Type 0} {a : A} → ¬ (none ≡ some a)
none-some e = cc

-- A name stays noted, with a version that is not older.
note-keeps :
    (key : Text) (q : PackageInfo) (m : Latest) (name : String) (v : Version) (j : Text)
    → find_latest name m ≡ some (v, j)
    → (w : Version) × (k : Text) × (find_latest name (note_latest key q m) ≡ some (w, k))
      × (cmp v w ≢ Ordering.gt)
note-keeps key q m name v j f = elim (Bool-cases (str_eq q.name name)) [
  | inl same ↦
      let e : q.name ≡ name = (str_eq_iff q.name name).0 same in
      elim (note-Noted key q m) [
        | first none' note ↦ let clash = rw e at none' in absurd (none-some (sym clash ∙ f))
        | newer w k g le note ↦
            let pair : Path (Version × Text) (w, k) (v, j) = some_inj (sym (rw e at g) ∙ f) in
            (
              q.version,
              key,
              ap (find_latest name) note ∙ rw (← e) (find_latest-set q.name (q.version, key) m),
              rw (sym (ap (λ x. x.0) pair)) le,
            )
        | older w k g le note ↦ (v, j, rw note f, cmp_refl v)
      ]
  | inr other ↦ elim (note-Noted key q m) [
    | first none' note ↦
        (v, j, rw note (find_latest-set_other q.name name _ m other ∙ f), cmp_refl v)
    | newer w k g le note ↦
        (v, j, rw note (find_latest-set_other q.name name _ m other ∙ f), cmp_refl v)
    | older w k g le note ↦ (v, j, rw note f, cmp_refl v)
  ]
]

-- a name is noted with a version that is not older than `v`
abbrev NotedFrom : Latest → String → Version → Type 0
NotedFrom m name v =
    (w : Version) × (k : Text) × (find_latest name m ≡ some (w, k)) × (cmp v w ≢ Ordering.gt)

note-own :
    (key : Text) (q : PackageInfo) (m : Latest) → NotedFrom (note_latest key q m) q.name q.version
note-own key q m = elim (note-Noted key q m) [
  | first none' note ↦
      (q.version, key, rw note (find_latest-set q.name (q.version, key) m), cmp_refl q.version)
  | newer v j g le note ↦
      (q.version, key, rw note (find_latest-set q.name (q.version, key) m), cmp_refl q.version)
  | older v j g le note ↦ (v, j, rw note g, le)
]

-- what is noted was noted before, or is the package
note-source :
    (key : Text) (q : PackageInfo) (m : Latest) (name : String) (v : Version) (j : Text)
    → find_latest name (note_latest key q m) ≡ some (v, j)
    → (find_latest name m ≡ some (v, j)) ⊎ ((q.name ≡ name) × (q.version ≡ v))
note-source key q m name v j f = elim (Bool-cases (str_eq q.name name)) [
  | inl same ↦
      let e : q.name ≡ name = (str_eq_iff q.name name).0 same in
      let set : note_latest key q m ≡ set_latest q.name (q.version, key) m → q.version ≡ v = λ note.
        let own : find_latest name (note_latest key q m) ≡ some (q.version, key) =
          rw note (rw (← e) (find_latest-set q.name (q.version, key) m)) in
        ap (λ x. x.0) (some_inj (sym own ∙ f)) in
      elim (note-Noted key q m) [
        | first none' note ↦ inr (e, set note)
        | newer w k g le note ↦ inr (e, set note)
        | older w k g le note ↦ inl (rw note at f)
      ]
  | inr other ↦ elim (note-Noted key q m) [
    | first none' note ↦ inl (sym (find_latest-set_other q.name name _ m other) ∙ (rw note at f))
    | newer w k g le note ↦ inl (sym (find_latest-set_other q.name name _ m other) ∙ (rw note at f))
    | older w k g le note ↦ inl (rw note at f)
  ]
]

latest_of-keeps :
    (ps : Entries) (m : Latest) (name : String) (v : Version)
    → NotedFrom m name v
    → NotedFrom (latest_of ps m) name v
unfolding latest_of
latest_of-keeps [] m name v h = h
latest_of-keeps ((k, p) ∷ ps) m name v (w, j, f, le) =
    let (u, i, g, le') = note-keeps k p m name w j f in
    latest_of-keeps ps (note_latest k p m) name v (u, i, g, cmp_trans v w u le le')

latest_of-In :
    (ps : Entries) (m : Latest) (k : Text) (p : PackageInfo)
    → In (k, p) ps
    → NotedFrom (latest_of ps m) p.name p.version
unfolding latest_of
latest_of-In [] m k p i = elim i [ ]
latest_of-In ((k, p) ∷ ps) m _ _ here =
    latest_of-keeps ps (note_latest k p m) p.name p.version (note-own k p m)
latest_of-In ((j, q) ∷ ps) m k p (there i) = latest_of-In ps (note_latest j q m) k p i

latest_of-source :
    (ps : Entries) (m : Latest) (name : String) (v : Version) (j : Text)
    → find_latest name (latest_of ps m) ≡ some (v, j)
    → (find_latest name m ≡ some (v, j))
      ⊎ ((k : Text) × (p : PackageInfo) × In (k, p) ps × (p.name ≡ name) × (p.version ≡ v))
unfolding latest_of
latest_of-source [] m name v j f = inl f
latest_of-source ((k, p) ∷ ps) m name v j f =
    elim (latest_of-source ps (note_latest k p m) name v j f) [
      | inl before ↦ elim (note-source k p m name v j before) [
        | inl old ↦ inl old
        | inr (n, w) ↦ inr (k, p, here, n, w)
      ]
      | inr (k', p', i, n, w) ↦ inr (k', p', there i, n, w)
    ]

-- In an index of packages, a name that some package `r` has is found without a version: what is found
-- is one of the packages, has that name, and is not older than `r`.
pub get-newest :
    (ps : List PackageInfo) (index : PackageIndex) (r : PackageInfo)
    → from_packages ps ≡ ok index
    → In r ps
    → (p : PackageInfo) × (get index r.name none ≡ some p)
      × In p ps
      × (p.name ≡ r.name)
      × (cmp r.version p.version ≢ Ordering.gt)
unfolding get new get_latest_version find_latest
get-newest ps index r e i =
    let (m, k, same) = from_packages-keyed ps index e in
    let (_, ir) =
      find_package_sound m (key_for r) r (keyed-AllKeyed ps [] m k tt)
        (keyed-finds ps [] m r k i) in
    let (v, j, f, le) = latest_of-In m [] (key_for r) r ir in
    elim (latest_of-source m [] r.name v j f) [
      | inl nothing ↦ absurd (none-some nothing)
      | inr (k', p, ip, n, w) ↦
          let member = old_none k' p ps (keyed-In ps [] m k' p k ip) in
          let g : find_package (key_of r.name v) m ≡ some p =
            rw (← n, ← w) (keyed-finds ps [] m p k member) in
          (p, rw same (rw (get, get_latest_version, f) g), member, n, rw w le)
    ]
