-- ===== src/Version/Resolve.antt =====
-- What `resolve_latest` finds.

use brane.Prelude.{
  ◌≡◌, ◌≢◌, ◌⊎◌, ◌∙◌, inl, inr, refl, Bool, true, false, not, ◌||◌, Bool-cases, Option, none, some,
  List, [], ◌∷◌, Ordering, arith, ok, err, if◌then◌else◌,
}
use brane.Version.{
  Version, ResolveError, is_latest, cmp, partial_cmp, gt, newest, resolve_latest, not_resolved,
  no_versions, already_resolved,
}
use brane.Version.Order.{cmp_trans, cmp-eq_iff}

-- `v` stands in the list
pub data Occurs (v : Version) : List Version → Type 0 where
  here : {vs : List Version} → Occurs v (v ∷ vs)
  there : {w : Version} {vs : List Version} → Occurs v vs → Occurs v (w ∷ vs)

-- every version of the list is resolved
abbrev pub AllResolved : List Version → Type 0
AllResolved [] = Unit
AllResolved (v ∷ vs) = (is_latest v ≡ false) × AllResolved vs

-- some version of the list is 'latest'
abbrev pub any_latest : List Version → Bool
any_latest [] = false
any_latest (v ∷ vs) = is_latest v || any_latest vs

-- the error that `resolve_latest` owes, if any
abbrev pub refusal : Version → List Version → Option ResolveError
refusal self vs =
    if not (is_latest self)
    then some (already_resolved self)
    else if any_latest vs
    then some not_resolved
    else elim vs [ [] ↦ some no_versions | _ ↦ none ]

-- no version of the list is newer than `v`
abbrev pub IsNewest : Version → List Version → Type 0
IsNewest v [] = Unit
IsNewest v (w ∷ ws) = (cmp w v ≢ Ordering.gt) × IsNewest v ws

-- the version that the loop keeps
abbrev pub newer : Version → Version → Version
newer l v = if gt v l then v else l

newest-some :
    (l v : Version) (vs : List Version)
    → is_latest v ≡ false
    → newest (some l) (v ∷ vs) ≡ newest (some (newer l v)) vs
unfolding newest
newest-some l v vs h = elim (Bool-cases (gt v l)) [ inl e ↦ rw (h, e) | inr e ↦ rw (h, e) ]

not_gt-newer :
    (l v : Version) → (cmp l (newer l v) ≢ Ordering.gt) × (cmp v (newer l v) ≢ Ordering.gt)
unfolding cmp partial_cmp
not_gt-newer l v = (ground arith, ground arith)

newer-not_gt : (l v x : Version) → cmp x l ≢ Ordering.gt → cmp x (newer l v) ≢ Ordering.gt
newer-not_gt l v x h = cmp_trans x l (newer l v) h (not_gt-newer l v).0

cmp-self_ne : (v : Version) → cmp v v ≢ Ordering.gt
cmp-self_ne v = λ h. grind (arith, (cmp-eq_iff v v).1 refl)

seen :
    (l v : Version) (vs : List Version) (m : Version)
    → (m ≡ newer l v) ⊎ Occurs m vs
    → (m ≡ l) ⊎ Occurs m (v ∷ vs)
seen l v vs m (inr o) = inr (there o)
seen l v vs m (inl e) = elim (Bool-cases (gt v l)) [
  | inl g ↦ inr (rw (e, g) here)
  | inr g ↦ inl (rw (e, g) refl)
]

-- The loop, from a version that it keeps: it ends with a version that it has seen, and none of
-- those that it has seen is newer.
newest_from :
    (l : Version) (vs : List Version)
    → AllResolved vs
    → (m : Version) × (newest (some l) vs ≡ ok (some m))
      × ((m ≡ l) ⊎ Occurs m vs)
      × (cmp l m ≢ Ordering.gt)
      × IsNewest m vs
unfolding newest
newest_from l [] h = (l, refl, inl refl, cmp-self_ne l, tt)
newest_from l (v ∷ vs) (h, hs) =
    let (m, e, o, p, q) = newest_from (newer l v) vs hs in
    (
      m,
      newest-some l v vs h ∙ e,
      seen l v vs m o,
      cmp_trans l (newer l v) m (not_gt-newer l v).0 p,
      (cmp_trans v (newer l v) m (not_gt-newer l v).1 p, q),
    )

newest_first :
    (v : Version) (vs : List Version)
    → is_latest v ≡ false
    → newest none (v ∷ vs) ≡ newest (some v) vs
unfolding newest
newest_first v vs h = rw h

resolve_latest-latest :
    (self : Version) (iter : List Version) {m : Version}
    → is_latest self ≡ true
    → newest none iter ≡ ok (some m)
    → resolve_latest self iter ≡ ok m
unfolding resolve_latest
resolve_latest-latest self iter h e = rw (h, e)

-- Where 'latest' is resolved against a list of resolved versions that is not empty, it becomes a
-- version of the list than which none of the list is newer.
pub resolve_latest-IsNewest :
    (self v : Version) (vs : List Version)
    → is_latest self ≡ true
    → AllResolved (v ∷ vs)
    → (m : Version) × (resolve_latest self (v ∷ vs) ≡ ok m)
      × Occurs m (v ∷ vs)
      × IsNewest m (v ∷ vs)
resolve_latest-IsNewest self v vs l (h, hs) =
    let (m, e, o, p, q) = newest_from v vs hs in
    (m, resolve_latest-latest self (v ∷ vs) l (newest_first v vs h ∙ e), first o, (p, q))
  where
    first : {m : Version} → (m ≡ v) ⊎ Occurs m vs → Occurs m (v ∷ vs)
    first (inl e) = rw e here
    first (inr o) = there o

newest_unresolved :
    (last : Option Version) (vs : List Version)
    → any_latest vs ≡ true
    → newest last vs ≡ err not_resolved
unfolding newest
newest_unresolved last [] h = cc
newest_unresolved none (v ∷ vs) h = ground (arith, newest_unresolved (some v) vs)
newest_unresolved (some l) (v ∷ vs) h =
    ground (arith, newest_unresolved (some v) vs, newest_unresolved (some l) vs)

-- Wherever `refusal` names an error, `resolve_latest` returns it: a resolved version is refused
-- with itself; else an unresolved version anywhere in the list is refused; else an empty list.
pub resolve_latest-refusal :
    (self : Version) (vs : List Version) (e : ResolveError)
    → refusal self vs ≡ some e
    → resolve_latest self vs ≡ err e
unfolding resolve_latest newest
resolve_latest-refusal self [] e h = ground arith
resolve_latest-refusal self (v ∷ vs) e h =
    ground (arith, newest_unresolved none (v ∷ vs), newest_unresolved (some v) vs)
