-- ===== src/Heap/Members.antt =====
-- Membership in vectors, and what writes and removals spare.
use brane.Prelude.{
  ℕ, zero, suc, ◌+◌, ◌<◌, ◌≡◌, refl, ◌⊎◌, inl, inr, some, List, [], ◌∷◌, ◌++◌, get_elem?, set,
  swap_remove, last-cases, swap_remove-append, ==_refl, arith,
}
use brane.Heap.Defs.{count}
pub use brane.Prelude.{In, here, there}

module _ {A : Type 0} where
  pub In-append_left : {a : A} {xs : List A} (ys : List A) → In a xs → In a (xs ++ ys)
  In-append_left ys here = here
  In-append_left ys (there m) = there (In-append_left ys m)

  pub In-append_right : {a : A} (xs : List A) {ys : List A} → In a ys → In a (xs ++ ys)
  In-append_right [] m = m
  In-append_right (x ∷ xs) m = there (In-append_right xs m)

  pub In-append : {a : A} (xs : List A) {ys : List A} → In a (xs ++ ys) → In a xs ⊎ In a ys
  In-append [] m = inr m
  In-append (x ∷ xs) here = inl here
  In-append (x ∷ xs) (there m) = elim (In-append xs m) [ inl l ↦ inl (there l) | inr r ↦ inr r ]

  -- a write spares all but the element that it replaces
  pub In-set :
      {a : A} (xs : List A) (i : ℕ) (v d : A)
      → In a xs
      → get_elem? xs i ≡ some d
      → (a ≡ d) ⊎ In a (set xs i v)
  In-set [] i v d m e = elim m [ ]
  In-set (x ∷ xs) zero v d here e = inl (cc)
  In-set (x ∷ xs) zero v d (there m) e = inr (there m)
  In-set (x ∷ xs) (suc i) v d here e = inr here
  In-set (x ∷ xs) (suc i) v d (there m) e = elim (In-set xs i v d m e) [
    | inl p ↦ inl p
    | inr p ↦ inr (there p)
  ]

  -- the last element takes the place of the one that is removed
  In-set_last :
      (l d : A) (ys : List A) (i : ℕ)
      → get_elem? (ys ++ l ∷ []) i ≡ some d
      → (l ≡ d) ⊎ In l (set ys i l)
  In-set_last l d [] zero e = inl (cc)
  In-set_last l d [] (suc i) e = cc
  In-set_last l d (y ∷ ys) zero e = inr here
  In-set_last l d (y ∷ ys) (suc i) e = elim (In-set_last l d ys i e) [
    | inl p ↦ inl p
    | inr p ↦ inr (there p)
  ]

  In-set_front :
      {a : A} (l d : A) (ys : List A) (i : ℕ)
      → In a ys
      → get_elem? (ys ++ l ∷ []) i ≡ some d
      → (a ≡ d) ⊎ In a (set ys i l)
  In-set_front l d [] i m e = elim m [ ]
  In-set_front l d (y ∷ ys) zero here e = inl (cc)
  In-set_front l d (y ∷ ys) zero (there m) e = inr (there m)
  In-set_front l d (y ∷ ys) (suc i) here e = inr here
  In-set_front l d (y ∷ ys) (suc i) (there m) e = elim (In-set_front l d ys i m e) [
    | inl p ↦ inl p
    | inr p ↦ inr (there p)
  ]

  In-singleton : {a b : A} → In a (b ∷ []) → a ≡ b
  In-singleton here = refl
  In-singleton (there m) = elim m [ ]

  In-swap_last :
      {a : A} (ys : List A) (l d : A) (i : ℕ)
      → In a (ys ++ l ∷ [])
      → get_elem? (ys ++ l ∷ []) i ≡ some d
      → (a ≡ d) ⊎ In a (set ys i l)
  In-swap_last {a} ys l d i m e = elim (In-append ys m) [
    | inl f ↦ In-set_front l d ys i f e
    | inr s ↦ let p : a ≡ l = In-singleton s in rw p (In-set_last l d ys i e)
  ]

  pub In-swap_remove :
      {a : A} (xs : List A) (i : ℕ) (d : A)
      → In a xs
      → get_elem? xs i ≡ some d
      → (a ≡ d) ⊎ In a (swap_remove xs i)
  In-swap_remove {a} xs i d m e = elim (last-cases xs) [
    | inl p ↦ elim (rw p at m) [ ]
    | inr (ys, l, p) ↦
        rw p (rw (swap_remove-append ys i l) (In-swap_last ys l d i (rw p at m) (rw p at e)))
  ]

pub count-In : (a : ℕ) (bs : List ℕ) → In a bs → 0 < count a bs
count-In a [] m = elim m [ ]
count-In a (b ∷ bs) here = rw (==_refl a) (omega arith)
count-In a (b ∷ bs) (there m) = ground (arith, count-In a bs m)

pub count-append : (a : ℕ) (bs cs : List ℕ) → count a (bs ++ cs) ≡ count a bs + count a cs
count-append a [] cs = omega arith
count-append a (b ∷ bs) cs = ground (arith, count-append a bs cs)
