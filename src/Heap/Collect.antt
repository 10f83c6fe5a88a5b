-- ===== src/Heap/Collect.antt =====
-- The collecting loop of `alloc` drops nothing that can be reached from a handle.
use brane.Prelude.{
  ℕ, zero, suc, ◌≤◌, ◌<◌, ◌≡◌, refl, sym, ap, ◌∙◌, true, false, ◌⊎◌, inl, inr, none, some, List, [],
  ◌∷◌, ◌++◌, length, get_elem?, get_elem?-past, length-set, length-swap_remove-le, ◌==◌, Bool-cases,
  Option-cases, ==_iff, arith,
}
use brane.Heap.Defs.{
  Cell, GarbageCollectorState, pending, remove, refs_of, pending_refs, strong_count, reclaim,
  collect,
}
use brane.Heap.Members.{
  In, here, there, In-append_left, In-append_right, In-set, In-swap_remove, count-In, count-append,
}

module _ {T : Type 0} (refs : T → List ℕ) (held : List ℕ) where
  -- The objects of the vector that the program can reach: by a handle that it holds, or by one
  -- inside an object that it can reach.
  pub data Reachable (cells : List (Cell T)) : Cell T → Type 0 where
    root : {c : Cell T} → In c cells → In c.0 held → Reachable cells c
    via :
        {c : Cell T} (b : Cell T)
        → Reachable cells b
        → In c cells
        → In c.0 (refs b.1)
        → Reachable cells c

  pub Reachable-In : {cells : List (Cell T)} {c : Cell T} → Reachable cells c → In c cells
  Reachable-In (root m h) = m
  Reachable-In (via b r m h) = m

  In-refs_of :
      {b : Cell T} (cells : List (Cell T)) {a : ℕ}
      → In b cells
      → In a (refs b.1)
      → In a (refs_of refs cells)
  unfolding refs_of
  In-refs_of [] m h = elim m [ ]
  In-refs_of (c ∷ cells) here h = In-append_left _ h
  In-refs_of (c ∷ cells) (there m) h = In-append_right (refs c.1) (In-refs_of cells m h)

  -- a reachable object has a second reference
  Reachable-count :
      (state : GarbageCollectorState T) {cells : List (Cell T)} {c : Cell T}
      → Reachable cells c
      → 1 < strong_count refs held state cells c.0
  unfolding strong_count
  Reachable-count state {cells} {c} (root m h) = omega (
    arith,
    count-append c.0 held (pending_refs refs state ++ refs_of refs cells),
    count-In c.0 held h,
  )
  Reachable-count state {cells} {c} (via b r m h) = omega (
    arith,
    count-append c.0 held (pending_refs refs state ++ refs_of refs cells),
    count-append c.0 (pending_refs refs state) (refs_of refs cells),
    count-In c.0 (refs_of refs cells) (In-refs_of cells (Reachable-In r) h),
  )

  -- one removal or replacement of an object with one reference
  reclaim-In :
      (state : GarbageCollectorState T) (cells : List (Cell T)) (i : ℕ) (d : Cell T) {c : Cell T}
      → get_elem? cells i ≡ some d
      → In c cells
      → (c ≡ d) ⊎ In c (reclaim refs state cells i).1
  unfolding reclaim
  reclaim-In (pending elem) cells i d e m = In-set cells i elem d m e
  reclaim-In remove cells i d e m = In-swap_remove cells i d m e

  module _ (state : GarbageCollectorState T) (cells : List (Cell T)) (i : ℕ) (d : Cell T)
      (e : get_elem? cells i ≡ some d) (one : strong_count refs held state cells d.0 ≡ 1) where
    reclaim-stays : {b : Cell T} → Reachable cells b → In b (reclaim refs state cells i).1
    reclaim-stays {b} r = elim (reclaim-In state cells i d e (Reachable-In r)) [
      | inl p ↦
          let q : strong_count refs held state cells b.0 ≡ strong_count refs held state cells d.0 =
            ap (λ (c : Cell T). strong_count refs held state cells c.0) p in
          absurd (omega (arith, Reachable-count state r))
      | inr k ↦ k
    ]

    reclaim-Reachable :
        {b : Cell T} → Reachable cells b → Reachable (reclaim refs state cells i).1 b
    reclaim-Reachable (root m h) = root (reclaim-stays (root m h)) h
    reclaim-Reachable (via b r m h) = via b (reclaim-Reachable r) (reclaim-stays (via b r m h)) h

  module _ (rounds i : ℕ) (state : GarbageCollectorState T) (cells : List (Cell T)) where
    collect-stop :
        get_elem? cells i ≡ none → collect refs held (suc rounds) i state cells ≡ (state, cells)
    unfolding collect
    collect-stop p = rw (p, collect)

    module _ (d : Cell T) (p : get_elem? cells i ≡ some d) where
      collect-used :
          (strong_count refs held state cells d.0 == 1) ≡ false
          → collect refs held (suc rounds) i state cells
            ≡ collect refs held rounds (suc i) state cells
      unfolding collect
      collect-used q = rw (p, q, collect)

      collect-garbage :
          (strong_count refs held state cells d.0 == 1) ≡ true
          → collect refs held (suc rounds) i state cells
            ≡ collect refs held rounds
                (suc i)
                (reclaim refs state cells i).0
                (reclaim refs state cells i).1
      unfolding collect
      collect-garbage q = rw (p, q, collect)

  -- The loop keeps every object that can be reached, and what it can be reached by.
  pub collect-Reachable :
      (rounds i : ℕ) (state : GarbageCollectorState T) (cells : List (Cell T)) {b : Cell T}
      → Reachable cells b
      → Reachable (collect refs held rounds i state cells).1 b
  collect-Reachable zero i state cells r = unfold collect in r
  collect-Reachable (suc rounds) i state cells {b} r = elim (Option-cases (get_elem? cells i)) [
    | inl p ↦ rw (collect-stop rounds i state cells p) r
    | inr (d, p) ↦ elim (Bool-cases (strong_count refs held state cells d.0 == 1)) [
      | inl q ↦ rw (collect-garbage rounds i state cells d p q) (
          collect-Reachable rounds (suc i) _ _
            (reclaim-Reachable state cells i d p ((==_iff _ 1).0 q) r))
      | inr q ↦
          rw (collect-used rounds i state cells d p q)
            (collect-Reachable rounds (suc i) state cells r)
    ]
  ]

  length-reclaim-le :
      (state : GarbageCollectorState T) (cells : List (Cell T)) (i : ℕ)
      → length (reclaim refs state cells i).1 ≤ length cells
  unfolding reclaim
  length-reclaim-le (pending elem) cells i = omega (arith, length-set cells i elem)
  length-reclaim-le remove cells i = length-swap_remove-le cells i

  -- The loop never makes the vector longer.
  pub length-collect-le :
      (rounds i : ℕ) (state : GarbageCollectorState T) (cells : List (Cell T))
      → length (collect refs held rounds i state cells).1 ≤ length cells
  length-collect-le zero i state cells = unfold collect in omega arith
  length-collect-le (suc rounds) i state cells = elim (Option-cases (get_elem? cells i)) [
    | inl p ↦ rw (collect-stop rounds i state cells p) (omega arith)
    | inr (d, p) ↦ elim (Bool-cases (strong_count refs held state cells d.0 == 1)) [
      | inl q ↦ rw (collect-garbage rounds i state cells d p q) (
          omega (
            arith,
            length-reclaim-le state cells i,
            length-collect-le rounds (suc i) (reclaim refs state cells i).0
                (reclaim refs state cells i).1,
          ))
      | inr q ↦
          rw (collect-used rounds i state cells d p q)
            (length-collect-le rounds (suc i) state cells)
    ]
  ]

  -- every object from position `i` on has a second reference
  abbrev pub AllUsed : GarbageCollectorState T → List (Cell T) → ℕ → ℕ → Type 0
  AllUsed state cells zero i = Unit
  AllUsed state cells (suc rounds) i =
      ((d : Cell T) → get_elem? cells i ≡ some d → 1 < strong_count refs held state cells d.0)
      × AllUsed state cells rounds (suc i)

  reclaim-remove :
      (state : GarbageCollectorState T) (cells : List (Cell T)) (i : ℕ)
      → (reclaim refs state cells i).0 ≡ remove
  unfolding reclaim
  reclaim-remove (pending elem) cells i = refl
  reclaim-remove remove cells i = refl

  -- once the new object is placed it stays so
  removed :
      (rounds i : ℕ) (cells : List (Cell T)) → (collect refs held rounds i remove cells).0 ≡ remove
  removed zero i cells = unfold collect in refl
  removed (suc rounds) i cells = elim (Option-cases (get_elem? cells i)) [
    | inl p ↦ rw (collect-stop rounds i remove cells p)
    | inr (d, p) ↦ elim (Bool-cases (strong_count refs held remove cells d.0 == 1)) [
      | inl q ↦
          rw (collect-garbage rounds i remove cells d p q)
            (rw (reclaim-remove remove cells i) (removed rounds (suc i) _))
      | inr q ↦ rw (collect-used rounds i remove cells d p q) (removed rounds (suc i) cells)
    ]
  ]

  used_past :
      (rounds i : ℕ) (state : GarbageCollectorState T) (cells : List (Cell T))
      → get_elem? cells i ≡ none
      → AllUsed state cells rounds i
  used_past zero i state cells p = tt
  used_past (suc rounds) i state cells p =
      (λ d e. cc, used_past rounds (suc i) state cells (get_elem?-past cells i p))

  second_reference :
      (state : GarbageCollectorState T) (cells : List (Cell T)) (a : ℕ)
      → (strong_count refs held state cells a == 1) ≡ false
      → 1 < strong_count refs held state cells a
  unfolding strong_count
  second_reference state cells a q = ground arith

  -- Where the loop has not placed the new object, it has changed nothing, and every object that it
  -- came by has a second reference.
  pub collect-pending :
      (rounds i : ℕ) (elem e : Cell T) (cells : List (Cell T))
      → (collect refs held rounds i (pending elem) cells).0 ≡ pending e
      → (collect refs held rounds i (pending elem) cells ≡ (pending elem, cells))
        × AllUsed (pending elem) cells rounds i
  unfolding reclaim
  collect-pending zero i elem e cells h = (unfold collect in refl, tt)
  collect-pending (suc rounds) i elem e cells h = elim (Option-cases (get_elem? cells i)) [
    | inl p ↦ (
      collect-stop rounds i (pending elem) cells p,
      used_past (suc rounds) i (pending elem) cells p,
    )
    | inr (d, p) ↦ elim (Bool-cases (strong_count refs held (pending elem) cells d.0 == 1)) [
      | inl q ↦
          let gone : remove ≡ pending e =
            sym (removed rounds (suc i) (reclaim refs (pending elem) cells i).1)
            ∙ rw (collect-garbage rounds i (pending elem) cells d p q) at h in
          cc
      | inr q ↦
          let (same, used) =
            collect-pending rounds (suc i) elem e cells
              (rw (collect-used rounds i (pending elem) cells d p q) at h) in
          (
            rw (collect-used rounds i (pending elem) cells d p q) same,
            (
              λ d' p'.
                  let same_cell : d ≡ d' = cc in
                  rw (← same_cell) (second_reference (pending elem) cells d.0 q),
              used,
            ),
          )
    ]
  ]
