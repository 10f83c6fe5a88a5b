-- ===== src/Heap/Alloc.antt =====
-- `alloc` on every outcome.
use brane.Prelude.{
  ℕ, suc, ◌≤◌, ◌≡◌, refl, List, [], ◌∷◌, ◌++◌, length, length-append, ok, err, leb, Bool-cases, inl,
  inr, arith,
}
use brane.Heap.Defs.{
  Cell, Heap, HeapError, out_of_memory_error, GarbageCollectorState, pending, remove, settle, alloc,
  len, capacity,
}
use brane.Heap.Members.{In, there, In-append_left}
use brane.Heap.Collect.{
  Reachable, root, via, Reachable-In, collect-Reachable, length-collect-le, collect-pending,
  AllUsed,
}

module _ {T : Type 0} (refs : T → List ℕ) (held : List ℕ) where
  -- one more handle leaves reachable what was
  Reachable-more :
      (a : ℕ) {cells : List (Cell T)} {c : Cell T}
      → Reachable refs held cells c
      → Reachable refs (a ∷ held) cells c
  Reachable-more a (root m h) = root m (there h)
  Reachable-more a (via b r m h) = via b (Reachable-more a r) m h

  settle-keeps :
      (h h' : Heap T) (elem e : Cell T) (found : GarbageCollectorState T × List (Cell T))
      {c : Cell T}
      → settle refs h elem found ≡ ok (e, h')
      → In c found.1
      → In c h'.cells
  unfolding settle
  settle-keeps h h' elem e (remove, cells) p m =
      let q : cells ≡ h'.cells = ground arith in rw (← q) m
  settle-keeps h h' elem e (pending x, cells) p m =
      elim (Bool-cases (leb h.max_size (length cells))) [
        | inl full ↦ cc
        | inr space ↦
            let q : cells ++ x ∷ [] ≡ h'.cells = ground arith in
            rw (← q) (In-append_left (x ∷ []) m)
      ]

  -- Where `alloc` succeeds, every object that the program can reach, directly or through other
  -- objects, is still in the vector.
  pub alloc-keeps :
      (obj : T) (h h' : Heap T) (elem c : Cell T)
      → alloc refs held obj h ≡ ok (elem, h')
      → Reachable refs held h.cells c
      → In c h'.cells
  unfolding alloc
  alloc-keeps obj h h' elem c p r = settle-keeps h h' _ elem _ p (
      Reachable-In _ _ (
        collect-Reachable refs (h.next ∷ held) (length h.cells) 0 (pending (h.next, obj)) h.cells
          (Reachable-more h.next r)))

  settle-bound :
      (h h' : Heap T) (elem e : Cell T) (found : GarbageCollectorState T × List (Cell T))
      → settle refs h elem found ≡ ok (e, h')
      → length found.1 ≤ h.max_size
      → (length h'.cells ≤ h'.max_size) × (h'.max_size ≡ h.max_size)
  unfolding settle
  settle-bound h h' elem e (remove, cells) p b = ground arith
  settle-bound h h' elem e (pending x, cells) p b = ground (arith, length-append cells (x ∷ []))

  -- A heap that is within its capacity stays within the same capacity.
  pub alloc-le-capacity :
      (obj : T) (h h' : Heap T) (elem : Cell T)
      → alloc refs held obj h ≡ ok (elem, h')
      → len h ≤ capacity h
      → (len h' ≤ capacity h') × (capacity h' ≡ capacity h)
  unfolding alloc len capacity
  alloc-le-capacity obj h h' elem p b = settle-bound h h' _ elem _ p (
      omega (
        arith,
        length-collect-le refs (h.next ∷ held) (length h.cells) 0 (pending (h.next, obj)) h.cells,
      ))

  settle-err :
      (h : Heap T) (elem : Cell T) (e : HeapError) (found : GarbageCollectorState T × List (Cell T))
      → settle refs h elem found ≡ err e
      → (x : Cell T) × (found.0 ≡ pending x)
        × (h.max_size ≤ length found.1)
        × (e ≡ out_of_memory_error h.max_size)
  unfolding settle
  settle-err h elem e (remove, cells) p = cc
  settle-err h elem e (pending x, cells) p = (x, refl, ground arith, ground arith)

  -- Where `alloc` fails, it is for want of memory: the vector is full, and every object of it has
  -- a reference besides the vector's, so that none of them could be collected.
  pub alloc_out_of_memory :
      (obj : T) (h : Heap T) (e : HeapError)
      → alloc refs held obj h ≡ err e
      → (e ≡ out_of_memory_error (capacity h))
        × (capacity h ≤ len h)
        × AllUsed refs (h.next ∷ held) (pending (h.next, obj)) h.cells (len h) 0
  unfolding alloc len capacity
  alloc_out_of_memory obj h e p =
      let (x, q, full, is) = settle-err h _ e _ p in
      let (same, used) =
        collect-pending refs (h.next ∷ held) (length h.cells) 0 (h.next, obj) x h.cells q in
      (is, rw same at full, used)

  settle-In :
      (h h' : Heap T) (elem e : Cell T) (found : GarbageCollectorState T × List (Cell T))
      → settle refs h elem found ≡ ok (e, h')
      → (e ≡ elem) × (h'.next ≡ suc h.next)
  unfolding settle
  settle-In h h' elem e (remove, cells) p = ground arith
  settle-In h h' elem e (pending x, cells) p = ground arith

  -- The handle that `alloc` returns is a new address with the object that was given.
  pub alloc_fresh :
      (obj : T) (h h' : Heap T) (elem : Cell T)
      → alloc refs held obj h ≡ ok (elem, h')
      → (elem ≡ (h.next, obj)) × (h'.next ≡ suc h.next)
  unfolding alloc
  alloc_fresh obj h h' elem p = settle-In h h' _ elem _ p
