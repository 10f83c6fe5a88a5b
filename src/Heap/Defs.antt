-- ===== src/Heap/Defs.antt =====
-- The definitions of brane-bvm/src/heap.rs.
use brane.Prelude.{
  ℕ, zero, suc, true, false, none, some, List, [], ◌∷◌, ◌++◌, length, get_elem?, set, swap_remove,
  Outcome, ok, err, leb, ◌==◌, if◌then◌else◌,
}

pub data HeapError : Type 0 where
  out_of_memory_error : ℕ → HeapError

-- the number of times that an address stands in a list
abbrev pub count : ℕ → List ℕ → ℕ
count a [] = 0
count a (b ∷ bs) = if a == b then suc (count a bs) else count a bs

-- an `Arc<T>`: its address and its object
abbrev pub Cell : Type 0 → Type 0
Cell T = ℕ × T

-- `next` is an address that no `Arc` has had.
pub record Heap (T : Type 0) : Type 0 where
  pub cells : List (Cell T)
  pub max_size : ℕ
  pub next : ℕ

pub data GarbageCollectorState (T : Type 0) : Type 0 where
  pending : Cell T → GarbageCollectorState T
  remove : GarbageCollectorState T

unfoldable pub new : {T : Type 0} → ℕ → Heap T
new max_size = record { cells = []; max_size = max_size; next = 0 }

unfoldable pub default : {T : Type 0} → Heap T
unfolding new
default = new 512

module _ {T : Type 0} where
  unfoldable pub len : Heap T → ℕ
  len h = length h.cells

  unfoldable pub capacity : Heap T → ℕ
  capacity h = h.max_size

-- `refs` lists the handles inside an object.
module _ {T : Type 0} (refs : T → List ℕ) where
  unfoldable pub refs_of : List (Cell T) → List ℕ
  refs_of [] = []
  refs_of (c ∷ cs) = refs c.1 ++ refs_of cs

  unfoldable pub pending_refs : GarbageCollectorState T → List ℕ
  pending_refs (pending elem) = refs elem.1
  pending_refs remove = []

  -- `Arc::strong_count` of an object of the vector
  unfoldable pub strong_count : List ℕ → GarbageCollectorState T → List (Cell T) → ℕ → ℕ
  strong_count held state cells a = suc (count a (held ++ (pending_refs state ++ refs_of cells)))

  -- what the loop does at an object that only the vector refers to
  unfoldable pub reclaim :
      GarbageCollectorState T → List (Cell T) → ℕ → GarbageCollectorState T × List (Cell T)
  reclaim (pending elem) cells i = (remove, set cells i elem)
  reclaim remove cells i = (remove, swap_remove cells i)

  -- the loop, with the rounds that are left
  unfoldable pub collect :
      List ℕ
      → ℕ
      → ℕ
      → GarbageCollectorState T
      → List (Cell T)
      → GarbageCollectorState T × List (Cell T)
  collect held zero i state cells = (state, cells)
  collect held (suc rounds) i state cells = elim (get_elem? cells i) [
    | none ↦ (state, cells)
    | some c ↦ elim (strong_count held state cells c.0 == 1) [
      | true ↦
          let (state', cells') = reclaim state cells i in collect held rounds (suc i) state' cells'
      | false ↦ collect held rounds (suc i) state cells
    ]
  ]

  -- the end of `alloc`: an object that replaced none is pushed, if there is space
  unfoldable pub settle :
      Heap T
      → Cell T
      → GarbageCollectorState T × List (Cell T)
      → Outcome HeapError (Cell T × Heap T)
  settle h elem (remove, cells) = ok (elem, record h { cells = cells; next = suc h.next })
  settle h elem (pending e, cells) =
      if leb h.max_size (length cells)
      then err (out_of_memory_error h.max_size)
      else ok (elem, record h { cells = cells ++ e ∷ []; next = suc h.next })

  -- The new handle counts as held from the start.
  unfoldable pub alloc : List ℕ → T → Heap T → Outcome HeapError (Cell T × Heap T)
  alloc held obj h =
      let elem : Cell T = (h.next, obj) in
      settle h elem (collect (h.next ∷ held) (length h.cells) 0 (pending elem) h.cells)
