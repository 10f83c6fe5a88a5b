-- ===== src/Heap/Tests.antt =====
-- The heap theorems at concrete heaps, whose objects are lists of the addresses that they hold.
use brane.Prelude.{ℕ, ◌≡◌, ◌≤◌, refl, List, [], ◌∷◌, ok, err, arith}
use brane.Heap.Defs.{
  Heap, out_of_memory_error, pending, refs_of, pending_refs, strong_count, reclaim, collect, settle,
  alloc, len, capacity,
}
use brane.Heap.Members.{In, here, there}
use brane.Heap.Collect.{Reachable, root, via, AllUsed}
use brane.Heap.Alloc.{alloc-keeps, alloc-le-capacity, alloc_out_of_memory}

abbrev refs : List ℕ → List ℕ
refs o = o

-- Object 0 is held by the program and holds object 2; nothing holds object 1.
abbrev full : Heap (List ℕ)
full = record { cells = (0, 2 ∷ []) ∷ (1, []) ∷ (2, []) ∷ []; max_size = 3; next = 3 }

abbrev after : Heap (List ℕ)
after = record { cells = (0, 2 ∷ []) ∷ (3, 0 ∷ []) ∷ (2, []) ∷ []; max_size = 3; next = 4 }

full-alloc : alloc refs (0 ∷ []) (0 ∷ []) full ≡ ok ((3, 0 ∷ []), after)
unfolding alloc collect strong_count refs_of pending_refs reclaim settle
full-alloc = refl

two-Reachable : Reachable refs (0 ∷ []) full.cells (2, [])
two-Reachable = via (0, 2 ∷ []) (root here here) (there (there here)) here

alloc-keeps_example : In (2, []) after.cells
alloc-keeps_example =
    alloc-keeps refs (0 ∷ []) (0 ∷ []) full after (3, 0 ∷ []) (2, []) full-alloc two-Reachable

full-le-capacity : len full ≤ capacity full
unfolding len capacity
full-le-capacity = omega arith

alloc-le-capacity_example : (len after ≤ capacity after) × (capacity after ≡ capacity full)
alloc-le-capacity_example =
    alloc-le-capacity refs (0 ∷ []) (0 ∷ []) full after (3, 0 ∷ []) full-alloc full-le-capacity

abbrev held : List ℕ
held = 0 ∷ 1 ∷ []

full-out_of_memory : alloc refs held [] full ≡ err (out_of_memory_error 3)
unfolding alloc collect strong_count refs_of pending_refs reclaim settle
full-out_of_memory = refl

alloc_out_of_memory_example :
    (out_of_memory_error 3 ≡ out_of_memory_error (capacity full))
    × (capacity full ≤ len full)
    × AllUsed refs (3 ∷ held) (pending (3, [])) full.cells (len full) 0
alloc_out_of_memory_example =
    alloc_out_of_memory refs held [] full (out_of_memory_error 3) full-out_of_memory
