-- ===== src/Vm/Effects.antt =====
-- What operations that succeed leave of the machine.
use brane.Prelude.{
  ℕ, ◌≡◌, refl, sym, ap, ◌∙◌, String, List, ◌++◌, Outcome, ok, ok_inj, err, panic, map_err,
}
use brane.Prelude.Exec.{Exec, continue}
use brane.Heap.{HeapError, Heap, Cell, alloc}
use brane.Heap.Alloc.{alloc_fresh}
use brane.Vm.Slot.{Handle, Object, object_refs, handle}
use brane.Vm.State.{Vm, held, alloc_object, heap_alloc, heap_alloc_error}

-- a step that succeeded, and what it led to
pub continue-ok :
    {S E A B : Type 0} (r : Outcome E A × S) (f : A → Exec S E B) (b : B) (s : S)
    → continue r f ≡ (ok b, s)
    → (a : A) × (t : S) × (r ≡ (ok a, t)) × (f a t ≡ (ok b, s))
continue-ok (ok a, t) f b s h = (a, t, refl, h)
continue-ok (err e, t) f b s h = cc
continue-ok (panic, t) f b s h = cc

-- the machine is as it was but for its heap
abbrev pub OnlyHeap : Vm → Vm → Type 0
OnlyHeap vm vm' = vm' ≡ record vm { heap = vm'.heap }

pub OnlyHeap-trans : (u v w : Vm) → OnlyHeap u v → OnlyHeap v w → OnlyHeap u w
OnlyHeap-trans u v w p q = let f : Vm → Vm = λ x. record x { heap = w.heap } in q ∙ ap f p

pub ok-pair_inj :
    {S E A : Type 0} {a b : A} {s t : S}
    → Path (Outcome E A × S) (ok a, s) (ok b, t)
    → (a ≡ b) × (s ≡ t)
ok-pair_inj e = (ok_inj (ap (λ p. p.0) e), ap (λ p. p.1) e)

alloc_object-at :
    (locals : List ℕ) (o : Object) (vm vm' : Vm) (h : Handle)
    (r : Outcome HeapError (Cell Object × Heap Object))
    → alloc object_refs (locals ++ held vm) o vm.heap ≡ r
    → alloc_object locals o vm ≡ (ok h, vm')
    → ((a : ℕ) × (h ≡ handle a o)) × OnlyHeap vm vm'
unfolding alloc_object
alloc_object-at locals o vm vm' h (ok (cell, heap)) p e =
    let (is, _) = alloc_fresh object_refs (locals ++ held vm) o vm.heap heap cell p in
    let (same, q) = ok-pair_inj {E = HeapError} (rw (alloc_object, p) at e) in
    ((vm.heap.next, sym same ∙ ap (λ (c : Cell Object). handle c.0 c.1) is), rw (← q) refl)
alloc_object-at locals o vm vm' h (err x) p e = let q = rw (alloc_object, p) at e in cc
alloc_object-at locals o vm vm' h panic p e = let q = rw (alloc_object, p) at e in cc

-- A new handle has the object that was given, and only the heap is changed.
pub alloc_object-ok :
    (locals : List ℕ) (o : Object) (vm vm' : Vm) (h : Handle)
    → alloc_object locals o vm ≡ (ok h, vm')
    → ((a : ℕ) × (h ≡ handle a o)) × OnlyHeap vm vm'
alloc_object-ok locals o vm vm' h = alloc_object-at locals o vm vm' h _ refl

-- an operation that succeeded with its error wrapped
pub wrap_err-ok :
    {S E F A : Type 0} (f : E → F) (r : Outcome E A × S) (a : A) (s : S)
    → Path (Outcome F A × S) (map_err f r.0, r.1) (ok a, s)
    → r ≡ (ok a, s)
wrap_err-ok {F = F} f (ok x, t) a s e = let (p, q) = ok-pair_inj {E = F} e in rw (p, q) refl
wrap_err-ok f (err x, t) a s e = cc
wrap_err-ok f (panic, t) a s e = cc

pub heap_alloc-ok :
    (what : String) (locals : List ℕ) (o : Object) (vm vm' : Vm) (h : Handle)
    → heap_alloc what locals o vm ≡ (ok h, vm')
    → alloc_object locals o vm ≡ (ok h, vm')
unfolding heap_alloc
heap_alloc-ok what locals o vm vm' h e =
    wrap_err-ok (heap_alloc_error what) (alloc_object locals o vm) h vm' e
