-- ===== src/Dsl/Run/Frozen.antt =====
-- Freezing a function keeps its code and makes of each constant the slot that the compiler counts on.
use brane.Prelude.{
  subst, ℕ, zero, suc, ◌≡◌, refl, sym, ap, ◌∙◌, some_inj, ok_inj, true, false, some, String, List,
  [], ◌∷◌, ◌++◌, get_elem?, ok,
}
use brane.Prelude.Exec.{pure, continue}
use brane.Heap.{HeapError}
use brane.Value.{
  Value, Values, SpecFunction, spec_function, spec_class, Methods, no_methods, method,
}
use brane.Bytecode.Chunk.{ChunkMut}
use brane.Vm.Slot.{
  Slot, Slots, Handle, Object, object, string, class, function, Props, address, to_list, slots_refs,
}
use brane.Vm.State.{Vm, alloc_object}
use brane.Vm.Calls.Freeze.{freeze_constant, freeze_constants, freeze_function, freeze_methods}
use brane.Vm.Effects.{continue-ok, ok-pair_inj, OnlyHeap, OnlyHeap-trans, alloc_object-ok}
use brane.Dsl.Correct.Chunks.{value_at, Froze, Loaded}

-- what a step of freezing needs, and what comes of it
freeze_constant-Froze :
    (locals : List ℕ) (v : Value) (vm vm' : Vm) (x : Slot)
    → freeze_constant locals v vm ≡ (ok x, vm')
    → Froze v x
unfolding freeze_constant
freeze_constant-Froze locals (Value.integer z) vm vm' x e = ok_inj (sym (ap (λ p. p.0) e))
freeze_constant-Froze locals (Value.unicode s) vm vm' x e =
    let (h, t, made, rest) = continue-ok (alloc_object locals (string s) vm) _ x vm' e in
    let ((a, is), _) = alloc_object-ok locals (string s) vm t h made in
    (a, sym (ok-pair_inj {E = HeapError} rest).0 ∙ ap object is)
freeze_constant-Froze locals _ vm vm' x e = tt

-- a handle made of what was frozen
alloc-OnlyHeap :
    {A : Type 0} (locals : List ℕ) (o : Object) (f : Handle → A) (u v w : Vm) (x : A)
    → OnlyHeap u v
    → continue (alloc_object locals o v) (λ h. pure {E = HeapError} (f h)) ≡ (ok x, w)
    → OnlyHeap u w
alloc-OnlyHeap locals o f u v w x p e =
    let (h, t, made, rest) = continue-ok (alloc_object locals o v) _ x w e in
    let q = OnlyHeap-trans u v t p (alloc_object-ok locals o v t h made).1 in
    rw (ok-pair_inj {E = HeapError} rest).1 at q

-- Freezing changes nothing but the heap.
mutual
  unfolding freeze_constant freeze_constants freeze_function freeze_methods

  freeze_constant-OnlyHeap :
      (locals : List ℕ) (v : Value) (vm vm' : Vm) (x : Slot)
      → freeze_constant locals v vm ≡ (ok x, vm')
      → OnlyHeap vm vm'
  freeze_constant-OnlyHeap locals (Value.boolean true) vm vm' x e =
      rw (ok-pair_inj {E = HeapError} e).1 refl
  freeze_constant-OnlyHeap locals (Value.boolean false) vm vm' x e =
      rw (ok-pair_inj {E = HeapError} e).1 refl
  freeze_constant-OnlyHeap locals (Value.integer i) vm vm' x e =
      rw (ok-pair_inj {E = HeapError} e).1 refl
  freeze_constant-OnlyHeap locals (Value.real i) vm vm' x e =
      rw (ok-pair_inj {E = HeapError} e).1 refl
  freeze_constant-OnlyHeap locals (Value.function f) vm vm' x e =
      let (o, t, made, rest) = continue-ok (freeze_function locals f vm) _ x vm' e in
      alloc-OnlyHeap locals o object vm t vm' x (freeze_function-OnlyHeap locals f vm t o made) rest
  freeze_constant-OnlyHeap locals (Value.unicode s) vm vm' x e =
      alloc-OnlyHeap locals (string s) object vm vm vm' x refl e
  freeze_constant-OnlyHeap locals (Value.class (spec_class name _ ms)) vm vm' x e =
      let (o, t, made, rest) = continue-ok (freeze_methods locals ms vm) _ x vm' e in
      alloc-OnlyHeap locals (class name o) object vm t vm' x
        (freeze_methods-OnlyHeap locals ms vm t o made) rest
  freeze_constant-OnlyHeap locals _ vm vm' x e = cc

  freeze_constants-OnlyHeap :
      (locals : List ℕ) (vs : Values) (vm vm' : Vm) (ss : Slots)
      → freeze_constants locals vs vm ≡ (ok ss, vm')
      → OnlyHeap vm vm'
  freeze_constants-OnlyHeap locals Values.nil vm vm' ss e =
      rw (ok-pair_inj {E = HeapError} e).1 refl
  freeze_constants-OnlyHeap locals (Values.cons v vs) vm vm' ss e =
      let (s, t, first, e') = continue-ok (freeze_constant locals v vm) _ ss vm' e in
      let (rs, u, others, rest) =
        continue-ok (freeze_constants (slots_refs (s ∷ []) ++ locals) vs t) _ ss vm' e' in
      let q =
        OnlyHeap-trans vm t u (freeze_constant-OnlyHeap locals v vm t s first)
          (freeze_constants-OnlyHeap (slots_refs (s ∷ []) ++ locals) vs t u rs others) in
      rw (ok-pair_inj {E = HeapError} rest).1 at q

  freeze_function-OnlyHeap :
      (locals : List ℕ) (f : SpecFunction) (vm vm' : Vm) (o : Object)
      → freeze_function locals f vm ≡ (ok o, vm')
      → OnlyHeap vm vm'
  freeze_function-OnlyHeap locals (spec_function arity name code constants) vm vm' o e =
      let (ss, t, made, rest) = continue-ok (freeze_constants locals constants vm) _ o vm' e in
      let q = freeze_constants-OnlyHeap locals constants vm t ss made in
      rw (ok-pair_inj {E = HeapError} rest).1 at q

  freeze_methods-OnlyHeap :
      (locals : List ℕ) (ms : Methods) (vm vm' : Vm) (ps : Props)
      → freeze_methods locals ms vm ≡ (ok ps, vm')
      → OnlyHeap vm vm'
  freeze_methods-OnlyHeap locals no_methods vm vm' ps e = rw (ok-pair_inj {E = HeapError} e).1 refl
  freeze_methods-OnlyHeap locals (method k f ms) vm vm' ps e =
      let (o, t, made, e') = continue-ok (freeze_function locals f vm) _ ps vm' e in
      let (h, u, at_heap, e'') = continue-ok (alloc_object locals o t) _ ps vm' e' in
      let (qs, w, others, rest) =
        continue-ok (freeze_methods (address h ∷ locals) ms u) _ ps vm' e'' in
      let p = freeze_function-OnlyHeap locals f vm t o made in
      let q = OnlyHeap-trans vm t u p (alloc_object-ok locals o t u h at_heap).1 in
      let r =
        OnlyHeap-trans vm u w q (freeze_methods-OnlyHeap (address h ∷ locals) ms u w qs others) in
      rw (ok-pair_inj {E = HeapError} rest).1 at r

-- in each constant's place, the slot that the compiler counts on
abbrev pub AllFroze : Values → List Slot → Type 0
AllFroze vs xs =
    (i : ℕ) (v : Value)
    → value_at vs i ≡ some v
    → (x : Slot) × (get_elem? xs i ≡ some x) × Froze v x

AllFroze-cons :
    (w : Value) (vs : Values) (x : Slot) (xs : List Slot)
    → Froze w x
    → AllFroze vs xs
    → AllFroze (Values.cons w vs) (x ∷ xs)
AllFroze-cons w vs x xs p ps zero v h = (x, refl, rw (some_inj h) at p)
AllFroze-cons w vs x xs p ps (suc i) v h = ps i v h

freeze_constants-AllFroze :
    (locals : List ℕ) (vs : Values) (vm vm' : Vm) (ss : Slots)
    → freeze_constants locals vs vm ≡ (ok ss, vm')
    → AllFroze vs (to_list ss)
unfolding freeze_constants
freeze_constants-AllFroze locals Values.nil vm vm' ss e = λ i v h. cc
freeze_constants-AllFroze locals (Values.cons w vs) vm vm' ss e =
    let (s, t, first, e') = continue-ok (freeze_constant locals w vm) _ ss vm' e in
    let (rs, u, others, rest) =
      continue-ok (freeze_constants (slots_refs (s ∷ []) ++ locals) vs t) _ ss vm' e' in
    let all =
      AllFroze-cons w vs s (to_list rs) (freeze_constant-Froze locals w vm t s first)
        (freeze_constants-AllFroze (slots_refs (s ∷ []) ++ locals) vs t u rs others) in
    subst (λ qs. AllFroze (Values.cons w vs) (to_list qs)) (ok-pair_inj {E = HeapError} rest).0 all

-- Freezing a function keeps its code, makes of each constant the slot that the compiler counts on,
-- and changes nothing of the machine but its heap.
pub freeze_function-Loaded :
    (locals : List ℕ) (arity : ℕ) (name : String) (c : ChunkMut) (vm vm' : Vm) (o : Object)
    → freeze_function locals (spec_function arity name c.code c.constants) vm ≡ (ok o, vm')
    → (ss : Slots) × (o ≡ function name arity c.code ss)
      × Loaded c.code (to_list ss) c
      × OnlyHeap vm vm'
unfolding freeze_function
freeze_function-Loaded locals arity name c vm vm' o e =
    let (ss, t, made, rest) = continue-ok (freeze_constants locals c.constants vm) _ o vm' e in
    (
      ss,
      sym (ok-pair_inj {E = HeapError} rest).0,
      record {
        code_at = λ i b h. h;
        constant_at = freeze_constants-AllFroze locals c.constants vm t ss made;
      },
      freeze_function-OnlyHeap locals (spec_function arity name c.code c.constants) vm vm' o e,
    )
