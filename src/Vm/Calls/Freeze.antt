-- ===== src/Vm/Calls/Freeze.antt =====
-- `freeze` of `ChunkMut`, `FunctionMut` and `ClassMut` of brane-bvm/src/bytecode.rs: the constants of a
-- function become slots, and their objects are put on the heap.
--
-- `locals` are the handles that the code holds outside the machine: those of the constants so far.
use brane.Prelude.{ℕ, true, false, List, [], ◌∷◌, ◌++◌}
use brane.Prelude.Exec.{Exec, pure, crash, ◌>>=◌}
use brane.Heap.{HeapError}
use brane.Value.{
  Value, Values, spec_class, Methods, no_methods, method, SpecFunction, spec_function,
}
use brane.Vm.Slot.{
  Slot, Slots, Object, Props, true', false', integer, real, object, string, class, function, nil,
  cons, end, prop, address, slots_refs,
}
use brane.Vm.State.{Vm, alloc_object}

abbrev pub Freeze : Type 0 → Type 0
Freeze = Exec Vm HeapError

unfoldable mutual
  -- `ChunkMut::freeze` of one constant; a constant of another kind panics
  pub freeze_constant : List ℕ → Value → Freeze Slot
  freeze_constant locals (Value.boolean true) = pure true'
  freeze_constant locals (Value.boolean false) = pure false'
  freeze_constant locals (Value.integer i) = pure (integer i)
  freeze_constant locals (Value.real r) = pure (real r)
  freeze_constant locals (Value.function f) = do
    o ← freeze_function locals f
    h ← alloc_object locals o
    pure (object h)
  freeze_constant locals (Value.unicode s) = do h ← alloc_object locals (string s); pure (object h)
  freeze_constant locals (Value.class (spec_class name _ ms)) = do
    methods ← freeze_methods locals ms
    h ← alloc_object locals (class name methods)
    pure (object h)
  freeze_constant locals _ = crash

  -- the constants, with the handles of those before among the locals
  pub freeze_constants : List ℕ → Values → Freeze Slots
  freeze_constants locals Values.nil = pure nil
  freeze_constants locals (Values.cons v vs) = do
    s ← freeze_constant locals v
    ss ← freeze_constants (slots_refs (s ∷ []) ++ locals) vs
    pure (cons s ss)

  -- `FunctionMut::freeze`
  pub freeze_function : List ℕ → SpecFunction → Freeze Object
  freeze_function locals (spec_function arity name code constants) = do
    ss ← freeze_constants locals constants
    pure (function name arity code ss)

  -- the methods of a class, as `ClassMut::freeze` does them too
  pub freeze_methods : List ℕ → Methods → Freeze Props
  freeze_methods locals no_methods = pure end
  freeze_methods locals (method k f ms) = do
    o ← freeze_function locals f
    h ← alloc_object locals o
    ps ← freeze_methods (address h ∷ locals) ms
    pure (prop k (object h) ps)
