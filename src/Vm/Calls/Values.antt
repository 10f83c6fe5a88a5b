-- ===== src/Vm/Calls/Values.antt =====
-- `Slot::from_value` of brane-bvm/src/stack.rs. The errors are those of the machine: a `StackError`
-- that says which allocation failed is `heap_alloc_error` here.
use brane.Prelude.{ℕ, true, false, none, some, String, List, [], ◌∷◌, ◌++◌}
use brane.Prelude.Exec.{pure, crash, ◌>>=◌}
use brane.Value.{Value, Values, Fields, spec_class}
use brane.Vm.Slot.{
  Slot, Slots, Handle, Props, true', false', unit, integer, real, object, string, class,
  function_ext, instance', nil, cons, end, prop, slots_refs, to_list,
}
use brane.Vm.State.{Op, Globals, find, heap_alloc, heap_freeze_error, wrap_err}
use brane.Vm.Ops.Objects.{new_array}
use brane.Vm.Calls.Freeze.{freeze_methods}

-- the class of a structure: a global that has to be there, and an object
abbrev pub class_of : String → Globals → Op Handle
class_of data_type globals = elim (find data_type globals) [
  | none ↦ crash
  | some slot ↦ elim slot [ object h ↦ pure h | _ ↦ crash ]
]

unfoldable mutual
  pub from_value : Globals → List ℕ → Value → Op Slot
  from_value globals locals (Value.unicode s) = do
    h ← heap_alloc "a String" locals (string s)
    pure (object h)
  from_value globals locals (Value.boolean false) = pure false'
  from_value globals locals (Value.boolean true) = pure true'
  from_value globals locals (Value.integer i) = pure (integer i)
  from_value globals locals (Value.real r) = pure (real r)
  from_value globals locals Value.unit = pure unit
  from_value globals locals (Value.function_ext f) = do
    h ← heap_alloc "an external Function (FunctionExt)" locals (function_ext f)
    pure (object h)
  from_value globals locals (Value.class (spec_class name _ ms)) = do
    methods ← wrap_err (heap_freeze_error "a Class") (freeze_methods locals ms)
    h ← heap_alloc "a Class" locals (class name methods)
    pure (object h)
  from_value globals locals (Value.struct data_type properties) = do
    ps ← from_fields globals locals properties
    c ← class_of data_type globals
    h ← heap_alloc "an Instance of a Struct" locals (instance' c ps)
    pure (object h)
  from_value globals locals (Value.array _ entries) = do
    new_entries ← from_values globals locals entries
    o ← new_array (to_list new_entries)
    h ← heap_alloc "an Array" locals o
    pure (object h)
  from_value globals locals _ = crash

  pub from_values : Globals → List ℕ → Values → Op Slots
  from_values globals locals Values.nil = pure nil
  from_values globals locals (Values.cons v vs) = do
    s ← from_value globals locals v
    ss ← from_values globals (slots_refs (s ∷ []) ++ locals) vs
    pure (cons s ss)

  pub from_fields : Globals → List ℕ → Fields → Op Props
  from_fields globals locals Fields.end = pure end
  from_fields globals locals (Fields.field k v fs) = do
    s ← from_value globals locals v
    ps ← from_fields globals (slots_refs (s ∷ []) ++ locals) fs
    pure (prop k s ps)
