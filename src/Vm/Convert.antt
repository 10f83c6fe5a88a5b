-- ===== src/Vm/Convert.antt =====
-- Slots as values: `Slot::into_value` of brane-bvm/src/stack.rs, with `unfreeze` of
-- brane-bvm/src/objects.rs and brane-bvm/src/bytecode.rs. `none` is a panic: a function is no
-- value, a class's methods are functions, and an instance has a class behind it.
use brane.Prelude.{true, false, Option, none, some, String, []}
use brane.Prelude.Options.{◌>>=◌}
use brane.Prelude.Int.{pos, negsuc}
use brane.Value
use brane.Value.{
  Value, Values, Fields, SpecClass, spec_class, Methods, no_methods, method, SpecFunction,
  spec_function,
}
use brane.Vm.Slot.{
  Slot, Handle, Object, Slots, Props, built_in, const_minus_one, const_minus_two, const_one,
  const_two, const_zero, false', true', unit, integer, real, object, handle, array, class, function,
  function_ext, instance', string, nil, cons, end, prop, as_class,
}

unfoldable mutual
  pub into_value : Slot → Option Value
  into_value (built_in _) = some Value.unit
  into_value const_minus_one = some (Value.integer (negsuc 0))
  into_value const_minus_two = some (Value.integer (negsuc 1))
  into_value const_one = some (Value.integer (pos 1))
  into_value const_two = some (Value.integer (pos 2))
  into_value const_zero = some (Value.integer (pos 0))
  into_value false' = some (Value.boolean false)
  into_value (integer i) = some (Value.integer i)
  into_value (real r) = some (Value.real r)
  into_value true' = some (Value.boolean true)
  into_value unit = some Value.unit
  into_value (object h) = handle_value h

  pub handle_value : Handle → Option Value
  handle_value (handle _ o) = object_value o

  pub object_value : Object → Option Value
  object_value (array t elements) = do entries ← values_of elements; some (Value.array t entries)
  object_value (class name methods) = do
    ms ← unfreeze_methods methods
    some (Value.class (spec_class name [] ms))
  object_value (function _ _ _ _) = none
  object_value (function_ext f) = some (Value.function_ext f)
  object_value (instance' (handle _ c) ps) = do
    name ← as_class c
    fields ← fields_of ps
    some (Value.struct name fields)
  object_value (string s) = some (Value.unicode s)

  pub values_of : Slots → Option Values
  values_of nil = some Values.nil
  values_of (cons s ss) = do v ← into_value s; vs ← values_of ss; some (Values.cons v vs)

  pub fields_of : Props → Option Fields
  fields_of end = some Fields.end
  fields_of (prop k s ps) = do v ← into_value s; fs ← fields_of ps; some (Fields.field k v fs)

  -- `Class::unfreeze`
  pub unfreeze_methods : Props → Option Methods
  unfreeze_methods end = some no_methods
  unfreeze_methods (prop k s ps) = do f ← unfreeze s; ms ← unfreeze_methods ps; some (method k f ms)

  -- a method: the function behind the slot's handle, unfrozen
  pub unfreeze : Slot → Option SpecFunction
  unfreeze (object h) = unfreeze_handle h
  unfreeze _ = none

  pub unfreeze_handle : Handle → Option SpecFunction
  unfreeze_handle (handle _ o) = unfreeze_object o

  -- `Function::unfreeze` and `Chunk::unfreeze`
  pub unfreeze_object : Object → Option SpecFunction
  unfreeze_object (function name arity code constants) = do
    vs ← values_of constants
    some (spec_function arity name code vs)
  unfreeze_object _ = none

-- `into_value().data_type()`
unfoldable pub value_type : Slot → Option String
unfolding into_value Value.data_type
value_type s = do v ← into_value s; some (Value.data_type v)
