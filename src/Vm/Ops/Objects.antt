-- ===== src/Vm/Ops/Objects.antt =====
-- Arrays, instances and their parts.
use brane.Prelude.{
  ℕ, zero, suc, none, some, String, List, [], ◌∷◌, length, get_elem?, reverse, str_eq,
  if◌then◌else◌,
}
use brane.Prelude.Exec.{pure, raise, crash, ◌>>=◌, ◌>>◌}
use brane.Prelude.Int.{ℤ, to_bits}
use brane.Vm.Slot.{
  Slot, Handle, Object, Props, handle, built_in, object, array, class, instance', string, end,
  to_list, from_list, find, put, as_class, object_data_type, wait_until_started, wait_until_done,
}
use brane.Vm.Convert.{value_type}
use brane.Vm.Stack
use brane.Vm.State.{
  VmError, Op, on_stack, with_stack, stack_read_error, frame_u8, frame_const, heap_alloc,
  raise_with, object_error, illegal_index_error, array_out_of_bounds_error, illegal_new_error,
  illegal_property_error, illegal_dot_error, undefined_property_error, method_dot_error,
  illegal_service_method, undefined_method_error,
}
use brane.Vm.Ops.Math.{pop_slot}

-- the loop of `Array::new` in brane-bvm/src/objects.rs, over the elements that are left
unfoldable pub element_type : List Slot → String → List Slot → Op String
element_type elements subtype [] = pure subtype
element_type elements subtype (elem ∷ rest) =
    let next = λ (t : String). element_type elements t rest in
    elim (value_type elem) [
      | none ↦ crash
      | some elemtype ↦
          (if str_eq subtype ""
            then next elemtype
            else if str_eq elemtype subtype
            then next subtype
            else raise (object_error elements subtype elemtype))
    ]

-- `Array::new`; the error is wrapped as the instructions wrap it
unfoldable pub new_array : List Slot → Op Object
new_array elements = do
  t ← element_type elements "unit" elements
  pure (array t (from_list elements))

-- the values of `n` pops, the top first
unfoldable pub pop_slots : ℕ → Op (List Slot)
pop_slots zero = pure []
pop_slots (suc n) = do val ← pop_slot ""; rest ← pop_slots n; pure (val ∷ rest)

unfoldable pub op_array : Op (Unit {0})
op_array = do
  n ← frame_u8 "the number of elements in an Array"
  elements ← pop_slots n
  o ← new_array (reverse elements)
  h ← heap_alloc "a new array" [] o
  with_stack (Stack.push (object h))

abbrev pub elements_of : Handle → Op (List Slot)
elements_of (handle _ (array _ elements)) = pure (to_list elements)
elements_of (handle _ o) = raise_with (object_data_type o) illegal_index_error

-- `index as usize` is the index's bit pattern.
abbrev pub push_element : List Slot → ℤ → Op (Unit {0})
push_element elements index = elim (get_elem? elements (to_bits index)) [
  | none ↦ raise (array_out_of_bounds_error (to_bits index) (length elements))
  | some element ↦ with_stack (Stack.push element)
]

unfoldable pub op_index : Op (Unit {0})
unfolding to_bits
op_index = do
  index ← on_stack (stack_read_error "an array index") Stack.pop_integer
  array_handle ← on_stack (stack_read_error "an array handle") Stack.pop_object
  elements ← elements_of array_handle
  push_element elements index

abbrev pub class_name_of : Handle → Op String
class_name_of (handle _ (class name _)) = pure name
class_name_of (handle _ o) = raise_with (object_data_type o) illegal_new_error

-- `as_object`, with an error that names the type of the value
abbrev pub handle_or : (String → VmError) → Slot → Op Handle
handle_or f (object h) = pure h
handle_or f s = raise_with (value_type s) f

-- the string behind a handle, with an error that names the type of the object
abbrev pub string_or : (String → VmError) → Handle → Op String
string_or f (handle _ (string s)) = pure s
string_or f (handle _ o) = raise_with (object_data_type o) f

-- `n` names and values; the name is above its value
unfoldable pub pop_properties : ℕ → Props → Op Props
pop_properties zero properties = pure properties
pop_properties (suc n) properties = do
  key ← pop_slot ""
  key_handle ← handle_or illegal_property_error key
  val ← pop_slot "a property value"
  name ← string_or illegal_property_error key_handle
  pop_properties n (put name val properties)

unfoldable pub op_new : Op (Unit {0})
op_new = do
  properties_n ← frame_u8 "the number of properties"
  class_handle ← on_stack (stack_read_error "a class") Stack.pop_object
  c_name ← class_name_of class_handle
  properties ← pop_properties properties_n end
  h ← heap_alloc c_name [] (instance' class_handle properties)
  with_stack (Stack.push_object h)

-- the class and the properties of an instance
abbrev pub instance_or : (String → VmError) → Handle → Op (Handle × Props)
instance_or f (handle _ (instance' c properties)) = pure (c, properties)
instance_or f (handle _ o) = raise_with (object_data_type o) f

-- the property of a name; the error names the class of the instance
abbrev pub push_property : Handle → Props → String → Op (Unit {0})
push_property (handle _ c) properties property = elim (find property properties) [
  | none ↦ raise_with (as_class c) (λ name. undefined_property_error name property)
  | some value ↦ with_stack (Stack.push value)
]

-- `op_dot` and `op_get_property` do the same.
abbrev pub access_property : String → Op (Unit {0})
access_property what = do
  slot ← pop_slot "an instance"
  h ← handle_or illegal_dot_error slot
  constant ← frame_const what
  p ← handle_or illegal_property_error constant
  (c, properties) ← instance_or illegal_dot_error h
  property ← string_or illegal_property_error p
  push_property c properties property

unfoldable pub op_dot : Op (Unit {0})
op_dot = access_property "a property"

unfoldable pub op_get_property : Op (Unit {0})
op_get_property = access_property "an instance property"

-- a method of a class; those of the class "Service" are built in
abbrev pub method_of : Handle → String → Op Slot
method_of (handle _ (class name methods)) method =
    if str_eq name "Service"
    then (if str_eq method "waitUntilStarted"
        then pure (built_in wait_until_started)
        else if str_eq method "waitUntilDone"
        then pure (built_in wait_until_done)
        else raise (illegal_service_method method))
    else elim (find method methods) [
      | none ↦ raise (undefined_method_error name method)
      | some m ↦ pure m
    ]
method_of (handle _ _) method = crash

unfoldable pub op_get_method : Op (Unit {0})
op_get_method = do
  instance_slot ← pop_slot "an instance"
  h ← handle_or method_dot_error instance_slot
  constant ← frame_const "a method name"
  m ← handle_or illegal_property_error constant
  (c, _) ← instance_or method_dot_error h
  name ← string_or illegal_property_error m
  method ← method_of c name
  with_stack (Stack.push method)
  with_stack (Stack.push instance_slot)
