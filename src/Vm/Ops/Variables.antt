-- ===== src/Vm/Ops/Variables.antt =====
-- Constants, local and global variables, and the stack itself.
use brane.Prelude.{◌+◌, ◌-◌, Bool, true, false, ◌||◌, none, some, String, ok, err, if◌then◌else◌}
use brane.Prelude.Exec.{pure, ◌>>=◌, ◌>>◌}
use brane.Vm.Slot.{Slot, handle, object, string, object_data_type}
use brane.Vm.Convert.{value_type}
use brane.Vm.Stack
use brane.Vm.State.{
  Vm, Op, on_stack, with_stack, stack_read_error, frame_u8, frame_const, frame_stack_offset,
  raise_with, find, put, illegal_global_identifier_error, undefined_global_error,
}
use brane.Vm.Ops.Math.{pop_slot}

-- the stack's operations that return nothing and cannot fail but by a panic
abbrev pub run_stack : Stack.StackOp (Unit {0}) → Op (Unit {0})
run_stack op = on_stack (stack_read_error "") op

unfoldable pub op_class : Op (Unit {0})
op_class = do class ← frame_const "a class"; with_stack (Stack.push class)

unfoldable pub op_constant : Op (Unit {0})
op_constant = do constant ← frame_const "a constant"; with_stack (Stack.push constant)

unfoldable pub op_get_local : Op (Unit {0})
op_get_local = do
  index ← frame_u8 "a local variable offset"
  offset ← frame_stack_offset
  run_stack (Stack.copy_push (offset + index))

unfoldable pub op_set_local : Op (Unit {0})
op_set_local = do
  index ← frame_u8 "a local variable index"
  offset ← frame_stack_offset
  run_stack (Stack.copy_pop (offset + index))

-- the string that a constant names a global with
abbrev pub identifier_of : Slot → Op String
identifier_of (object (handle _ (string identifier))) = pure identifier
identifier_of (object (handle _ o)) =
    raise_with (object_data_type o) illegal_global_identifier_error
identifier_of s = raise_with (value_type s) illegal_global_identifier_error

abbrev pub push_global : String → Op (Unit {0})
push_global identifier vm = elim (find identifier vm.globals) [
  | none ↦ (err (undefined_global_error identifier), vm)
  | some value ↦ (ok tt, record vm { stack = Stack.push value vm.stack })
]

unfoldable pub op_get_global : Op (Unit {0})
op_get_global = do
  constant ← frame_const "a global identifier"
  identifier ← identifier_of constant
  push_global identifier

abbrev pub contains : String → Vm → Bool
contains k vm = elim (find k vm.globals) [ none ↦ false | some _ ↦ true ]

abbrev pub store_global : Bool → String → Slot → Op (Unit {0})
store_global create_if_not_exists identifier value vm =
    if create_if_not_exists || contains identifier vm
    then (ok tt, record vm { globals = put identifier value vm.globals })
    else (err (undefined_global_error identifier), vm)

-- The value is popped before the identifier is looked at.
unfoldable pub op_set_global : Bool → Op (Unit {0})
op_set_global create_if_not_exists = do
  constant ← frame_const "a global identifier"
  value ← pop_slot "a global variable value"
  identifier ← identifier_of constant
  store_global create_if_not_exists identifier value

unfoldable pub op_define_global : Op (Unit {0})
unfolding op_set_global
op_define_global = op_set_global true

unfoldable pub op_pop : Op (Unit {0})
op_pop = do pop_slot "an ignored value"; pure tt

-- More slots than there are clear the stack.
unfoldable pub op_pop_n : Op (Unit {0})
op_pop_n = do
  x ← frame_u8 "the number of stack items to pop"
  with_stack (λ s. Stack.clear_from (Stack.len s - x) s)
