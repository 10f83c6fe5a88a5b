-- ===== src/Vm/Ops/Logic.antt =====
-- Logic and comparison.
use brane.Prelude.{Bool, not, ◌&&◌, ◌||◌, String}
use brane.Prelude.Exec.{◌>>=◌}
use brane.Prelude.Int.{ltb_ℤ}
use brane.Vm.Slot.{Slot, integer, real, data_type, eq, F64, is_less, is_greater}
use brane.Vm.Stack
use brane.Vm.State.{Op, on_stack, with_stack, stack_read_error, not_comparable}
use brane.Vm.Ops.Math.{operands, types_error}

abbrev pub pop_boolean : String → Op Bool
pop_boolean what = on_stack (stack_read_error what) Stack.pop_boolean

abbrev pub push_boolean : Bool → Op (Unit {0})
push_boolean b = with_stack (Stack.push_boolean b)

unfoldable pub op_and : Op (Unit {0})
op_and = do
  rhs ← pop_boolean "a boolean value"
  lhs ← pop_boolean "a boolean value"
  push_boolean (lhs && rhs)

unfoldable pub op_or : Op (Unit {0})
op_or = do rhs ← pop_boolean "a boolean"; lhs ← pop_boolean "a boolean"; push_boolean (lhs || rhs)

unfoldable pub op_not : Op (Unit {0})
op_not = do value ← pop_boolean "a boolean"; push_boolean (not value)

unfoldable pub op_false : Op (Unit {0})
op_false = with_stack (Stack.push Slot.false')

unfoldable pub op_true : Op (Unit {0})
op_true = with_stack (Stack.push Slot.true')

unfoldable pub op_unit : Op (Unit {0})
op_unit = with_stack (Stack.push Slot.unit)

module _ (f64 : F64) where
  unfoldable pub op_equal : Op (Unit {0})
  op_equal = operands "anything" (λ lhs rhs. push_boolean (eq f64 lhs rhs))

  -- `match (rhs, lhs)`: the right operand is compared with the left one
  abbrev pub greater : Slot → Slot → Op (Unit {0})
  greater (integer rhs) (integer lhs) = push_boolean (ltb_ℤ lhs rhs)
  greater (integer rhs) (real lhs) =
      push_boolean (is_greater (f64.partial_cmp (f64.of_i64 rhs) lhs))
  greater (real rhs) (integer lhs) =
      push_boolean (is_greater (f64.partial_cmp rhs (f64.of_i64 lhs)))
  greater (real rhs) (real lhs) = push_boolean (is_greater (f64.partial_cmp rhs lhs))
  greater rhs lhs = types_error not_comparable (data_type lhs) (data_type rhs)

  unfoldable pub op_greater : Op (Unit {0})
  op_greater = operands "a numeric value" (λ lhs rhs. greater rhs lhs)

  abbrev pub less : Slot → Slot → Op (Unit {0})
  less (integer rhs) (integer lhs) = push_boolean (ltb_ℤ rhs lhs)
  less (integer rhs) (real lhs) = push_boolean (is_less (f64.partial_cmp (f64.of_i64 rhs) lhs))
  less (real rhs) (integer lhs) = push_boolean (is_less (f64.partial_cmp rhs (f64.of_i64 lhs)))
  less (real rhs) (real lhs) = push_boolean (is_less (f64.partial_cmp rhs lhs))
  less rhs lhs = types_error not_comparable (data_type lhs) (data_type rhs)

  unfoldable pub op_less : Op (Unit {0})
  op_less = operands "a numeric value" (λ lhs rhs. less rhs lhs)
