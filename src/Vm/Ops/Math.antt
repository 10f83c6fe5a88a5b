-- ===== src/Vm/Ops/Math.antt =====
-- Arithmetic.
use Prim.Native.String.{◌++◌ as cat}
use brane.Prelude.{ℕ, ◌-◌, ◌^◌, ◌&&◌, Option, none, some, String, [], ◌∷◌, if◌then◌else◌}
use brane.Prelude.Exec.{raise, crash, ◌>>=◌}
use brane.Prelude.Int.{ℤ, pos, negsuc, ◌+ℤ◌, ◌-ℤ◌, ◌*ℤ◌, quot_ℤ, wrap, eqb_ℤ}
use brane.Vm.Slot.{
  Slot, Handle, handle, integer, real, object, string, data_type, object_data_type, F64,
}
use brane.Vm.Convert.{value_type}
use brane.Vm.Stack
use brane.Vm.State.{
  VmError, Op, on_stack, with_stack, stack_read_error, heap_alloc, raise_with, not_addable,
  not_subtractable, not_multiplicable, not_divisible, not_negatable,
}

-- `self.stack.pop()`, with the error of the instruction
abbrev pub pop_slot : String → Op Slot
pop_slot what = on_stack (stack_read_error what) Stack.pop

-- the right operand is on top of the left one
abbrev pub operands : String → (Slot → Slot → Op (Unit {0})) → Op (Unit {0})
operands what f = do rhs ← pop_slot what; lhs ← pop_slot what; f lhs rhs

abbrev pub push_integer : ℤ → Op (Unit {0})
push_integer n = with_stack (Stack.push_integer n)

abbrev pub push_real : ℕ → Op (Unit {0})
push_real r = with_stack (Stack.push_real r)

-- an error that names two types
abbrev pub types_error : (String → String → VmError) → Option String → Option String → Op (Unit {0})
types_error f none _ = crash
types_error f (some l) none = crash
types_error f (some l) (some r) = raise (f l r)

-- two objects: strings are concatenated
abbrev pub add_objects : Handle → Handle → Op (Unit {0})
add_objects (handle a (string l)) (handle b (string r)) = do
  h ← heap_alloc "a concatenated string" (a ∷ b ∷ []) (string (cat l r))
  with_stack (Stack.push_object h)
add_objects (handle a l) (handle b r) =
    types_error not_addable (object_data_type l) (object_data_type r)

module _ (f64 : F64) where
  abbrev pub add : Slot → Slot → Op (Unit {0})
  add (integer l) (integer r) = push_integer (wrap (l +ℤ r))
  add (integer l) (real r) = push_real (f64.add (f64.of_i64 l) r)
  add (real l) (real r) = push_real (f64.add l r)
  add (real l) (integer r) = push_real (f64.add l (f64.of_i64 r))
  add (object l) (object r) = add_objects l r
  add l r = types_error not_addable (data_type l) (data_type r)

  unfoldable pub op_add : Op (Unit {0})
  op_add = operands "a numeric value or a string" add

  -- `lhs / rhs` of two `i64`
  abbrev pub divide_integers : ℤ → ℤ → Op (Unit {0})
  divide_integers l r =
      if eqb_ℤ r (pos 0)
      then crash
      else if eqb_ℤ l (negsuc (2 ^ 63 - 1)) && eqb_ℤ r (negsuc 0)
      then crash
      else push_integer (quot_ℤ l r)

  abbrev pub divide : Slot → Slot → Op (Unit {0})
  divide (integer l) (integer r) = divide_integers l r
  divide (integer l) (real r) = push_real (f64.div (f64.of_i64 l) r)
  divide (real l) (real r) = push_real (f64.div l r)
  divide (real l) (integer r) = push_real (f64.div l (f64.of_i64 r))
  divide l r = types_error not_divisible (value_type l) (value_type r)

  unfoldable pub op_divide : Op (Unit {0})
  op_divide = operands "a numeric value" divide

  abbrev pub multiply : Slot → Slot → Op (Unit {0})
  multiply (integer l) (integer r) = push_integer (wrap (l *ℤ r))
  multiply (integer l) (real r) = push_real (f64.mul (f64.of_i64 l) r)
  multiply (real l) (real r) = push_real (f64.mul l r)
  multiply (real l) (integer r) = push_real (f64.mul l (f64.of_i64 r))
  multiply l r = types_error not_multiplicable (value_type l) (value_type r)

  unfoldable pub op_multiply : Op (Unit {0})
  op_multiply = operands "a numeric value" multiply

  abbrev pub substract : Slot → Slot → Op (Unit {0})
  substract (integer l) (integer r) = push_integer (wrap (l -ℤ r))
  substract (integer l) (real r) = push_real (f64.sub (f64.of_i64 l) r)
  substract (real l) (real r) = push_real (f64.sub l r)
  substract (real l) (integer r) = push_real (f64.sub l (f64.of_i64 r))
  substract l r = types_error not_subtractable (value_type l) (value_type r)

  unfoldable pub op_substract : Op (Unit {0})
  op_substract = operands "a numeric value" substract

  abbrev pub negate : Slot → Op (Unit {0})
  negate (integer i) = with_stack (Stack.push (integer (wrap (pos 0 -ℤ i))))
  negate (real r) = with_stack (Stack.push (real (f64.neg r)))
  negate s = raise_with (data_type s) not_negatable

  unfoldable pub op_negate : Op (Unit {0})
  op_negate = do value ← pop_slot "a numeric value"; negate value
