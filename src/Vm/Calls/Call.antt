-- ===== src/Vm/Calls/Call.antt =====
-- `arguments`, `call` and `op_call` of brane-bvm/src/vm.rs.
use brane.Prelude.{
  ℕ, zero, suc, ◌+◌, ◌-◌, Option, none, some, String, List, [], ◌∷◌, length, get_elem?, reverse, ok,
  panic, ltb, if◌then◌else◌,
}
use brane.Prelude.Exec.{pure, crash, lift, gets, ◌>>=◌, ◌>>◌}
use brane.Value.{Value, Parameter}
use brane.Vm.Slot.{
  Slot, Handle, BuiltinFunction, undefined, print, wait_until_started, wait_until_done, handle,
  object, built_in, function, function_ext, as_string,
}
use brane.Vm.Convert.{into_value}
use brane.Vm.Stack
use brane.Vm.Frames
use brane.Vm.State.{
  Op, with_stack, frame_u8, wrap_err, client_tx_error, builtin_call_error, external_call_error,
  slot_create_error,
}
use brane.Vm.Ops.Math.{pop_slot}
use brane.Vm.Calls.Executor.{Executor, call as call_builtin}
use brane.Vm.Calls.Values.{from_value}

-- a slot as a value; where it is none, converting it panics
abbrev pub value_of : Slot → Op Value
value_of s = elim (into_value s) [ none ↦ crash | some v ↦ pure v ]

-- the loop of `arguments`: the topmost value first
unfoldable pub popped_values : ℕ → Op (List Value)
popped_values zero = pure []
popped_values (suc n) = do val ← pop_slot ""; v ← value_of val; vs ← popped_values n; pure (v ∷ vs)

-- Popping does not fail but by a panic, so the error of `arguments` is never returned.
unfoldable pub arguments : ℕ → Op (List Value)
unfolding popped_values
arguments arity = do vs ← popped_values arity; pure (reverse vs)

-- `stack.len() - (arity + 1)`; where that is below zero, looking at the slot panics
abbrev pub function_slot : ℕ → Op (ℕ × Slot)
function_slot arity vm =
    let frame_last = length vm.stack.inner in
    if ltb frame_last (arity + 1)
    then (panic, vm)
    else elim (get_elem? vm.stack.inner (frame_last - (arity + 1))) [
      | none ↦ (panic, vm)
      | some slot ↦ (ok (frame_last - (arity + 1), slot), vm)
    ]

-- Position 0 is the main function, which is never the root of a call frame.
abbrev pub push_frame : Handle → ℕ → Op (Unit {0})
push_frame f frame_first vm = (
  ok tt,
  record vm { frames = Frames.new f (elim frame_first [ zero ↦ 1 | suc n ↦ suc n ]) ∷ vm.frames },
)

module _ (executor : Executor) where
  -- what `call` does with the function slot that it finds
  abbrev pub call_slot : ℕ × Slot → Op (Unit {0})
  call_slot (frame_first, object (handle a (function name arity code constants))) = do
    wrap_err client_tx_error (lift executor.debug)
    push_frame (handle a (function name arity code constants)) frame_first
  call_slot _ = crash

  unfoldable pub call : ℕ → Op (Unit {0})
  unfolding Frames.new
  call arity = do found ← function_slot arity; call_slot found

-- the location of the `on` block around, which is a string
abbrev pub location_of : List Handle → Op (Option String)
location_of [] = pure none
location_of (handle _ o ∷ hs) = elim (as_string o) [ none ↦ crash | some s ↦ pure (some s) ]

-- the parameters of an external function with the arguments, as far as both go
abbrev pub zip_arguments : List Parameter → List Value → List (String × Value)
zip_arguments [] vs = []
zip_arguments (p ∷ ps) [] = []
zip_arguments (p ∷ ps) (v ∷ vs) = (p.name, v) ∷ zip_arguments ps vs

-- `Display` of a builtin function, as it stands in errors
abbrev pub builtin_text : BuiltinFunction → String
builtin_text undefined = "<undefined>"
builtin_text print = "print [raw: 1]"
builtin_text wait_until_started = "wait_until_started [raw: 2]"
builtin_text wait_until_done = "wait_until_done [raw: 3]"

-- the value of a call takes the place of the function
unfoldable pub push_value : Value → Op (Unit {0})
unfolding from_value
push_value value = do
  pop_slot ""
  globals ← gets (λ vm. vm.globals)
  s ← wrap_err (slot_create_error "the result of a function call") (from_value globals [] value)
  with_stack (Stack.push s)

module _ (executor : Executor) where
  abbrev pub call_callable : ℕ → Option String → Slot → Op (Unit {0})
  call_callable arity location (built_in code) = do
    vs ← arguments arity
    value ← wrap_err (builtin_call_error code) (lift (call_builtin executor code vs))
    push_value value
  call_callable arity location (object (handle a (function _ _ _ _))) = call executor arity
  call_callable arity location (object (handle a (function_ext f))) = do
    vs ← arguments arity
    value ←
        wrap_err (external_call_error f.name)
          (lift (executor.call f (zip_arguments f.parameters vs) location))
    push_value value
  call_callable arity location _ = crash

  unfoldable pub op_call : Op (Unit {0})
  unfolding arguments call push_value
  op_call = do
    arity ← frame_u8 "a function arity"
    (_, slot) ← function_slot arity
    locations ← gets (λ vm. vm.locations)
    location ← location_of locations
    call_callable arity location slot
