-- ===== src/Vm/Ops/Control.antt =====
-- Jumps, locations and the return.
use brane.Prelude.{
  ℕ, ◌+◌, ◌-◌, ◌^◌, not, ◌&&◌, [], ◌∷◌, length, ok, err, panic, ltb, ◌==◌, if◌then◌else◌,
}
use brane.Prelude.Exec.{◌>>=◌}
use brane.Vm.Slot.{Slot, object}
use brane.Vm.Stack
use brane.Vm.State.{Op, on_stack, with_ip, stack_read_error, frame_u16, illegal_return_error}

unfoldable pub op_jump : Op (Unit {0})
op_jump = do offset ← frame_u16 "a jump offset"; with_ip (λ ip. ip + offset)

-- `ip -= offset` at `usize` wraps around below zero, and then lies behind any code.
abbrev pub usize_sub : ℕ → ℕ → ℕ
usize_sub a b = if ltb a b then a + 2 ^ 64 - b else a - b

unfoldable pub op_jump_back : Op (Unit {0})
op_jump_back = do
  offset ← frame_u16 "a (backwards) jump offset"
  with_ip (λ ip. usize_sub ip offset)

-- The boolean stays on the stack.
unfoldable pub op_jump_if_false : Op (Unit {0})
unfolding op_jump
op_jump_if_false = do
  truthy ← on_stack (stack_read_error "a jump value") Stack.peek_boolean
  if not truthy then op_jump else with_ip (λ ip. ip + 2)

unfoldable pub op_loc : Op (Unit {0})
op_loc vm = elim vm.locations [
  | [] ↦ (ok tt, record vm { stack = Stack.push Slot.unit vm.stack })
  | h ∷ hs ↦ (ok tt, record vm { locations = hs; stack = Stack.push (object h) vm.stack })
]

unfoldable pub op_loc_pop : Op (Unit {0})
op_loc_pop vm = elim vm.locations [
  | [] ↦ (ok tt, vm)
  | h ∷ hs ↦ (ok tt, record vm { locations = hs })
]

unfoldable pub op_loc_push : Op (Unit {0})
op_loc_push = do
  location ← on_stack (stack_read_error "a location object") Stack.pop_object
  λ vm. (ok tt, record vm { locations = location ∷ vm.locations })

-- the stack of the caller: what stood below the frame, and the value on top, if there is one
abbrev pub returned : ℕ → Stack.Stack → Stack.Stack
returned stack_offset s =
    let (top, rest) = Stack.try_pop s in
    elim top [
      | ok return_value ↦ Stack.try_push return_value (Stack.clear_from stack_offset rest)
      | err _ ↦ rest
      | panic ↦ rest
    ]

unfoldable pub op_return : Op (Unit {0})
op_return vm =
    if (length vm.frames == 1) && not vm.options.global_return_halts
    then (err illegal_return_error, vm)
    else elim vm.frames [
      | [] ↦ (ok tt, vm)
      | frame ∷ frames ↦
          (ok tt, record vm { frames = frames; stack = returned frame.stack_offset vm.stack })
    ]
