-- ===== src/Vm/Ops/Returns.antt =====
-- What a return leaves to the caller.
use brane.Prelude.{
  suc, ◌≡◌, refl, arith, Bool, false, List, [], ◌∷◌, ◌++◌, length, take-append, append_assoc,
  split_last-append, ok, ◌==◌,
}
use brane.Vm.Slot.{Slot}
use brane.Vm.Stack
use brane.Vm.Stack.{Stack}
use brane.Vm.Frames.{CallFrame}
use brane.Vm.State.{Vm}
use brane.Vm.Ops.Control.{op_return, returned}

-- what a return leaves of the stack
pub returned-append :
    (below locals : List Slot) (x : Slot) (use_const : Bool)
    → returned
        (length below)
        (record { inner = below ++ (locals ++ x ∷ []); use_const = use_const })
      ≡ record { inner = below ++ x ∷ []; use_const = use_const }
unfolding Stack.try_pop Stack.try_push Stack.clear_from
returned-append below locals x use_const = rw (← append_assoc below locals (x ∷ [])) (
    let e = split_last-append (below ++ locals) x in
    rw (returned, Stack.try_pop, e, e) (rw (take-append below locals) refl))

-- A function that returns into another frame takes its own slots off the stack, locals and operands,
-- and leaves the slot on top to its caller, whose stack is otherwise as it was.
pub op_return-caller :
    (vm : Vm) (frame caller : CallFrame) (frames : List CallFrame) (below locals : List Slot)
    (x : Slot) (use_const : Bool)
    → frame.stack_offset ≡ length below
    → op_return (record vm {
      frames = frame ∷ caller ∷ frames;
      stack = record { inner = below ++ (locals ++ x ∷ []); use_const = use_const };
    })
      ≡ (
        ok tt,
        record vm {
          frames = caller ∷ frames;
          stack = record { inner = below ++ x ∷ []; use_const = use_const };
        },
      )
unfolding op_return
op_return-caller vm frame caller frames below locals x use_const o =
    let deep : (suc (suc (length frames)) == 1) ≡ false = ground arith in
    rw deep (rw o (rw (returned-append below locals x use_const) refl))
