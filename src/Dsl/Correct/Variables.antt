-- ===== src/Dsl/Correct/Variables.antt =====
-- Where the machine keeps what the names of an expression denote, and the instructions that read
-- constants and variables.
use brane.Prelude.{
  ℕ, suc, ◌+◌, ◌<◌, ◌≡◌, refl, Option, none, some, String, List, [], ◌∷◌, ◌++◌, get_elem?,
  get_elem?-append_some, ok, arith,
}
use brane.Vm.Slot
use brane.Vm.Slot.{Slot, F64, true', false', integer, to_list}
use brane.Vm.Stack
use brane.Vm.Frames.{read_constant}
use brane.Vm.State.{find, frame_const, frame_stack_offset}
use brane.Vm.Ops.Variables.{op_constant as vm_constant, op_get_local, op_get_global, push_global}
use brane.Dsl.Generator.Writer.{Local, position}
use brane.Dsl.Correct.Semantics.{Datum}
use brane.Dsl.Correct.Machine.{Frame, at, frame_u8-at}
use brane.Dsl.Correct.Operators.{Shows}

-- Where a name is kept: a local in the slot that the compiler counts on, any other name among the
-- globals; and the slot shows the name's datum.
abbrev pub Kept : Frame → List Slot → Option ℕ → String → Datum → Type 0
Kept m s (some i) name d =
    (i < 256) × (x : Slot) × (get_elem? s (m.stack_offset + i) ≡ some x) × Shows x d
Kept m s none name d = (x : Slot) × (find name m.vm.globals ≡ some x) × Shows x d

-- the machine keeps everything that the environment names
abbrev pub Agrees : (String → Option Datum) → List Local → Frame → List Slot → Type 0
Agrees env locals m s =
    (name : String) (d : Datum) → env name ≡ some d → Kept m s (position name locals) name d

pub Kept-push :
    (m : Frame) (s : List Slot) (x : Slot) (p : Option ℕ) (name : String) (d : Datum)
    → Kept m s p name d
    → Kept m (s ++ x ∷ []) p name d
Kept-push m s x (some i) name d (h, y, e, shows) =
    (h, y, get_elem?-append_some s (x ∷ []) _ e, shows)
Kept-push m s x none name d h = h

pub frame_const-at :
    (what : String) (m : Frame) (a i : ℕ) (s : List Slot) (x : Slot)
    → get_elem? m.code a ≡ some i
    → get_elem? (to_list m.constants) i ≡ some x
    → frame_const what (at m a s) ≡ (ok x, at m (suc a) s)
unfolding frame_const read_constant
frame_const-at what m a i s x h k = ground arith

pub vm_constant-at :
    (m : Frame) (a i : ℕ) (s : List Slot) (x : Slot)
    → get_elem? m.code a ≡ some i
    → get_elem? (to_list m.constants) i ≡ some x
    → vm_constant (at m a s) ≡ (ok tt, at m (suc a) (s ++ x ∷ []))
unfolding vm_constant Stack.push
vm_constant-at m a i s x h k = let e = frame_const-at "a constant" m a i s x h k in rw e refl

pub get_local-at :
    (m : Frame) (a i : ℕ) (s : List Slot) (x : Slot)
    → get_elem? m.code a ≡ some i
    → get_elem? s (m.stack_offset + i) ≡ some x
    → op_get_local (at m a s) ≡ (ok tt, at m (suc a) (s ++ x ∷ []))
unfolding op_get_local frame_stack_offset Stack.copy_push
get_local-at m a i s x h k =
    let e = frame_u8-at "a local variable offset" m a i s h in rw (e, k) refl

pub push_global-at :
    (m : Frame) (a : ℕ) (name : String) (s : List Slot) (x : Slot)
    → find name m.vm.globals ≡ some x
    → push_global name (at m a s) ≡ (ok tt, at m a (s ++ x ∷ []))
unfolding Stack.push
push_global-at m a name s x found = rw (push_global, found) refl

pub get_global-at :
    (m : Frame) (a i n : ℕ) (name : String) (s : List Slot) (x : Slot)
    → get_elem? m.code a ≡ some i
    → get_elem? (to_list m.constants) i
      ≡ some (Slot.object (Slot.Handle.handle n (Slot.Object.string name)))
    → find name m.vm.globals ≡ some x
    → op_get_global (at m a s) ≡ (ok tt, at m (suc a) (s ++ x ∷ []))
unfolding op_get_global Stack.push
get_global-at m a i n name s x h k found =
    let e = frame_const-at "a global identifier" m a i s _ h k in
    rw e (push_global-at m (suc a) name s x found)
