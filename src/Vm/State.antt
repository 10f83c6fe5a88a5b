-- ===== src/Vm/State.antt =====
-- `Vm` and `VmError` of brane-bvm/src/vm.rs, and how an instruction reads the frame and the stack.
--
-- The first of `frames` and of `locations` is the last of the source's vector. An instruction
-- that fails leaves the state as it was when it failed.
use brane.Prelude.{
  ℕ, Bool, Option, none, some, String, List, [], ◌∷◌, ◌++◌, ok, err, panic, map_err, str_eq,
  if◌then◌else◌,
}
use brane.Prelude.Exec.{Exec, raise, crash}
use brane.Heap.{Heap, HeapError, alloc}
use brane.Value.{Value}
use brane.Vm.Slot.{BuiltinFunction, Slot, Handle, Object, handle, slots_refs, object_refs, address}
use brane.Vm.Stack.{Stack, StackOp, StackError}
use brane.Vm.Frames.{CallFrame, CallFrameError, FrameOp, read_u8, read_u16, read_constant}

-- `BuiltinError` of brane-bvm/src/builtins.rs; an error of the executor is its text
pub data BuiltinError : Type 0 where
  stdout_error : String → String → BuiltinError
  unknown_opcode : ℕ → BuiltinError
  invalid_instance_error : BuiltinFunction → BuiltinError
  schedule_error : BuiltinFunction → String → String → BuiltinError
  not_enough_arguments_error too_many_arguments_error : BuiltinFunction → ℕ → ℕ → BuiltinError

pub data VmError : Type 0 where
  not_negatable illegal_index_error illegal_dot_error method_dot_error illegal_property_error :
      String → VmError
  illegal_new_error illegal_global_identifier_error undefined_global_error illegal_service_method :
      String → VmError
  not_comparable not_addable not_subtractable not_multiplicable not_divisible :
      String → String → VmError
  undefined_property_error undefined_method_error : String → String → VmError
  illegal_return_error : VmError
  undefined_opcode_error : ℕ → VmError
  array_arity_error : ℕ → ℕ → VmError
  array_out_of_bounds_error : ℕ → ℕ → VmError
  class_arity_error : String → ℕ → ℕ → VmError
  call_frame_8bit_error call_frame_16bit_error call_frame_const_error :
      String → CallFrameError → VmError
  stack_read_error : String → StackError → VmError
  heap_alloc_error : String → HeapError → VmError
  illegal_import_error undefined_import_error client_tx_error : String → VmError
  package_without_digest duplicate_function_import duplicate_type_import : String → String → VmError
  function_arity_error : String → ℕ → ℕ → VmError
  builtin_call_error : BuiltinFunction → BuiltinError → VmError
  external_call_error : String → String → VmError
  heap_freeze_error builtin_register_error : String → HeapError → VmError
  -- `SlotCreateError` and `BranchResultError`, around the error of the slot
  slot_create_error : String → VmError → VmError
  branch_result_error : Value → VmError → VmError
  -- `ObjectError::ArrayError`: the elements and the two types
  object_error : List Slot → String → String → VmError

pub record VmOptions : Type 0 where
  pub clear_after_main : Bool
  pub global_return_halts : Bool

abbrev pub Globals : Type 0
Globals = List (String × Slot)

pub record Vm : Type 0 where
  pub frames : List CallFrame
  pub globals : Globals
  pub heap : Heap Object
  pub locations : List Handle
  pub options : VmOptions
  pub stack : Stack

abbrev pub Op : Type 0 → Type 0
Op = Exec Vm VmError

-- `globals.get` and `globals.insert`
unfoldable pub find : String → Globals → Option Slot
find k [] = none
find k ((j, s) ∷ m) = if str_eq j k then some s else find k m

unfoldable pub put : String → Slot → Globals → Globals
put k s [] = (k, s) ∷ []
put k s ((j, t) ∷ m) = if str_eq j k then (k, s) ∷ m else (j, t) ∷ put k s m

-- an operation of the stack, without and with an error to wrap
abbrev pub on_stack : {A : Type 0} → (StackError → VmError) → StackOp A → Op A
on_stack f op vm = let (r, s) = op vm.stack in (map_err f r, record vm { stack = s })

abbrev pub with_stack : (Stack → Stack) → Op (Unit {0})
with_stack f vm = (ok tt, record vm { stack = f vm.stack })

-- The last frame; a machine without frames panics.
abbrev pub on_frame : {A : Type 0} → (CallFrameError → VmError) → FrameOp A → Op A
on_frame f op vm = elim vm.frames [
  | [] ↦ (panic, vm)
  | frame ∷ frames ↦
      let (r, frame') = op frame in (map_err f r, record vm { frames = frame' ∷ frames })
]

unfoldable pub frame_u8 : String → Op ℕ
frame_u8 what = on_frame (call_frame_8bit_error what) read_u8

unfoldable pub frame_u16 : String → Op ℕ
frame_u16 what = on_frame (call_frame_16bit_error what) read_u16

unfoldable pub frame_const : String → Op Slot
frame_const what = on_frame (call_frame_const_error what) read_constant

unfoldable pub frame_stack_offset : Op ℕ
frame_stack_offset vm = elim vm.frames [
  | [] ↦ (panic, vm)
  | frame ∷ _ ↦ (ok frame.stack_offset, vm)
]

-- the instruction pointer of the last frame
abbrev pub with_ip : (ℕ → ℕ) → Op (Unit {0})
with_ip f vm = elim vm.frames [
  | [] ↦ (panic, vm)
  | frame ∷ frames ↦ (ok tt, record vm { frames = record frame { ip = f frame.ip } ∷ frames })
]

-- the handles that the machine holds outside its heap
abbrev pub frames_refs : List CallFrame → List ℕ
frames_refs [] = []
frames_refs (f ∷ fs) = address f.function ∷ frames_refs fs

abbrev pub globals_refs : Globals → List ℕ
globals_refs [] = []
globals_refs ((_, s) ∷ m) = slots_refs (s ∷ []) ++ globals_refs m

abbrev pub handles_refs : List Handle → List ℕ
handles_refs [] = []
handles_refs (h ∷ hs) = address h ∷ handles_refs hs

unfoldable pub held : Vm → List ℕ
held vm =
    slots_refs vm.stack.inner
    ++ (globals_refs vm.globals ++ (frames_refs vm.frames ++ handles_refs vm.locations))

-- an error that names the type of a slot or an object; making it may panic
abbrev pub raise_with : {A : Type 0} → Option String → (String → VmError) → Op A
raise_with none f = crash
raise_with (some t) f = raise (f t)

-- `Heap::alloc`, with its own error
unfoldable pub alloc_object : List ℕ → Object → Exec Vm HeapError Handle
unfolding held
alloc_object locals o vm = elim (alloc object_refs (locals ++ held vm) o vm.heap) [
  | ok (cell, heap) ↦ (ok (handle cell.0 cell.1), record vm { heap = heap })
  | err e ↦ (err e, vm)
  | panic ↦ (panic, vm)
]

-- an operation with its error wrapped
abbrev pub wrap_err : {E F A : Type 0} → (E → F) → Exec Vm E A → Exec Vm F A
wrap_err f op vm = let (r, vm') = op vm in (map_err f r, vm')

-- `self.heap.alloc`, where the instruction holds the handles `locals` besides
unfoldable pub heap_alloc : String → List ℕ → Object → Op Handle
unfolding alloc_object
heap_alloc what locals o = wrap_err (heap_alloc_error what) (alloc_object locals o)
