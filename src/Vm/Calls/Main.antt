-- ===== src/Vm/Calls/Main.antt =====
-- How a machine of brane-bvm/src/vm.rs is made and started: `new_with_state`, `new`, `get_globals`,
-- `main` and `anonymous`, with `register` of brane-bvm/src/builtins.rs.
--
-- A start takes a number of rounds for the loop; where they do not suffice, it answers `none` and
-- leaves the machine where it was.
use brane.Prelude.{
  ℕ, zero, suc, Bool, true, false, not, ◌&&◌, Option, none, some, String, List, [], ◌∷◌, length,
  Outcome, ok, err, panic, ◌==◌, if◌then◌else◌,
}
use brane.Prelude.Exec.{pure, crash, lift, gets, ◌>>=◌, ◌>>◌}
use brane.Heap
use brane.Value.{Value, SpecFunction, spec_function}
use brane.Bytecode.Opcodes.{Opcode}
use brane.Bytecode.Chunk.{FunctionMut, to_spec}
use brane.Packages.{PackageIndex}
use brane.Vm.Slot.{Slot, object, built_in, print, class, end, F64}
use brane.Vm.Stack
use brane.Vm.State.{
  Vm, VmError, VmOptions, Op, put, with_stack, heap_alloc, alloc_object, wrap_err,
  heap_freeze_error, builtin_register_error, slot_create_error,
}
use brane.Vm.Run.{run}
use brane.Vm.Ops.Math.{pop_slot}
use brane.Vm.Calls.Freeze.{freeze_function}
use brane.Vm.Calls.Values.{from_value}
use brane.Vm.Calls.Executor.{Executor}
use brane.Vm.Calls.Call.{call, op_call, value_of}
use brane.Vm.Calls.Import.{op_import}
use brane.Vm.Calls.Parallel.{VmState, op_parallel}

-- what a machine has besides its own state
pub record Outside : Type 0 where
  pub f64 : F64
  pub executor : Executor
  pub package_index : PackageIndex
  pub branch : VmState → SpecFunction → Outcome VmError Value

-- the three instructions that leave the machine
unfoldable pub external : Outside → Opcode → Op (Unit {0})
external o Opcode.call = op_call o.executor
external o Opcode.import = op_import o.package_index
external o Opcode.parallel = op_parallel o.branch
external o _ = crash

-- `globals.insert`
abbrev pub insert : String → Slot → Op (Unit {0})
insert name slot vm = (ok tt, record vm { globals = put name slot vm.globals })

-- `builtins::register`
unfoldable pub register : Op (Unit {0})
register = do
  h ← wrap_err (builtin_register_error "the Service class") (alloc_object [] (class "Service" end))
  insert "Service" (object h)
  insert "print" (built_in print)

abbrev pub is_class : Value → Bool
is_class (Value.class _) = true
is_class _ = false

-- the globals of a state, those that are classes or those that are not
unfoldable pub load_globals : Bool → List (String × Value) → Op (Unit {0})
unfolding from_value
load_globals classes [] = pure tt
load_globals classes ((name, value) ∷ state) = do
  globals ← gets (λ vm. vm.globals)
  (if (if is_class value then classes else not classes)
      then (wrap_err (slot_create_error "a global") (from_value globals [] value) >>= λ s.
          insert name s)
      else pure tt)
  load_globals classes state

abbrev pub empty : VmOptions → Vm
empty options = record {
  frames = [];
  globals = [];
  heap = Heap.default;
  locations = [];
  options = options;
  stack = Stack.default;
}

-- `get_globals`, and then `new`, which registers the builtins
unfoldable pub new_with_state : VmState → Outcome VmError (Unit {0}) × Vm
unfolding load_globals register Heap.default Stack.default
new_with_state state =
    (do load_globals true state.globals; load_globals false state.globals; register)
      (empty state.options)

module _ (o : Outside) where
  -- the function of a script, frozen, on the stack and called
  unfoldable pub start : SpecFunction → Op (Unit {0})
  unfolding freeze_function call
  start f = do
    ffunction ← wrap_err (heap_freeze_error "the main function") (freeze_function [] f)
    h ← heap_alloc "the main function" [] ffunction
    with_stack (Stack.push_object h)
    call o.executor 0

  -- the loop, until it ends or the rounds are used up
  unfoldable pub run_all : ℕ → Op Bool
  unfolding run external
  run_all rounds = run o.f64 (external o) rounds

  -- For a REPL the frame is removed, whether the loop went well or not.
  abbrev pub cleared : Outcome VmError Bool × Vm → Outcome VmError (Option (Unit {0})) × Vm
  cleared (ok false, vm) = (ok none, vm)
  cleared (r, vm) =
      let res : Outcome VmError (Option (Unit {0})) = elim r [
        | ok _ ↦ ok (some tt)
        | err e ↦ err e
        | panic ↦ panic
      ] in
      if vm.options.clear_after_main
      then elim vm.frames [
        | [] ↦ (pop_slot "" >>= λ _. lift res) vm
        | _ ∷ frames ↦ (pop_slot "" >>= λ _. lift res) (record vm { frames = frames })
      ]
      else (res, vm)

  -- what `main` does once the function was called, or could not be
  abbrev pub started :
      ℕ → Outcome VmError (Unit {0}) × Vm → Outcome VmError (Option (Unit {0})) × Vm
  started rounds (ok _, vm) = cleared (run_all rounds vm)
  started rounds (err e, vm) = (err e, vm)
  started rounds (panic, vm) = (panic, vm)

  unfoldable pub main : ℕ → FunctionMut → Op (Option (Unit {0}))
  unfolding start run_all
  main rounds f vm =
      if length vm.frames == 0 && length vm.stack.inner == 0
      then started rounds (start (to_spec f) vm)
      else (panic, vm)

  -- the result, where the function and nothing else is left on the stack
  abbrev pub result_of : Bool → Op (Option Value)
  result_of false vm = (ok none, vm)
  result_of true vm =
      if length vm.stack.inner == 1
      then (pop_slot "" >>= λ s. value_of s >>= λ v. pure (some v)) vm
      else (ok (some Value.unit), vm)

  -- A function with parameters panics.
  unfoldable pub anonymous : ℕ → SpecFunction → Op (Option Value)
  unfolding start run_all
  anonymous rounds (spec_function zero name code constants) = do
    (λ vm. (ok tt, record vm { options = record vm.options { global_return_halts = true } }))
    start (spec_function zero name code constants)
    ended ← run_all rounds
    result_of ended
  anonymous rounds (spec_function (suc _) _ _ _) = crash
