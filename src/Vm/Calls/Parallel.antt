-- ===== src/Vm/Calls/Parallel.antt =====
-- `op_parallel` and `capture_state` of brane-bvm/src/vm.rs. A branch runs on a machine of its own, to which
-- only the values of the globals go over, and the results are joined in the order of the branches;
-- `branch` is what such a machine answers.
use brane.Prelude.{
  ℕ, zero, suc, Option, none, some, String, List, [], ◌∷◌, ◌++◌, Outcome, ok, panic,
}
use brane.Prelude.Exec.{pure, crash, lift, gets, ◌>>=◌}
use brane.Value.{Value, SpecFunction}
use brane.Vm.Slot.{Slot, handle, slots_refs}
use brane.Vm.Convert.{into_value, unfreeze_object}
use brane.Vm.Stack
use brane.Vm.State.{
  VmError, VmOptions, Op, Globals, on_stack, with_stack, stack_read_error, frame_u8, heap_alloc,
  wrap_err, branch_result_error,
}
use brane.Vm.Ops.Objects.{new_array}
use brane.Vm.Calls.Values.{from_value}

-- `VmState`
pub record VmState : Type 0 where
  pub globals : List (String × Value)
  pub options : VmOptions

-- the values of the globals; `none` where one has no value, which panics
unfoldable pub captured : Globals → Option (List (String × Value))
unfolding into_value
captured [] = some []
captured ((name, slot) ∷ globals) = elim (into_value slot) [
  | none ↦ none
  | some v ↦ elim (captured globals) [ none ↦ none | some vs ↦ some ((name, v) ∷ vs) ]
]

unfoldable pub capture_state : Op VmState
unfolding captured
capture_state vm = elim (captured vm.globals) [
  | none ↦ (panic, vm)
  | some globals ↦ (ok (record { globals = globals; options = vm.options }), vm)
]

-- the branches: functions behind handles on the stack, the topmost first
unfoldable pub pop_branches : ℕ → Op (List SpecFunction)
unfolding unfreeze_object
pop_branches zero = pure []
pop_branches (suc n) = do
  h ← on_stack (stack_read_error "a function handle") Stack.pop_object
  f ← elim h [ handle _ o ↦ elim (unfreeze_object o) [ none ↦ crash | some f ↦ pure f ] ]
  fs ← pop_branches n
  pure (f ∷ fs)

-- the answers of the branches as slots; the first error is that of the instruction
unfoldable pub join_results : List ℕ → List (Outcome VmError Value) → Op (List Slot)
unfolding from_value
join_results locals [] = pure []
join_results locals (result ∷ results) = do
  value ← lift result
  globals ← gets (λ vm. vm.globals)
  s ← wrap_err (branch_result_error value) (from_value globals locals value)
  ss ← join_results (slots_refs (s ∷ []) ++ locals) results
  pure (s ∷ ss)

module _ (branch : VmState → SpecFunction → Outcome VmError Value) where
  abbrev pub answers : VmState → List SpecFunction → List (Outcome VmError Value)
  answers state [] = []
  answers state (f ∷ fs) = branch state f ∷ answers state fs

  -- without branches the state is not captured
  abbrev pub run_branches : List SpecFunction → Op (List Slot)
  run_branches [] = pure []
  run_branches (f ∷ fs) = do state ← capture_state; join_results [] (answers state (f ∷ fs))

  unfoldable pub op_parallel : Op (Unit {0})
  unfolding pop_branches join_results capture_state
  op_parallel = do
    branches_n ← frame_u8 "the number of parallel branches"
    branches ← pop_branches branches_n
    results ← run_branches branches
    o ← new_array results
    h ← heap_alloc "an Array with parallel branch results" [] o
    with_stack (Stack.push_object h)
