-- ===== src/Vm/Calls/Executor.antt =====
-- `VmExecutor` of brane-bvm/src/executor.rs, the interface to what runs a package, and the builtin
-- functions of brane-bvm/src/builtins.rs. The executor is a parameter: its answers are functions of the requests, and
-- an error of its is a text.
use brane.Prelude.{
  Option, none, some, String, List, [], ◌∷◌, length, Outcome, ok, err, map_err, ◌>>=◌, str_eq,
  if◌then◌else◌,
}
use brane.Value.{Value, Fields, FunctionExt}
use brane.Value.Show.{Numbers, show}
use brane.Vm.Slot.{BuiltinFunction, undefined, print, wait_until_started, wait_until_done}
use brane.Vm.State.{
  BuiltinError, stdout_error, unknown_opcode, invalid_instance_error, schedule_error,
  not_enough_arguments_error, too_many_arguments_error,
}

pub data ServiceState : Type 0 where
  created started done : ServiceState

-- The text of debug messages is left out.
pub record Executor : Type 0 where
  pub call : FunctionExt → List (String × Value) → Option String → Outcome String Value
  pub debug : Outcome String (Unit {0})
  pub stdout : String → Outcome String (Unit {0})
  pub wait_until : String → ServiceState → Outcome String (Unit {0})
  pub numbers : Numbers

-- `properties.get`
abbrev pub field_of : String → Fields → Option Value
field_of k Fields.end = none
field_of k (Fields.field j v fs) = if str_eq j k then some v else field_of k fs

-- the only argument; the other numbers of arguments are errors
abbrev pub only : BuiltinFunction → List Value → Outcome BuiltinError Value
only builtin [] = err (not_enough_arguments_error builtin 1 0)
only builtin (v ∷ []) = ok v
only builtin arguments = err (too_many_arguments_error builtin 1 (length arguments))

-- the identifier of an instance that is waited for
abbrev pub identifier_in : Numbers → BuiltinFunction → Value → Outcome BuiltinError String
identifier_in n builtin (Value.struct _ properties) = elim (field_of "identifier" properties) [
  | none ↦ err (invalid_instance_error builtin)
  | some v ↦ ok (show n v)
]
identifier_in n builtin _ = err (invalid_instance_error builtin)

unfoldable pub wait_until_state :
    Executor → BuiltinFunction → List Value → ServiceState → Outcome BuiltinError Value
unfolding show
wait_until_state executor builtin arguments desired_state = do
  instance' ← only builtin arguments
  identifier ← identifier_in executor.numbers builtin instance'
  _ ← map_err (schedule_error builtin identifier) (executor.wait_until identifier desired_state)
  ok Value.unit

-- `builtins::call`
unfoldable pub call : Executor → BuiltinFunction → List Value → Outcome BuiltinError Value
unfolding wait_until_state
call executor print arguments = do
  value ← only print arguments
  let text = show executor.numbers value
  _ ← map_err (stdout_error text) (executor.stdout text)
  ok Value.unit
call executor wait_until_started arguments =
    wait_until_state executor wait_until_started arguments started
call executor wait_until_done arguments = wait_until_state executor wait_until_done arguments done
call executor undefined arguments = err (unknown_opcode 0)
