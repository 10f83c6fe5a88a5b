-- ===== src/Vm/Run.antt =====
-- `run` of brane-bvm/src/vm.rs: the loop over the instructions of the current frame.
use brane.Prelude.{ℕ, zero, suc, Bool, true, false, ◌&&◌, none, some, [], ok, err, panic}
use brane.Prelude.Exec.{◌>>=◌}
use brane.Bytecode.Opcodes.{Opcode, from_u8}
use brane.Vm.Slot.{F64}
use brane.Vm.Frames.{ip_out_of_bounds}
use brane.Vm.State.{Vm, Op, call_frame_8bit_error, undefined_opcode_error, frame_u8}
use brane.Vm.Ops.Math.{op_add, op_divide, op_multiply, op_substract, op_negate}
use brane.Vm.Ops.Logic.{
  op_and, op_or, op_not, op_false, op_true, op_unit, op_equal, op_greater, op_less,
}
use brane.Vm.Ops.Variables.{
  op_class, op_constant, op_get_local, op_set_local, op_get_global, op_set_global, op_define_global,
  op_pop, op_pop_n,
}
use brane.Vm.Ops.Control.{
  op_jump, op_jump_back, op_jump_if_false, op_loc, op_loc_pop, op_loc_push, op_return,
}
use brane.Vm.Ops.Objects.{op_array, op_index, op_new, op_dot, op_get_property, op_get_method}

-- `Opcode` without the three instructions that leave the machine: a call, an import, and the
-- parallel branches. What these do is `external`.
module _ (f64 : F64) (external : Opcode → Op (Unit {0})) where
  unfoldable pub dispatch : Opcode → Op (Unit {0})
  dispatch Opcode.add = op_add f64
  dispatch Opcode.and = op_and
  dispatch Opcode.array = op_array
  dispatch Opcode.call = external Opcode.call
  dispatch Opcode.class = op_class
  dispatch Opcode.constant = op_constant
  dispatch Opcode.define_global = op_define_global
  dispatch Opcode.divide = op_divide f64
  dispatch Opcode.dot = op_dot
  dispatch Opcode.equal = op_equal f64
  dispatch Opcode.false' = op_false
  dispatch Opcode.get_global = op_get_global
  dispatch Opcode.get_local = op_get_local
  dispatch Opcode.get_method = op_get_method
  dispatch Opcode.get_property = op_get_property
  dispatch Opcode.greater = op_greater f64
  dispatch Opcode.import = external Opcode.import
  dispatch Opcode.index = op_index
  dispatch Opcode.jump = op_jump
  dispatch Opcode.jump_back = op_jump_back
  dispatch Opcode.jump_if_false = op_jump_if_false
  dispatch Opcode.less = op_less f64
  dispatch Opcode.loc = op_loc
  dispatch Opcode.loc_pop = op_loc_pop
  dispatch Opcode.loc_push = op_loc_push
  dispatch Opcode.multiply = op_multiply f64
  dispatch Opcode.negate = op_negate f64
  dispatch Opcode.new = op_new
  dispatch Opcode.not' = op_not
  dispatch Opcode.or = op_or
  dispatch Opcode.parallel = external Opcode.parallel
  dispatch Opcode.pop = op_pop
  dispatch Opcode.pop_n = op_pop_n
  dispatch Opcode.return = op_return
  dispatch Opcode.set_global = op_set_global false
  dispatch Opcode.set_local = op_set_local
  dispatch Opcode.substract = op_substract f64
  dispatch Opcode.true' = op_true
  dispatch Opcode.unit = op_unit

  -- whether the loop ends after an instruction: a return from the last frame can halt it
  abbrev pub halts : Opcode → Vm → Bool
  halts Opcode.return vm =
      vm.options.global_return_halts && elim vm.frames [ [] ↦ true | _ ↦ false ]
  halts _ vm = false

  -- One round of the loop: `true` where the loop is left. The code's end leaves it, and any other
  -- error in reading the instruction is handed on.
  unfoldable pub step : Op Bool
  step vm =
      let (r, vm') = frame_u8 "an instruction" vm in
      elim r [
        | err (call_frame_8bit_error _ (ip_out_of_bounds _ _)) ↦ (ok true, vm')
        | err e ↦ (err e, vm')
        | panic ↦ (panic, vm')
        | ok byte ↦ elim (from_u8 byte) [
          | none ↦ (err (undefined_opcode_error byte), vm')
          | some instruction ↦
              (dispatch instruction >>= λ _ vm''. (ok (halts instruction vm''), vm'')) vm'
        ]
      ]

  -- The loop, for a number of rounds: `false` where it goes on after them.
  unfoldable pub run : ℕ → Op Bool
  run zero vm = (ok false, vm)
  run (suc fuel) vm =
      let (r, vm') = step vm in
      elim r [
        | ok true ↦ (ok true, vm')
        | ok false ↦ run fuel vm'
        | err e ↦ (err e, vm')
        | panic ↦ (panic, vm')
      ]
