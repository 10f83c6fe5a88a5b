-- ===== src/Dsl/Tests.antt =====
-- The theorems of the compiler at a concrete expression and at concrete jumps.
use brane.Prelude.{
  ℕ, zero, suc, ◌+◌, ◌≡◌, some_inj, refl, sym, true, false, Option, none, some, String, [], ◌∷◌,
  ◌++◌, get_elem?, ok, arith,
}
use brane.Prelude.Exec.{crash}
use brane.Prelude.Int.{pos}
use brane.Value
use brane.Value.{Value}
use brane.Bytecode.Opcodes.{Opcode, to_u8}
use brane.Bytecode.Chunk.{ChunkMut, write, write_pair, write_bytes, add_constant}
use brane.Vm.Slot
use brane.Vm.Slot.{Slot, F64, integer, to_list, true'}
use brane.Vm.State.{Vm, Op}
use brane.Vm.Run.{run}
use brane.Vm.Ops.Control.{op_jump, op_jump_back}
use brane.Dsl.Ast.{Lit, BinOp, UnOp, Expr}
use brane.Dsl.Generator.Writer.{op_constant, patch, jump_back}
use brane.Dsl.Generator.Compile.{
  literal_to_opcodes, operator_to_opcodes, unary_to_opcodes, expr_to_opcodes,
}
use brane.Dsl.Correct.Semantics.{Datum, bool, eval, eval_literal, eval_binary, eval_unary}
use brane.Dsl.Correct.Chunks.{Extends, Froze, value_at}
use brane.Dsl.Correct.Machine.{Frame, at}
use brane.Dsl.Correct.Operators.{Shows}
use brane.Dsl.Correct.Steps.{Fits}
use brane.Dsl.Correct.Variables.{Agrees}
use brane.Dsl.Correct.Exchange.{exchange, exchanged, IsUnordered, IsUnorderedOp}
use brane.Dsl.Correct.Expressions.{eval-compiles, run-expr_to_opcodes, run-unordered}
use brane.Dsl.Correct.Jumps.{op_jump-patch, op_jump_back-jump_back}

abbrev pub no_floats : F64
no_floats = record {
  add = λ a b. 0;
  sub = λ a b. 0;
  mul = λ a b. 0;
  div = λ a b. 0;
  neg = λ a. a;
  of_i64 = λ z. 0;
  partial_cmp = λ a b. none;
}

abbrev no_calls : Opcode → Op (Unit {0})
no_calls o = crash

abbrev pub env : String → Option Datum
env name = none

-- `!(1 == 2)`
abbrev script : Expr
script =
    Expr.unary UnOp.not' (
      Expr.binary BinOp.eq (Expr.literal (Lit.integer (pos 1)))
        (Expr.literal (Lit.integer (pos 2))))

abbrev empty : ChunkMut
empty = record { code = []; constants = Value.nil }

abbrev written : ChunkMut
written = record {
  code =
      to_u8 Opcode.constant
      ∷ 0
      ∷ to_u8 Opcode.constant
      ∷ 1
      ∷ to_u8 Opcode.equal
      ∷ to_u8 Opcode.not'
      ∷ [];
  constants = Value.cons (Value.integer (pos 1)) (Value.cons (Value.integer (pos 2)) Value.nil);
}

abbrev pub machine : Vm
machine = record {
  frames = [];
  globals = [];
  heap = record { cells = []; max_size = 8; next = 2 };
  locations = [];
  options = record { clear_after_main = false; global_return_halts = false };
  stack = record { inner = []; use_const = true };
}

abbrev frame : Frame
frame = record {
  address = 0;
  name = "main";
  arity = 0;
  code = written.code;
  constants = Slot.Slots.cons (integer (pos 1)) (Slot.Slots.cons (integer (pos 2)) Slot.Slots.nil);
  stack_offset = 0;
  callers = [];
  vm = machine;
}

script-eval : eval env script ≡ some (bool true)
unfolding eval eval_literal eval_binary eval_unary
script-eval = refl

script-IsUnordered : IsUnordered script
unfolding IsUnordered IsUnorderedOp
script-IsUnordered = (tt, tt, tt)

script-written : expr_to_opcodes script [] empty ≡ ok written
unfolding expr_to_opcodes literal_to_opcodes operator_to_opcodes unary_to_opcodes write write_pair
    op_constant add_constant
script-written = refl

constants-Froze :
    (i : ℕ) (v : Value)
    → value_at written.constants i ≡ some v
    → (x : Slot) × (get_elem? (to_list frame.constants) i ≡ some x) × Froze v x
constants-Froze zero v h = (integer (pos 1), refl, rw (sym (some_inj h)) refl)
constants-Froze (suc zero) v h = (integer (pos 2), refl, rw (sym (some_inj h)) refl)
constants-Froze (suc (suc i)) v h = cc

frame-Fits : Fits frame written
frame-Fits = (record { code_at = λ i b h. h; constant_at = constants-Froze }, omega arith)

frame-Agrees : Agrees env [] frame (true' ∷ [])
frame-Agrees name d h = cc

eval-compiles_example :
    (c' : ChunkMut) × (expr_to_opcodes script [] empty ≡ ok c') × Extends empty c'
eval-compiles_example = eval-compiles no_floats no_calls env script [] empty (bool true) script-eval

-- `1 < 2`, which the machine takes for `1 > 2`
abbrev less : Expr
less =
    Expr.binary BinOp.lt (Expr.literal (Lit.integer (pos 1))) (Expr.literal (Lit.integer (pos 2)))

less-eval : eval env (exchanged less) ≡ some (bool false)
unfolding exchanged exchange eval eval_literal eval_binary
less-eval = refl

abbrev less_written : ChunkMut
less_written = record written {
  code = to_u8 Opcode.constant ∷ 0 ∷ to_u8 Opcode.constant ∷ 1 ∷ to_u8 Opcode.less ∷ [];
}

less-written : expr_to_opcodes less [] empty ≡ ok less_written
unfolding expr_to_opcodes literal_to_opcodes operator_to_opcodes write write_pair op_constant
    add_constant
less-written = refl

abbrev less_frame : Frame
less_frame = record frame { code = less_written.code }

less_frame-Fits : Fits less_frame less_written
less_frame-Fits = (record { code_at = λ i b h. h; constant_at = constants-Froze }, omega arith)

run-expr_to_opcodes_example :
    (x : Slot) × Shows x (bool false)
    × (k : ℕ) × ((n : ℕ)
        → run no_floats no_calls (k + n) (at less_frame 0 (true' ∷ []))
          ≡ run no_floats no_calls n (at less_frame 5 (true' ∷ x ∷ [])))
run-expr_to_opcodes_example =
    run-expr_to_opcodes no_floats no_calls env less [] empty less_written (bool false) less_frame
      (true' ∷ []) less-eval less-written less_frame-Fits (λ name d h. cc)

run-unordered_example :
    (x : Slot) × Shows x (bool true)
    × (k : ℕ) × ((n : ℕ)
        → run no_floats no_calls (k + n) (at frame 0 (true' ∷ []))
          ≡ run no_floats no_calls n (at frame 6 (true' ∷ x ∷ [])))
run-unordered_example =
    run-unordered no_floats no_calls env script [] empty written (bool true) frame (true' ∷ [])
      script-IsUnordered script-eval script-written frame-Fits frame-Agrees

-- a placeholder at 1, patched when the code was five bytes long
abbrev waiting : ChunkMut
waiting = record {
  code = to_u8 Opcode.jump ∷ 0 ∷ 0 ∷ to_u8 Opcode.pop ∷ to_u8 Opcode.unit ∷ [];
  constants = Value.nil;
}

abbrev jumping : Frame
jumping = record frame {
  code = to_u8 Opcode.jump ∷ 0 ∷ 2 ∷ to_u8 Opcode.pop ∷ to_u8 Opcode.unit ∷ [];
}

waiting-patched :
    (i b : ℕ) → get_elem? (patch 1 waiting).code i ≡ some b → get_elem? jumping.code i ≡ some b
unfolding patch
waiting-patched i b h = h

op_jump-patch_example : op_jump (at jumping 1 []) ≡ (ok tt, at jumping 5 [])
op_jump-patch_example =
    op_jump-patch jumping 1 waiting [] (omega arith) (omega arith) waiting-patched

abbrev looping : Frame
looping = record frame { code = waiting.code ++ (to_u8 Opcode.jump_back ∷ 0 ∷ 7 ∷ []) }

waiting-looped :
    (i b : ℕ) → get_elem? (jump_back 1 waiting).code i ≡ some b → get_elem? looping.code i ≡ some b
unfolding jump_back write write_bytes
waiting-looped i b h = h

op_jump_back-jump_back_example : op_jump_back (at looping 6 []) ≡ (ok tt, at looping 1 [])
op_jump_back-jump_back_example =
    op_jump_back-jump_back looping 1 waiting [] (omega arith) (omega arith) waiting-looped
