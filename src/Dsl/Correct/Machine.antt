-- ===== src/Dsl/Correct/Machine.antt =====
-- The machine of brane-bvm/src/vm.rs in a function: where it stands in the code and what it has
-- on its stack, and what its instructions do to the two.
use brane.Prelude.{
  ℕ, suc, ◌+◌, ◌≡◌, refl, ◌∙◌, true, false, some, String, List, ◌∷◌, get_elem?, ok, arith,
}
use brane.Prelude.Exec.{◌>>=◌}
use brane.Bytecode.Opcodes.{Opcode, to_u8, from_u8-to_u8}
use brane.Vm.Slot.{Slot, Slots, F64, handle, function}
use brane.Vm.Frames.{CallFrame, read_u8}
use brane.Vm.State.{Vm, Op, frame_u8}
use brane.Vm.Run.{dispatch, halts, step, run}

-- the function that runs: its handle, its code and its constants; and the machine around it
pub record Frame : Type 0 where
  pub address : ℕ
  pub name : String
  pub arity : ℕ
  pub code : List ℕ
  pub constants : Slots
  pub stack_offset : ℕ
  pub callers : List CallFrame
  pub vm : Vm

-- the machine at an instruction, with a stack
abbrev pub at : Frame → ℕ → List Slot → Vm
at m ip s = record m.vm {
  frames =
      record {
        function = handle m.address (function m.name m.arity m.code m.constants);
        ip = ip;
        stack_offset = m.stack_offset;
      }
      ∷ m.callers;
  stack = record { inner = s; use_const = true };
}

-- reading a byte of the code
pub frame_u8-at :
    (what : String) (m : Frame) (a b : ℕ) (s : List Slot)
    → get_elem? m.code a ≡ some b
    → frame_u8 what (at m a s) ≡ (ok b, at m (suc a) s)
unfolding frame_u8 read_u8
frame_u8-at what m a b s h = ground arith

module _ (f64 : F64) (external : Opcode → Op (Unit {0})) (m : Frame) where
  -- After some rounds the loop that stood at `a` with stack `s` stands at `b` with `t`, and goes on
  -- from there.
  pub record Runs (a : ℕ) (s : List Slot) (b : ℕ) (t : List Slot) : Type 0 where
    pub rounds : ℕ
    pub goes_on : (n : ℕ) → run f64 external (rounds + n) (at m a s) ≡ run f64 external n (at m b t)

  pub Runs-trans : {a b c : ℕ} {s t u : List Slot} → Runs a s b t → Runs b t c u → Runs a s c u
  Runs-trans p q = record {
    rounds = p.rounds + q.rounds;
    goes_on = λ n.
        let e : p.rounds + q.rounds + n ≡ p.rounds + (q.rounds + n) = omega arith in
        rw e (p.goes_on (q.rounds + n) ∙ q.goes_on n);
  }

  pub step-at :
      (o : Opcode) (a : ℕ) (s : List Slot)
      → get_elem? m.code a ≡ some (to_u8 o)
      → step f64 external (at m a s)
        ≡ (dispatch f64 external o >>= λ _ vm. (ok (halts f64 external o vm), vm)) (at m (suc a) s)
  unfolding step
  step-at o a s h =
      let e = frame_u8-at "an instruction" m a (to_u8 o) s h in
      rw (step, e, from_u8-to_u8 o, e) refl

  next :
      (o : Opcode) (a b : ℕ) (s t : List Slot)
      → get_elem? m.code a ≡ some (to_u8 o)
      → dispatch f64 external o (at m (suc a) s) ≡ (ok tt, at m b t)
      → halts f64 external o (at m b t) ≡ false
      → step f64 external (at m a s) ≡ (ok false, at m b t)
  next o a b s t h e stays = step-at o a s h ∙ rw (e, stays) refl

  -- An instruction that succeeds, and does not halt the machine there, is a round.
  pub Runs-step :
      (o : Opcode) (a b : ℕ) (s t : List Slot)
      → get_elem? m.code a ≡ some (to_u8 o)
      → dispatch f64 external o (at m (suc a) s) ≡ (ok tt, at m b t)
      → halts f64 external o (at m b t) ≡ false
      → Runs a s b t
  unfolding run
  Runs-step o a b s t h e stays = record {
    rounds = 1;
    goes_on = λ n.
        let one : 1 + n ≡ suc n = omega arith in
        let p = next o a b s t h e stays in rw (one, run, p, p) refl;
  }
