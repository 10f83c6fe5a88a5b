-- ===== src/Dsl/Run/Globals.antt =====
-- The machine between two instructions, where the globals may change: what the instructions that
-- define and set globals do, and that which drops a value.
use brane.Prelude.{
  ℕ, suc, ◌+◌, ◌≡◌, refl, ap, ◌∙◌, Bool, true, false, ◌||◌, some, String, List, [], ◌∷◌, ◌++◌,
  get_elem?, ok, arith,
}
use brane.Bytecode.Opcodes.{Opcode, to_u8}
use brane.Vm.Slot.{Slot, F64, handle, object, string, to_list}
use brane.Vm.Stack.{plain}
use brane.Vm.State.{Vm, Op, Globals, put}
use brane.Vm.Ops.Variables.{op_set_global, op_pop, contains}
use brane.Vm.Run.{dispatch, halts, step, run}
use brane.Dsl.Correct.Semantics.{Datum}
use brane.Dsl.Correct.Operators.{Shows, pop_slot-at}
use brane.Dsl.Correct.Machine.{Frame, at, step-at}
use brane.Dsl.Correct.Variables.{frame_const-at}

-- the machine with other globals
abbrev pub with_globals : Frame → Globals → Frame
with_globals m g = record m { vm = record m.vm { globals = g } }

-- what a slot shows, it shows where the stack's `pop` made it an integer
pub Shows-plain : (x : Slot) (d : Datum) → Shows x d → Shows (plain x) d
Shows-plain x (Datum.int n) h = ap plain h
Shows-plain x (Datum.bool true) h = ap plain h
Shows-plain x (Datum.bool false) h = ap plain h
Shows-plain x Datum.unit h = ap plain h

-- The value on top becomes the global, if it may be created or is there.
pub set_global-at :
    (create : Bool) (m : Frame) (a i n : ℕ) (name : String) (s : List Slot) (x : Slot)
    → get_elem? m.code a ≡ some i
    → get_elem? (to_list m.constants) i ≡ some (object (handle n (string name)))
    → (create || contains name m.vm) ≡ true
    → op_set_global create (at m a (s ++ x ∷ []))
      ≡ (ok tt, at (with_globals m (put name (plain x) m.vm.globals)) (suc a) s)
unfolding op_set_global
set_global-at create m a i n name s x h k there =
    let e = frame_const-at "a global identifier" m a i (s ++ x ∷ []) _ h k in
    let top = pop_slot-at "a global variable value" m (suc a) s x in rw (e, top, there) refl

pub pop-at :
    (m : Frame) (a : ℕ) (s : List Slot) (x : Slot)
    → op_pop (at m a (s ++ x ∷ [])) ≡ (ok tt, at m a s)
unfolding op_pop
pop-at m a s x = rw (pop_slot-at "an ignored value" m a s x) refl

module _ (f64 : F64) (external : Opcode → Op (Unit {0})) where
  -- After some rounds the loop that started at one machine is at the other, and goes on from there.
  pub record Leads (v w : Vm) : Type 0 where
    pub rounds : ℕ
    pub goes_on : (n : ℕ) → run f64 external (rounds + n) v ≡ run f64 external n w

  pub Leads-refl : (v : Vm) → Leads v v
  Leads-refl v = record { rounds = 0; goes_on = λ n. let e : 0 + n ≡ n = omega arith in rw e refl }

  pub Leads-trans : {u v w : Vm} → Leads u v → Leads v w → Leads u w
  Leads-trans p q = record {
    rounds = p.rounds + q.rounds;
    goes_on = λ n.
        let e : p.rounds + q.rounds + n ≡ p.rounds + (q.rounds + n) = omega arith in
        rw e (p.goes_on (q.rounds + n) ∙ q.goes_on n);
  }

  -- An instruction that succeeds, and does not halt the machine there, is a round.
  pub Leads-step :
      (m : Frame) (o : Opcode) (a : ℕ) (s : List Slot) (w : Vm)
      → get_elem? m.code a ≡ some (to_u8 o)
      → dispatch f64 external o (at m (suc a) s) ≡ (ok tt, w)
      → halts f64 external o w ≡ false
      → Leads (at m a s) w
  unfolding run
  Leads-step m o a s w h e stays = record {
    rounds = 1;
    goes_on = λ n.
        let one : 1 + n ≡ suc n = omega arith in
        let p : step f64 external (at m a s) ≡ (ok false, w) =
          step-at f64 external m o a s h ∙ rw (e, stays) refl in
        rw (one, run, p, p) refl;
  }
