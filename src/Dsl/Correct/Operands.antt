-- ===== src/Dsl/Correct/Operands.antt =====
-- The code of each kind of expression, given that of its operands.
use brane.Prelude.{
  ℕ, suc, ◌%◌, ◌≡◌, some_inj, refl, sym, ap, ◌∙◌, true, false, Option-cases, inl, inr, Option, some,
  String, List, [], ◌∷◌, ◌++◌, length, get_elem?, Outcome, ok, ◌>>=◌, arith,
}
use brane.Prelude.Int.{ℤ}
use brane.Value.{Value}
use brane.Bytecode.Opcodes.{Opcode, to_u8}
use brane.Bytecode.Chunk.{ChunkMut}
use brane.Vm.Slot.{Slot, F64, true', false', to_list}
use brane.Vm.Stack
use brane.Vm.State.{Vm, Op}
use brane.Vm.Run.{dispatch, halts}
use brane.Vm.Ops.Logic.{op_true, op_false, op_unit}
use brane.Dsl.Ast.{Lit, BinOp, UnOp}
use brane.Dsl.Generator.Writer.{Local, op, op_byte, op_constant, position, ident_to_opcodes}
use brane.Dsl.Generator.Compile.{literal_to_opcodes, operator_to_opcodes, unary_to_opcodes}
use brane.Dsl.Correct.Semantics.{Datum, int, bool, unit, eval_binary, eval_unary, eval_literal}
use brane.Dsl.Correct.Exchange.{exchange}
use brane.Dsl.Correct.Chunks.{
  Extends, Extends-op, Extends-op_byte, Extends-op_constant, Extends-trans, length-op_byte,
  length-op_constant, fetch-op_byte, fetch-op_constant,
}
use brane.Dsl.Correct.Machine.{Frame, at, Runs-trans, Runs-step}
use brane.Dsl.Correct.Operators.{Shows, Yields, neg-Yields, not-Yields}
use brane.Dsl.Correct.Steps.{Fits, Fits-Extends, Steps, op-Steps, Operates, operates}
use brane.Dsl.Correct.Variables.{Agrees, Kept-push, vm_constant-at, get_local-at, get_global-at}

idx-none : (a d : Datum) → ¬ (eval_unary UnOp.idx a ≡ some d)
unfolding eval_unary
idx-none a d e = cc

prio-none : (a d : Datum) → ¬ (eval_unary UnOp.prio a ≡ some d)
unfolding eval_unary
prio-none a d e = cc

module _ (f64 : F64) (external : Opcode → Op (Unit {0})) (env : String → Option Datum) where
  -- what the compiler owes for an expression that denotes `d`
  pub record Compiled (r : Outcome ⊥ ChunkMut) (locals : List Local) (c : ChunkMut) (d : Datum)
      : Type 0 where
    pub chunk : ChunkMut
    pub compiles : r ≡ ok chunk
    pub extends : Extends c chunk
    pub steps :
        (m : Frame) (s : List Slot)
        → Fits m chunk
        → Agrees env locals m s
        → (x : Slot) × Shows x d × Steps f64 external m c s chunk (s ++ x ∷ [])

  -- an instruction that pushes a slot
  pushes :
      (o : Opcode) (x : Slot) (locals : List Local) (c : ChunkMut) (d : Datum)
      → Shows x d
      → ((m : Frame) (a : ℕ) (s : List Slot)
          → dispatch f64 external o (at m a s) ≡ (ok tt, at m a (s ++ x ∷ [])))
      → ((vm : Vm) → halts f64 external o vm ≡ false)
      → Compiled (ok (op o c)) locals c d
  pushes o x locals c d shows e stays = record {
    chunk = op o c;
    compiles = refl;
    extends = Extends-op o c;
    steps = λ m s fits agrees. (
      x,
      shows,
      op-Steps f64 external m o c s (s ++ x ∷ []) fits (e m (suc (length c.code)) s) stays,
    );
  }

  -- an instruction of two bytes
  two-Steps :
      (m : Frame) (o : Opcode) (c d : ChunkMut) (s t : List Slot)
      → length d.code ≡ suc (suc (length c.code))
      → get_elem? m.code (length c.code) ≡ some (to_u8 o)
      → dispatch f64 external o (at m (suc (length c.code)) s)
        ≡ (ok tt, at m (suc (suc (length c.code))) t)
      → ((vm : Vm) → halts f64 external o vm ≡ false)
      → Steps f64 external m c s d t
  two-Steps m o c d s t size h e stays =
      rw size
        (Runs-step f64 external m o (length c.code) (suc (suc (length c.code))) s t h e (stays _))

  integer-Compiled :
      (z : ℤ) (locals : List Local) (c : ChunkMut)
      → Compiled (ok (op_constant Opcode.constant (Value.integer z) c)) locals c (int z)
  unfolding dispatch
  integer-Compiled z locals c = record {
    chunk = op_constant Opcode.constant (Value.integer z) c;
    compiles = refl;
    extends = Extends-op_constant Opcode.constant (Value.integer z) c;
    steps = λ m s fits agrees.
        let (h, i, h', x, k, froze) =
          fetch-op_constant m.code (to_list m.constants) Opcode.constant (Value.integer z) c fits.0
            fits.1 in
        (
          x,
          rw froze refl,
          two-Steps m Opcode.constant c (op_constant Opcode.constant (Value.integer z) c) s
              (s ++ x ∷ []) (length-op_constant Opcode.constant (Value.integer z) c) h
              (vm_constant-at m (suc (length c.code)) i s x h' k) (λ vm. refl),
        );
  }

  pub literal-Compiled :
      (l : Lit) (locals : List Local) (c : ChunkMut) (d : Datum)
      → eval_literal l ≡ some d
      → Compiled (ok (literal_to_opcodes l c)) locals c d
  unfolding eval_literal literal_to_opcodes dispatch op_true op_false op_unit Stack.push
  literal-Compiled (Lit.boolean true) locals c d e =
      rw (sym (some_inj e))
        (pushes Opcode.true' true' locals c (bool true) refl (λ m a s. refl) (λ vm. refl))
  literal-Compiled (Lit.boolean false) locals c d e =
      rw (sym (some_inj e))
        (pushes Opcode.false' false' locals c (bool false) refl (λ m a s. refl) (λ vm. refl))
  literal-Compiled Lit.unit locals c d e =
      rw (sym (some_inj e))
        (pushes Opcode.unit Slot.unit locals c unit refl (λ m a s. refl) (λ vm. refl))
  literal-Compiled (Lit.integer z) locals c d e =
      rw (sym (some_inj e)) (integer-Compiled z locals c)
  literal-Compiled (Lit.real r) locals c d e = cc
  literal-Compiled (Lit.string t) locals c d e = cc

  pub ident-Compiled :
      (name : String) (locals : List Local) (c : ChunkMut) (d : Datum)
      → env name ≡ some d
      → Compiled (ok (ident_to_opcodes Opcode.get_local Opcode.get_global name locals c)) locals c d
  unfolding ident_to_opcodes dispatch
  ident-Compiled name locals c d e = elim (Option-cases (position name locals)) [
    | inl global ↦
        rw (ident_to_opcodes, global)
          (record {
            chunk = op_constant Opcode.get_global (Value.unicode name) c;
            compiles = refl;
            extends = Extends-op_constant Opcode.get_global (Value.unicode name) c;
            steps = λ m s fits agrees.
                let (x, found, shows) = rw global at (agrees name d e) in
                let (h, i, h', y, k, (a, froze)) =
                  fetch-op_constant m.code (to_list m.constants) Opcode.get_global
                    (Value.unicode name) c fits.0 fits.1 in
                (
                  x,
                  shows,
                  two-Steps m Opcode.get_global c
                      (op_constant Opcode.get_global (Value.unicode name) c) s (s ++ x ∷ [])
                      (length-op_constant Opcode.get_global (Value.unicode name) c) h
                      (get_global-at m (suc (length c.code)) i a name s x h' (k ∙ ap some froze)
                        found)
                      (λ vm. refl),
                );
          })
    | inr (index, local) ↦
        rw (ident_to_opcodes, local)
          (record {
            chunk = op_byte Opcode.get_local (index % 256) c;
            compiles = refl;
            extends = Extends-op_byte Opcode.get_local (index % 256) c;
            steps = λ m s fits agrees.
                let (small, x, found, shows) = rw local at (agrees name d e) in
                let (h, h') =
                  fetch-op_byte m.code (to_list m.constants) Opcode.get_local (index % 256) c
                    fits.0 in
                let byte : index % 256 ≡ index = omega (arith, small) in
                (
                  x,
                  shows,
                  two-Steps m Opcode.get_local c (op_byte Opcode.get_local (index % 256) c) s
                      (s ++ x ∷ []) (length-op_byte Opcode.get_local (index % 256) c) h
                      (get_local-at m (suc (length c.code)) index s x (h' ∙ ap some byte) found)
                      (λ vm. refl),
                );
          })
  ]

  -- the rest of an expression behind the code of an operand
  pub binary-Compiled :
      (o : BinOp) (a b d : Datum) (l : Outcome ⊥ ChunkMut) (rest : ChunkMut → Outcome ⊥ ChunkMut)
      (locals : List Local) (c : ChunkMut) (p : Compiled l locals c a)
      (q : Compiled (rest p.chunk) locals p.chunk b)
      → eval_binary (exchange o) a b ≡ some d
      → Compiled (l >>= λ c₁. rest c₁ >>= λ c₂. operator_to_opcodes o c₂) locals c d
  binary-Compiled o a b d l rest locals c p q e =
      let w : Operates f64 external o a b d q.chunk = operates f64 external o a b d q.chunk e in
      record {
        chunk = w.chunk;
        compiles = rw (p.compiles, q.compiles) w.compiles;
        extends = Extends-trans (Extends-trans p.extends q.extends) w.extends;
        steps = λ m s fits agrees.
            let fits₂ = Fits-Extends m w.extends fits in
            let fits₁ = Fits-Extends m q.extends fits₂ in
            let (x, shows₁, first) = p.steps m s fits₁ agrees in
            let (y, shows₂, second) =
              q.steps m (s ++ x ∷ []) fits₂
                (λ name d h. Kept-push m s x (position name locals) name d (agrees name d h)) in
            let (z, shows, third) = w.steps m s x y fits shows₁ shows₂ in
            (z, shows, Runs-trans f64 external m (Runs-trans f64 external m first second) third);
      }

  -- an operator of one operand, whose instruction is one
  negated-Compiled :
      (o : UnOp) (instruction : Opcode) (a d : Datum) (l : Outcome ⊥ ChunkMut) (locals : List Local)
      (c : ChunkMut) (p : Compiled l locals c a)
      → unary_to_opcodes o p.chunk ≡ ok (op instruction p.chunk)
      → ((vm : Vm) → halts f64 external instruction vm ≡ false)
      → ((m : Frame) (i : ℕ) (s : List Slot) (x : Slot)
          → Shows x a
          → Yields m i s (dispatch f64 external instruction (at m i (s ++ x ∷ []))) (some d))
      → Compiled (l >>= λ c₁. unary_to_opcodes o c₁) locals c d
  negated-Compiled o instruction a d l locals c p e stays yields = record {
    chunk = op instruction p.chunk;
    compiles = rw p.compiles e;
    extends = Extends-trans p.extends (Extends-op instruction p.chunk);
    steps = λ m s fits agrees.
        let (x, shows₁, first) =
          p.steps m s (Fits-Extends m (Extends-op instruction p.chunk) fits) agrees in
        let (z, runs, shows) = yields m (suc (length p.chunk.code)) s x shows₁ in
        (
          z,
          shows,
          Runs-trans f64 external m first
              (op-Steps f64 external m instruction p.chunk _ _ fits runs stays),
        );
  }

  pub unary-Compiled :
      (o : UnOp) (a d : Datum) (l : Outcome ⊥ ChunkMut) (locals : List Local) (c : ChunkMut)
      (p : Compiled l locals c a)
      → eval_unary o a ≡ some d
      → Compiled (l >>= λ c₁. unary_to_opcodes o c₁) locals c d
  unfolding unary_to_opcodes dispatch
  unary-Compiled UnOp.neg a d l locals c p e =
      negated-Compiled UnOp.neg Opcode.negate a d l locals c p refl (λ vm. refl)
        (λ m i s x h. rw e at (neg-Yields f64 m i s x a h))
  unary-Compiled UnOp.not' a d l locals c p e =
      negated-Compiled UnOp.not' Opcode.not' a d l locals c p refl (λ vm. refl)
        (λ m i s x h. rw e at (not-Yields f64 m i s x a h))
  unary-Compiled UnOp.idx a d l locals c p e = absurd (idx-none a d e)
  unary-Compiled UnOp.prio a d l locals c p e = absurd (prio-none a d e)
