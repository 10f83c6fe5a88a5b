-- ===== src/Dsl/Correct/Steps.antt =====
-- What the instructions of an operator do behind the code of its operands.
use brane.Prelude.{
  ℕ, suc, ◌≤◌, ◌≡◌, some_inj, refl, sym, Bool, false, not, Option, some, List, [], ◌∷◌, ◌++◌,
  length, length-append, ok, arith,
}
use brane.Prelude.Int.{ltb_ℤ}
use brane.Value.{count}
use brane.Bytecode.Opcodes.{Opcode, to_u8}
use brane.Bytecode.Chunk.{ChunkMut, write}
use brane.Vm.Slot.{Slot, F64, to_list}
use brane.Vm.State.{Vm, Op}
use brane.Vm.Run.{dispatch, halts}
use brane.Dsl.Ast.{BinOp}
use brane.Dsl.Generator.Writer.{op}
use brane.Dsl.Generator.Compile.{operator_to_opcodes}
use brane.Dsl.Correct.Semantics.{Datum, int, bool, eq_datum, eval_binary, eval_unary}
use brane.Dsl.Correct.Exchange.{exchange}
use brane.Dsl.Correct.Chunks.{Loaded, Extends, Extends-op, Extends-trans, Loaded-Extends, fetch-op}
use brane.Dsl.Correct.Machine.{Frame, at, Runs, Runs-trans, Runs-step}
use brane.Dsl.Correct.Operators.{
  Shows, Yields, add-Yields, sub-Yields, mul-Yields, div-Yields, eq-Yields, gt-Yields, lt-Yields,
  and-Yields, or-Yields, not-Yields,
}

-- the chunk is the beginning of the function that runs, and its constants have indices of a byte
abbrev pub Fits : Frame → ChunkMut → Type 0
Fits m c = Loaded m.code (to_list m.constants) c × (count c.constants ≤ 256)

pub Fits-Extends : (m : Frame) {c d : ChunkMut} → Extends c d → Fits m d → Fits m c
Fits-Extends m p (l, n) = (Loaded-Extends p l, omega (arith, p.counts, n))

-- the operators that denote the negation of another one
abbrev Negates : BinOp → BinOp → Type 0
Negates o p =
    (a b d : Datum)
    → eval_binary o a b ≡ some d
    → (t : Bool) × (d ≡ bool (not t)) × (eval_binary p a b ≡ some (bool t))

ge-tests : Negates BinOp.ge BinOp.lt
unfolding eval_binary
ge-tests (int a) (int b) d e = (ltb_ℤ a b, sym (some_inj e), refl)
ge-tests _ _ d e = cc

le-tests : Negates BinOp.le BinOp.gt
unfolding eval_binary
le-tests (int a) (int b) d e = (ltb_ℤ b a, sym (some_inj e), refl)
le-tests _ _ d e = cc

ne-tests : Negates BinOp.ne BinOp.eq
unfolding eval_binary
ne-tests a b d e = (eq_datum a b, sym (some_inj e), refl)

pub dot-none : (a b d : Datum) → ¬ (eval_binary BinOp.dot a b ≡ some d)
unfolding eval_binary
dot-none a b d e = cc

module _ (f64 : F64) (external : Opcode → Op (Unit {0})) where
  -- The code that leads from `c` to `d` takes the stack `s` to `t`.
  abbrev pub Steps : Frame → ChunkMut → List Slot → ChunkMut → List Slot → Type 0
  Steps m c s d t = Runs f64 external m (length c.code) s (length d.code) t

  -- one instruction without an argument
  pub op-Steps :
      (m : Frame) (o : Opcode) (c : ChunkMut) (s t : List Slot)
      → Fits m (op o c)
      → dispatch f64 external o (at m (suc (length c.code)) s)
        ≡ (ok tt, at m (suc (length c.code)) t)
      → ((vm : Vm) → halts f64 external o vm ≡ false)
      → Steps m c s (op o c) t
  unfolding write
  op-Steps m o c s t (l, n) e stays =
      let size : length (c.code ++ to_u8 o ∷ []) ≡ suc (length c.code) =
        omega (arith, length-append c.code (to_u8 o ∷ [])) in
      rw size (
        Runs-step f64 external m o (length c.code) (suc (length c.code)) s t
          (fetch-op m.code (to_list m.constants) o c l) e (stays _))

  -- what the instructions of an operator do behind the code of its operands
  pub record Operates (o : BinOp) (a b d : Datum) (c : ChunkMut) : Type 0 where
    pub chunk : ChunkMut
    pub compiles : operator_to_opcodes o c ≡ ok chunk
    pub extends : Extends c chunk
    pub steps :
        (m : Frame) (s : List Slot) (x y : Slot)
        → Fits m chunk
        → Shows x a
        → Shows y b
        → (z : Slot) × Shows z d × Steps m c ((s ++ x ∷ []) ++ y ∷ []) chunk (s ++ z ∷ [])

  one-Steps :
      (o : Opcode) (a b d : Datum) (r : Option Datum) (c : ChunkMut)
      → ((vm : Vm) → halts f64 external o vm ≡ false)
      → ((m : Frame) (i : ℕ) (s : List Slot) (x y : Slot)
          → Shows x a
          → Shows y b
          → Yields m i s (dispatch f64 external o (at m i ((s ++ x ∷ []) ++ y ∷ []))) r)
      → r ≡ some d
      → (m : Frame) (s : List Slot) (x y : Slot) → Fits m (op o c)
      → Shows x a
      → Shows y b
      → (z : Slot) × Shows z d × Steps m c ((s ++ x ∷ []) ++ y ∷ []) (op o c) (s ++ z ∷ [])
  one-Steps o a b d r c stays yields e m s x y fits p q =
      let (z, runs, shows) = rw e at (yields m (suc (length c.code)) s x y p q) in
      (z, shows, op-Steps m o c _ _ fits runs stays)

  pub not-Steps :
      (m : Frame) (s : List Slot) (x : Slot) (b : Bool) (c : ChunkMut)
      → Fits m (op Opcode.not' c)
      → Shows x (bool b)
      → (z : Slot) × Shows z (bool (not b))
        × Steps m c (s ++ x ∷ []) (op Opcode.not' c) (s ++ z ∷ [])
  unfolding dispatch eval_unary
  not-Steps m s x b c fits p =
      let (z, runs, shows) = not-Yields f64 m (suc (length c.code)) s x (bool b) p in
      (z, shows, op-Steps m Opcode.not' c _ _ fits runs (λ vm. refl))

  -- an operator of one instruction
  Operates-one :
      (o : BinOp) (instruction : Opcode) (a b d : Datum) (c : ChunkMut)
      → operator_to_opcodes o c ≡ ok (op instruction c)
      → ((vm : Vm) → halts f64 external instruction vm ≡ false)
      → ((m : Frame) (i : ℕ) (s : List Slot) (x y : Slot)
          → Shows x a
          → Shows y b
          → Yields m i s
              (dispatch f64 external instruction (at m i ((s ++ x ∷ []) ++ y ∷ [])))
              (eval_binary (exchange o) a b))
      → eval_binary (exchange o) a b ≡ some d
      → Operates o a b d c
  Operates-one o instruction a b d c compiles stays yields e = record {
    chunk = op instruction c;
    compiles = compiles;
    extends = Extends-op instruction c;
    steps = one-Steps instruction a b d (eval_binary (exchange o) a b) c stays yields e;
  }

  -- an operator that is another one and `NOT`
  Operates-not :
      (o : BinOp) (instruction : Opcode) (a b : Datum) (t : Bool) (r : Option Datum) (c : ChunkMut)
      → operator_to_opcodes o c ≡ ok (op Opcode.not' (op instruction c))
      → ((vm : Vm) → halts f64 external instruction vm ≡ false)
      → ((m : Frame) (i : ℕ) (s : List Slot) (x y : Slot)
          → Shows x a
          → Shows y b
          → Yields m i s (dispatch f64 external instruction (at m i ((s ++ x ∷ []) ++ y ∷ []))) r)
      → r ≡ some (bool t)
      → Operates o a b (bool (not t)) c
  Operates-not o instruction a b t r c compiles stays yields e = record {
    chunk = op Opcode.not' (op instruction c);
    compiles = compiles;
    extends = Extends-trans (Extends-op instruction c) (Extends-op Opcode.not' (op instruction c));
    steps = λ m s x y fits p q.
        let (z, shows, first) =
          one-Steps instruction a b (bool t) r c stays yields e m s x y
            (Fits-Extends m (Extends-op Opcode.not' (op instruction c)) fits) p q in
        let (w, shows', second) = not-Steps m s z t (op instruction c) fits shows in
        (w, shows', Runs-trans f64 external m first second);
  }

  pub operates :
      (o : BinOp) (a b d : Datum) (c : ChunkMut)
      → eval_binary (exchange o) a b ≡ some d
      → Operates o a b d c
  unfolding dispatch operator_to_opcodes exchange
  operates BinOp.add a b d c e =
      Operates-one BinOp.add Opcode.add a b d c refl (λ vm. refl)
        (λ m i s x y p q. add-Yields f64 m i s x y a b p q) e
  operates BinOp.sub a b d c e =
      Operates-one BinOp.sub Opcode.substract a b d c refl (λ vm. refl)
        (λ m i s x y p q. sub-Yields f64 m i s x y a b p q) e
  operates BinOp.mul a b d c e =
      Operates-one BinOp.mul Opcode.multiply a b d c refl (λ vm. refl)
        (λ m i s x y p q. mul-Yields f64 m i s x y a b p q) e
  operates BinOp.div a b d c e =
      Operates-one BinOp.div Opcode.divide a b d c refl (λ vm. refl)
        (λ m i s x y p q. div-Yields f64 m i s x y a b p q) e
  operates BinOp.eq a b d c e =
      Operates-one BinOp.eq Opcode.equal a b d c refl (λ vm. refl)
        (λ m i s x y p q. eq-Yields f64 m i s x y a b p q) e
  operates BinOp.lt a b d c e =
      Operates-one BinOp.lt Opcode.less a b d c refl (λ vm. refl)
        (λ m i s x y p q. lt-Yields f64 m i s x y a b p q) e
  operates BinOp.gt a b d c e =
      Operates-one BinOp.gt Opcode.greater a b d c refl (λ vm. refl)
        (λ m i s x y p q. gt-Yields f64 m i s x y a b p q) e
  operates BinOp.and a b d c e =
      Operates-one BinOp.and Opcode.and a b d c refl (λ vm. refl)
        (λ m i s x y p q. and-Yields f64 m i s x y a b p q) e
  operates BinOp.or a b d c e =
      Operates-one BinOp.or Opcode.or a b d c refl (λ vm. refl)
        (λ m i s x y p q. or-Yields f64 m i s x y a b p q) e
  operates BinOp.dot a b d c e = absurd (dot-none a b d e)
  operates BinOp.le a b d c e =
      let (t, q, r) = ge-tests a b d e in
      rw q (
        Operates-not BinOp.le Opcode.greater a b t (eval_binary BinOp.lt a b) c refl (λ vm. refl)
          (λ m i s x y p q. gt-Yields f64 m i s x y a b p q) r)
  operates BinOp.ge a b d c e =
      let (t, q, r) = le-tests a b d e in
      rw q (
        Operates-not BinOp.ge Opcode.less a b t (eval_binary BinOp.gt a b) c refl (λ vm. refl)
          (λ m i s x y p q. lt-Yields f64 m i s x y a b p q) r)
  operates BinOp.ne a b d c e =
      let (t, q, r) = ne-tests a b d e in
      rw q (
        Operates-not BinOp.ne Opcode.equal a b t (eval_binary BinOp.eq a b) c refl (λ vm. refl)
          (λ m i s x y p q. eq-Yields f64 m i s x y a b p q) r)
