-- ===== src/Dsl/Correct/Operators.antt =====
-- The instructions of the operators, on operands that stand for data.
use brane.Prelude.{
  ℕ, ◌≡◌, refl, ◌∙◌, Bool, true, false, not, ◌&&◌, ◌||◌, Bool-cases, inl, inr, Option, none, some,
  String, List, [], ◌∷◌, ◌++◌, Outcome, ok,
}
use brane.Prelude.Int.{ℤ, pos, negsuc, ◌+ℤ◌, ◌-ℤ◌, ◌*ℤ◌, quot_ℤ, wrap, eqb_ℤ, ltb_ℤ}
use brane.Vm.Slot.{Slot, F64, integer, true', false', eq}
use brane.Vm.Stack
use brane.Vm.Stack.{plain, optimised, of_boolean}
use brane.Vm.Stack.Laws.{popped-append, plain-optimised}
use brane.Vm.State.{VmError, Vm, Op}
use brane.Vm.Ops.Math.{
  pop_slot, operands, op_add, op_substract, op_multiply, op_divide, op_negate, divide,
  divide_integers,
}
use brane.Vm.Ops.Logic.{pop_boolean, op_and, op_or, op_not, op_equal, op_greater, op_less}
use brane.Dsl.Ast.{BinOp, UnOp}
use brane.Dsl.Correct.Semantics.{Datum, int, bool, unit, eq_datum, div_int, eval_binary, eval_unary}
use brane.Dsl.Correct.Machine.{Frame, at}

-- the slot of a datum, and a slot that stands for it, optimised or not
abbrev pub slot_of : Datum → Slot
slot_of (int n) = integer n
slot_of (bool b) = of_boolean b
slot_of unit = Slot.unit

abbrev pub Shows : Slot → Datum → Type 0
Shows x d = plain x ≡ slot_of d

Shows-boolean : (x : Slot) (b : Bool) → Shows x (bool b) → x ≡ of_boolean b
Shows-boolean true' true h = refl
Shows-boolean false' false h = refl
Shows-boolean _ true h = cc
Shows-boolean _ false h = cc

plain-of_boolean : (b : Bool) → plain (of_boolean b) ≡ of_boolean b
plain-of_boolean true = refl
plain-of_boolean false = refl

-- the machine popped its operands and pushed a slot for `d`
abbrev pub Yields : Frame → ℕ → List Slot → Outcome VmError (Unit {0}) × Vm → Option Datum → Type 0
Yields m a s r none = Unit
Yields m a s r (some d) = (z : Slot) × (r ≡ (ok tt, at m a (s ++ z ∷ []))) × Shows z d

eq-slot_of : (f64 : F64) (a b : Datum) → eq f64 (slot_of a) (slot_of b) ≡ eq_datum a b
unfolding eq
eq-slot_of f64 (bool true) (bool true) = refl
eq-slot_of f64 (bool true) (bool false) = refl
eq-slot_of f64 (bool false) (bool true) = refl
eq-slot_of f64 (bool false) (bool false) = refl
eq-slot_of f64 (bool true) _ = refl
eq-slot_of f64 (bool false) _ = refl
eq-slot_of f64 (int a) (bool true) = refl
eq-slot_of f64 (int a) (bool false) = refl
eq-slot_of f64 unit (bool true) = refl
eq-slot_of f64 unit (bool false) = refl
eq-slot_of f64 _ _ = refl

-- the value on top, popped
pub pop_slot-at :
    (what : String) (m : Frame) (i : ℕ) (t : List Slot) (x : Slot)
    → pop_slot what (at m i (t ++ x ∷ [])) ≡ (ok (plain x), at m i t)
unfolding Stack.pop
pop_slot-at what m i t x = rw (popped-append (λ slot. ok (plain slot)) t x true) refl

module _ (f64 : F64) (m : Frame) (i : ℕ) (s : List Slot) where
  operands-at :
      (what : String) (f : Slot → Slot → Op (Unit {0})) (x y : Slot) (a b : Datum)
      → Shows x a
      → Shows y b
      → operands what f (at m i ((s ++ x ∷ []) ++ y ∷ [])) ≡ f (slot_of a) (slot_of b) (at m i s)
  operands-at what f x y a b p q =
      rw (pop_slot-at what m i (s ++ x ∷ []) y, pop_slot-at what m i s x, p, q) refl

  pop_boolean-at :
      (what : String) (t : List Slot) (x : Slot) (b : Bool)
      → Shows x (bool b)
      → pop_boolean what (at m i (t ++ x ∷ [])) ≡ (ok b, at m i t)
  unfolding Stack.pop_boolean
  pop_boolean-at what t x true h =
      rw (Shows-boolean x true h) (rw (popped-append Stack.as_boolean t true' true) refl)
  pop_boolean-at what t x false h =
      rw (Shows-boolean x false h) (rw (popped-append Stack.as_boolean t false' true) refl)

  divide_integers-Yields :
      (a b : ℤ) → Yields m i s (divide_integers f64 a b (at m i s)) (div_int a b)
  unfolding Stack.push_integer
  divide_integers-Yields a b = elim (Bool-cases (eqb_ℤ b (pos 0))) [
    | inl zero ↦ rw zero tt
    | inr nonzero ↦ elim (Bool-cases (eqb_ℤ a (negsuc 9223372036854775807) && eqb_ℤ b (negsuc 0))) [
      | inl least ↦ rw (nonzero, least) tt
      | inr fits ↦ rw (nonzero, fits) (optimised (quot_ℤ a b), refl, plain-optimised _)
    ]
  ]

  module _ (x y : Slot) where
    -- the machine behind the two operands
    abbrev both : Vm
    both = at m i ((s ++ x ∷ []) ++ y ∷ [])

    pub add-Yields :
        (a b : Datum)
        → Shows x a
        → Shows y b
        → Yields m i s (op_add f64 both) (eval_binary BinOp.add a b)
    unfolding op_add eval_binary Stack.push_integer
    add-Yields (int a) (int b) p q =
        (optimised (wrap (a +ℤ b)), operands-at _ _ x y (int a) (int b) p q, plain-optimised _)
    add-Yields _ _ p q = tt

    pub sub-Yields :
        (a b : Datum)
        → Shows x a
        → Shows y b
        → Yields m i s (op_substract f64 both) (eval_binary BinOp.sub a b)
    unfolding op_substract eval_binary Stack.push_integer
    sub-Yields (int a) (int b) p q =
        (optimised (wrap (a -ℤ b)), operands-at _ _ x y (int a) (int b) p q, plain-optimised _)
    sub-Yields _ _ p q = tt

    pub mul-Yields :
        (a b : Datum)
        → Shows x a
        → Shows y b
        → Yields m i s (op_multiply f64 both) (eval_binary BinOp.mul a b)
    unfolding op_multiply eval_binary Stack.push_integer
    mul-Yields (int a) (int b) p q =
        (optimised (wrap (a *ℤ b)), operands-at _ _ x y (int a) (int b) p q, plain-optimised _)
    mul-Yields _ _ p q = tt

    pub eq-Yields :
        (a b : Datum)
        → Shows x a
        → Shows y b
        → Yields m i s (op_equal f64 both) (eval_binary BinOp.eq a b)
    unfolding op_equal eval_binary Stack.push_boolean
    eq-Yields a b p q = (
      of_boolean (eq_datum a b),
      operands-at _ _ x y a b p q ∙ rw (eq-slot_of f64 a b) refl,
      plain-of_boolean _,
    )

    pub gt-Yields :
        (a b : Datum)
        → Shows x a
        → Shows y b
        → Yields m i s (op_greater f64 both) (eval_binary BinOp.lt a b)
    unfolding op_greater eval_binary Stack.push_boolean
    gt-Yields (int a) (int b) p q =
        (of_boolean (ltb_ℤ a b), operands-at _ _ x y (int a) (int b) p q, plain-of_boolean _)
    gt-Yields _ _ p q = tt

    pub lt-Yields :
        (a b : Datum)
        → Shows x a
        → Shows y b
        → Yields m i s (op_less f64 both) (eval_binary BinOp.gt a b)
    unfolding op_less eval_binary Stack.push_boolean
    lt-Yields (int a) (int b) p q =
        (of_boolean (ltb_ℤ b a), operands-at _ _ x y (int a) (int b) p q, plain-of_boolean _)
    lt-Yields _ _ p q = tt

    pub and-Yields :
        (a b : Datum)
        → Shows x a
        → Shows y b
        → Yields m i s (op_and both) (eval_binary BinOp.and a b)
    unfolding op_and eval_binary Stack.push_boolean
    and-Yields (bool a) (bool b) p q = (
      of_boolean (a && b),
      rw
          (
            pop_boolean-at "a boolean value" (s ++ x ∷ []) y b q,
            pop_boolean-at "a boolean value" s x a p,
          )
          refl,
      plain-of_boolean _,
    )
    and-Yields _ _ p q = tt

    pub or-Yields :
        (a b : Datum) → Shows x a → Shows y b → Yields m i s (op_or both) (eval_binary BinOp.or a b)
    unfolding op_or eval_binary Stack.push_boolean
    or-Yields (bool a) (bool b) p q = (
      of_boolean (a || b),
      rw (pop_boolean-at "a boolean" (s ++ x ∷ []) y b q, pop_boolean-at "a boolean" s x a p) refl,
      plain-of_boolean _,
    )
    or-Yields _ _ p q = tt

    pub div-Yields :
        (a b : Datum)
        → Shows x a
        → Shows y b
        → Yields m i s (op_divide f64 both) (eval_binary BinOp.div a b)
    unfolding op_divide eval_binary Stack.push_integer
    div-Yields (int a) (int b) p q =
        rw (operands-at "a numeric value" (divide f64) x y (int a) (int b) p q)
          (divide_integers-Yields a b)
    div-Yields _ _ p q = tt

  pub not-Yields :
      (x : Slot) (a : Datum)
      → Shows x a
      → Yields m i s (op_not (at m i (s ++ x ∷ []))) (eval_unary UnOp.not' a)
  unfolding op_not eval_unary Stack.push_boolean
  not-Yields x (bool b) p =
      (of_boolean (not b), rw (pop_boolean-at "a boolean" s x b p) refl, plain-of_boolean _)
  not-Yields x _ p = tt

  pub neg-Yields :
      (x : Slot) (a : Datum)
      → Shows x a
      → Yields m i s (op_negate f64 (at m i (s ++ x ∷ []))) (eval_unary UnOp.neg a)
  unfolding op_negate eval_unary Stack.push
  neg-Yields x (int a) p =
      (integer (wrap (pos 0 -ℤ a)), rw (pop_slot-at "a numeric value" m i s x, p) refl, refl)
  neg-Yields x _ p = tt
