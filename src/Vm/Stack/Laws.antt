-- ===== src/Vm/Stack/Laws.antt =====
-- What is pushed is popped.
use brane.Prelude.{
  ℕ, ◌<◌, ◌≡◌, Bool, true, false, List, [], ◌∷◌, ◌++◌, length, set, split_last-append,
  swap_remove-append, Outcome, ok, err, if◌then◌else◌, arith, Bool-cases, inl, inr, lt→ltb,
  length-append,
}
use brane.Prelude.Int.{ℤ, pos, negsuc}
use brane.Vm.Slot.{Slot, integer, false', true'}
use brane.Vm.Stack.{
  Stack, StackError, not_using_const_opts, popped, plain, optimised, pop, pop_integer, pop_boolean,
  push, push_integer, push_boolean, copy_pop, as_integer,
}

-- popping the slot that ends a stack
pub popped-append :
    {A : Type 0} (f : Slot → Outcome StackError A) (xs : List Slot) (x : Slot) (use_const : Bool)
    → popped f (record { inner = xs ++ x ∷ []; use_const = use_const })
      ≡ (f x, record { inner = xs; use_const = use_const })
popped-append f xs x use_const = rw (split_last-append xs x, popped)

pub plain-optimised : (n : ℤ) → plain (optimised n) ≡ integer n
plain-optimised (pos n) = ground arith
plain-optimised (negsuc n) = ground arith

as_integer-optimised : (n : ℤ) → as_integer true (optimised n) ≡ ok n
as_integer-optimised (pos n) = ground arith
as_integer-optimised (negsuc n) = ground arith

-- An integer that was pushed is popped as itself, optimised or not, and the stack is as before.
pub pop-push_integer : (n : ℤ) (s : Stack) → pop (push_integer n s) ≡ (ok (integer n), s)
unfolding pop push_integer
pop-push_integer n s =
    rw (popped-append _ s.inner (if s.use_const then optimised n else integer n) s.use_const)
      (elim (Bool-cases s.use_const) [ inl e ↦ rw (e, plain-optimised n) | inr e ↦ rw e ])

-- As an integer it is popped as itself where the optimisation is on; where it is off, `pop_integer`
-- refuses every integer.
pub pop_integer-push_integer :
    (n : ℤ) (s : Stack)
    → pop_integer (push_integer n s)
      ≡ (if s.use_const then ok n else err (not_using_const_opts (integer n)), s)
unfolding pop_integer push_integer
pop_integer-push_integer n s =
    rw (popped-append _ s.inner (if s.use_const then optimised n else integer n) s.use_const)
      (elim (Bool-cases s.use_const) [ inl e ↦ rw (e, as_integer-optimised n) | inr e ↦ rw e ])

-- A boolean that was pushed is popped as itself, and the stack is as before.
pub pop_boolean-push_boolean : (b : Bool) (s : Stack) → pop_boolean (push_boolean b s) ≡ (ok b, s)
unfolding pop_boolean push_boolean
pop_boolean-push_boolean true s = popped-append _ s.inner true' s.use_const
pop_boolean-push_boolean false s = popped-append _ s.inner false' s.use_const

pub pop-push :
    (x : Slot) (s : Stack) → pop (push x s) ≡ (ok (if s.use_const then plain x else x), s)
unfolding pop push
pop-push x s = rw (popped-append _ s.inner x s.use_const)

-- Storing the top in a slot below it: the slot takes the value, the top is gone, and every other
-- slot is as before.
pub copy_pop-push :
    (x : Slot) (s : Stack) (i : ℕ)
    → i < length s.inner
    → copy_pop i (push x s) ≡ (ok tt, record s { inner = set s.inner i x })
unfolding copy_pop push
copy_pop-push x s i h =
    rw (lt→ltb i (length (s.inner ++ x ∷ [])) (omega (arith, length-append s.inner (x ∷ []))))
      (rw (swap_remove-append s.inner i x))
