-- ===== src/Vm/Stack.antt =====
-- `Stack` of brane-bvm/src/stack.rs. The end of the list is the top.
pub mod Laws
use brane.Prelude.{
  ℕ, ◌+◌, Bool, true, false, Option, none, some, String, List, [], ◌∷◌, ◌++◌, length, get_elem?,
  take, split_last, swap_remove, Outcome, ok, err, panic, ltb, leb, ◌==◌, if◌then◌else◌,
}
use brane.Prelude.Exec.{Exec}
use brane.Prelude.Int.{ℤ, pos, negsuc}
use brane.Vm.Slot.{
  Slot, Handle, built_in, const_minus_one, const_minus_two, const_one, const_two, const_zero,
  false', true', unit, integer, real, object, data_type,
}

pub data StackError : Type 0 where
  unexpected_type : String → String → StackError
  not_using_const_opts : Slot → StackError

pub record Stack : Type 0 where
  pub inner : List Slot
  pub use_const : Bool

abbrev pub StackOp : Type 0 → Type 0
StackOp A = Stack → Outcome StackError A × Stack

unfoldable pub new : ℕ → Bool → Stack
new size use_const = record { inner = []; use_const = use_const }

unfoldable pub default : Stack
unfolding new
default = new 256 true

-- `get`; an index out of bounds panics
unfoldable pub get : ℕ → StackOp Slot
get index s = elim (get_elem? s.inner index) [ none ↦ (panic, s) | some slot ↦ (ok slot, s) ]

-- an error that names the type of a slot; where the name has none, making the error panics
abbrev pub unexpected : {A : Type 0} → String → Slot → Outcome StackError A
unexpected expected slot = elim (data_type slot) [
  | none ↦ panic
  | some got ↦ err (unexpected_type got expected)
]

abbrev pub as_boolean : Slot → Outcome StackError Bool
as_boolean false' = ok false
as_boolean true' = ok true
as_boolean slot = unexpected "Boolean" slot

unfoldable pub peek_boolean : StackOp Bool
peek_boolean s = elim (split_last s.inner) [
  | none ↦ (panic, s)
  | some (rest, top) ↦ (as_boolean top, s)
]

-- `inner.pop()`, and the panic on an empty stack that every `pop_*` begins with
abbrev pub popped : {A : Type 0} → (Slot → Outcome StackError A) → StackOp A
popped f s = elim (split_last s.inner) [
  | none ↦ (panic, s)
  | some (rest, top) ↦ (f top, record s { inner = rest })
]

unfoldable pub try_pop : StackOp (Option Slot)
try_pop s = elim (split_last s.inner) [
  | none ↦ (ok none, s)
  | some (rest, top) ↦ (ok (some top), record s { inner = rest })
]

-- an optimised constant as the integer that it stands for
abbrev pub plain : Slot → Slot
plain const_minus_one = integer (negsuc 0)
plain const_minus_two = integer (negsuc 1)
plain const_one = integer (pos 1)
plain const_two = integer (pos 2)
plain const_zero = integer (pos 0)
plain slot = slot

unfoldable pub pop : StackOp Slot
pop s = popped (λ slot. ok (if s.use_const then plain slot else slot)) s

-- `swap_remove` panics out of bounds
unfoldable pub copy_pop : ℕ → StackOp (Unit {0})
copy_pop index s =
    if ltb index (length s.inner)
    then (ok tt, record s { inner = swap_remove s.inner index })
    else (panic, s)

unfoldable pub pop_boolean : StackOp Bool
pop_boolean = popped as_boolean

abbrev pub as_integer : Bool → Slot → Outcome StackError ℤ
as_integer use_const const_minus_two =
    if use_const then ok (negsuc 1) else err (not_using_const_opts const_minus_two)
as_integer use_const const_minus_one =
    if use_const then ok (negsuc 0) else err (not_using_const_opts const_minus_one)
as_integer use_const const_zero =
    if use_const then ok (pos 0) else err (not_using_const_opts const_zero)
as_integer use_const const_one =
    if use_const then ok (pos 1) else err (not_using_const_opts const_one)
as_integer use_const const_two =
    if use_const then ok (pos 2) else err (not_using_const_opts const_two)
as_integer use_const (integer n) =
    if use_const then ok n else err (not_using_const_opts (integer n))
as_integer use_const slot = unexpected "Integer" slot

unfoldable pub pop_integer : StackOp ℤ
pop_integer s = popped (as_integer s.use_const) s

abbrev pub as_real : Slot → Outcome StackError ℕ
as_real (real n) = ok n
as_real slot = unexpected "Real" slot

unfoldable pub pop_real : StackOp ℕ
pop_real = popped as_real

abbrev pub as_handle : Slot → Outcome StackError Handle
as_handle (object h) = ok h
as_handle slot = unexpected "Object" slot

unfoldable pub pop_object : StackOp Handle
pop_object = popped as_handle

unfoldable pub get_object : ℕ → StackOp Handle
get_object index s = elim (get_elem? s.inner index) [
  | none ↦ (panic, s)
  | some slot ↦ (as_handle slot, s)
]

abbrev pub as_unit : Slot → Outcome StackError (Unit {0})
as_unit unit = ok tt
as_unit slot = unexpected "Unit" slot

unfoldable pub pop_unit : StackOp (Unit {0})
pop_unit = popped as_unit

unfoldable pub push : Slot → Stack → Stack
push slot s = record s { inner = s.inner ++ slot ∷ [] }

unfoldable pub try_push : Option Slot → Stack → Stack
try_push none s = s
try_push (some slot) s = record s { inner = s.inner ++ slot ∷ [] }

unfoldable pub copy_push : ℕ → StackOp (Unit {0})
copy_push index s = elim (get_elem? s.inner index) [
  | none ↦ (panic, s)
  | some elem ↦ (ok tt, record s { inner = s.inner ++ elem ∷ [] })
]

abbrev pub of_boolean : Bool → Slot
of_boolean false = false'
of_boolean true = true'

unfoldable pub push_boolean : Bool → Stack → Stack
push_boolean b s = record s { inner = s.inner ++ of_boolean b ∷ [] }

-- the optimised form of an integer
abbrev pub optimised : ℤ → Slot
optimised (negsuc n) =
    if n == 1 then const_minus_two else if n == 0 then const_minus_one else integer (negsuc n)
optimised (pos n) =
    if n == 0
    then const_zero
    else if n == 1
    then const_one
    else if n == 2
    then const_two
    else integer (pos n)

unfoldable pub push_integer : ℤ → Stack → Stack
push_integer n s = record s {
  inner = s.inner ++ (if s.use_const then optimised n else integer n) ∷ [];
}

unfoldable pub push_real : ℕ → Stack → Stack
push_real r s = record s { inner = s.inner ++ real r ∷ [] }

unfoldable pub push_object : Handle → Stack → Stack
push_object h s = record s { inner = s.inner ++ object h ∷ [] }

unfoldable pub push_unit : Stack → Stack
push_unit s = record s { inner = s.inner ++ unit ∷ [] }

unfoldable pub clear : Stack → Stack
clear s = record s { inner = [] }

unfoldable pub clear_from : ℕ → Stack → Stack
clear_from index s = record s { inner = take index s.inner }

unfoldable pub len : Stack → ℕ
len s = length s.inner
