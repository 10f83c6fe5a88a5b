-- ===== src/Vm/Slot.antt =====
-- `Slot` of brane-bvm/src/stack.rs and `Object` of brane-bvm/src/objects.rs.
--
-- A handle is an `Arc`: an address and the object behind it, which never changes, so that `get`
-- is a projection and two handles are equal if their addresses are.
use Prim.Native.String.{◌++◌ as cat}
use brane.Prelude.{
  ℕ, Bool, true, false, Option, none, some, String, List, [], ◌∷◌, ◌==◌, if◌then◌else◌, Ordering,
  str_eq,
}
use brane.Prelude.Int.{ℤ, eqb_ℤ}
use brane.Value.{FunctionExt, PackageKind, ecu, oas, dsl, cwl}

-- `BuiltinFunction` of brane-bvm/src/builtins.rs
pub data BuiltinFunction : Type 0 where
  undefined print wait_until_started wait_until_done : BuiltinFunction

abbrev pub builtin_eq : BuiltinFunction → BuiltinFunction → Bool
builtin_eq undefined undefined = true
builtin_eq print print = true
builtin_eq wait_until_started wait_until_started = true
builtin_eq wait_until_done wait_until_done = true
builtin_eq _ _ = false

mutual
  -- `real` holds the bits of the `f64`.
  pub data Slot : Type 0 where
    built_in : BuiltinFunction → Slot
    const_minus_one const_minus_two const_one const_two const_zero : Slot
    false' true' unit : Slot
    integer : ℤ → Slot
    real : ℕ → Slot
    object : Handle → Slot

  pub data Handle : Type 0 where
    handle : ℕ → Object → Handle

  -- A class has a name and methods; a function a name, an arity, code and constants; an instance
  -- a class and properties.
  pub data Object : Type 0 where
    array : String → Slots → Object
    class : String → Props → Object
    function : String → ℕ → List ℕ → Slots → Object
    function_ext : FunctionExt → Object
    instance' : Handle → Props → Object
    string : String → Object

  -- `Vec<Slot>`
  pub data Slots : Type 0 where
    nil : Slots
    cons : Slot → Slots → Slots

  -- `FnvHashMap<String, Slot>`
  pub data Props : Type 0 where
    end : Props
    prop : String → Slot → Props → Props

abbrev pub to_list : Slots → List Slot
to_list nil = []
to_list (cons s ss) = s ∷ to_list ss

abbrev pub from_list : List Slot → Slots
from_list [] = nil
from_list (s ∷ ss) = cons s (from_list ss)

abbrev pub get : Handle → Object
get (handle _ o) = o

abbrev pub address : Handle → ℕ
address (handle a _) = a

-- the handles in a slot and in an object
abbrev pub slot_refs : Slot → List ℕ
slot_refs (object (handle a _)) = a ∷ []
slot_refs _ = []

abbrev pub slots_refs : List Slot → List ℕ
slots_refs [] = []
slots_refs (s ∷ ss) = elim s [ object h ↦ address h ∷ slots_refs ss | _ ↦ slots_refs ss ]

abbrev pub props_refs : Props → List ℕ
props_refs end = []
props_refs (prop _ s ps) = elim s [ object h ↦ address h ∷ props_refs ps | _ ↦ props_refs ps ]

unfoldable pub object_refs : Object → List ℕ
object_refs (array _ elements) = slots_refs (to_list elements)
object_refs (class _ methods) = props_refs methods
object_refs (function _ _ _ constants) = slots_refs (to_list constants)
object_refs (function_ext _) = []
object_refs (instance' c ps) = address c ∷ props_refs ps
object_refs (string _) = []

-- `get` and `insert` of a map
unfoldable pub find : String → Props → Option Slot
find k end = none
find k (prop j s ps) = if str_eq j k then some s else find k ps

unfoldable pub put : String → Slot → Props → Props
put k s end = prop k s end
put k s (prop j t ps) = if str_eq j k then prop k s ps else prop j t (put k s ps)

-- `as_object`
abbrev pub as_object : Slot → Option Handle
as_object (object h) = some h
as_object _ = none

-- `as_class`, `as_function` and `as_string`; a class and a function are handed on by their object
abbrev pub as_class : Object → Option String
as_class (class name _) = some name
as_class _ = none

abbrev pub as_string : Object → Option String
as_string (string s) = some s
as_string _ = none

-- `f64`: what the code does with floating-point numbers, on their bits
pub record F64 : Type 0 where
  pub add : ℕ → ℕ → ℕ
  pub sub : ℕ → ℕ → ℕ
  pub mul : ℕ → ℕ → ℕ
  pub div : ℕ → ℕ → ℕ
  pub neg : ℕ → ℕ
  pub of_i64 : ℤ → ℕ
  pub partial_cmp : ℕ → ℕ → Option Ordering

abbrev pub is_less : Option Ordering → Bool
is_less (some Ordering.lt) = true
is_less _ = false

abbrev pub is_greater : Option Ordering → Bool
is_greater (some Ordering.gt) = true
is_greater _ = false

abbrev pub is_equal : Option Ordering → Bool
is_equal (some Ordering.eq) = true
is_equal _ = false

-- `Display` of `PackageKind`
abbrev pub kind_text : PackageKind → String
kind_text ecu = "ecu"
kind_text oas = "oas"
kind_text dsl = "dsl"
kind_text cwl = "cwl"

-- `format!("{}<{}>", kind, of)`
abbrev pub angle : String → String → String
angle kind of = cat kind (cat "<" (cat of ">"))

-- `Object::data_type`; `none` where an instance has no class behind it, which panics
unfoldable pub object_data_type : Object → Option String
object_data_type (array t _) = some (angle "Array" t)
object_data_type (class name _) = some (angle "Class" name)
object_data_type (function name _ _ _) = some (angle "Function" name)
object_data_type (function_ext f) =
    some (angle "FunctionExt" (cat f.name (cat "; " (kind_text f.kind))))
object_data_type (instance' (handle _ o) _) = elim (as_class o) [
  | none ↦ none
  | some name ↦ some (angle "Instance" name)
]
object_data_type (string _) = some "String"

-- `Slot::data_type`
unfoldable pub data_type : Slot → Option String
unfolding object_data_type
data_type (built_in _) = some "BuiltIn"
data_type false' = some "Boolean"
data_type true' = some "Boolean"
data_type (real _) = some "Real"
data_type unit = some "Unit"
data_type (object (handle _ o)) = object_data_type o
data_type _ = some "Integer"

-- `eq` of `PartialEq for Slot`
unfoldable pub eq : F64 → Slot → Slot → Bool
eq f64 (built_in a) (built_in b) = builtin_eq a b
eq f64 const_minus_one const_minus_one = true
eq f64 const_minus_two const_minus_two = true
eq f64 const_one const_one = true
eq f64 const_two const_two = true
eq f64 const_zero const_zero = true
eq f64 false' false' = true
eq f64 (integer a) (integer b) = eqb_ℤ a b
eq f64 (real a) (real b) = is_equal (f64.partial_cmp a b)
eq f64 true' true' = true
eq f64 unit unit = true
eq f64 (object a) (object b) = address a == address b
eq f64 _ _ = false
