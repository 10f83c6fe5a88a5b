-- ===== src/Value.antt =====
-- The values that cross the boundary of the virtual machine: specifications/src/common.rs.
pub mod Show
use brane.Prelude.{ℕ, Bool, Option, String, List}
use brane.Prelude.Int.{ℤ}
use brane.Version.{Version}

-- `PackageKind` of specifications/src/package.rs
pub data PackageKind : Type 0 where
  ecu oas dsl cwl : PackageKind

-- `Parameter`, without the default value, which nothing here reads
pub record Parameter : Type 0 where
  pub data_type : String
  pub name : String
  pub optional : Option Bool
  pub secret : Option String

pub record FunctionExt : Type 0 where
  pub name : String
  pub detached : Bool
  pub digest : String
  pub package_name : String
  pub kind : PackageKind
  pub version : Version
  pub parameters : List Parameter

-- A `HashMap` is an association list. `real` holds the bits of the `f64`.
mutual
  pub data Value : Type 0 where
    array : String → Values → Value
    boolean : Bool → Value
    integer : ℤ → Value
    pointer : String → String → Bool → Value
    real : ℕ → Value
    struct : String → Fields → Value
    unicode : String → Value
    unit : Value
    class : SpecClass → Value
    function : SpecFunction → Value
    function_ext : FunctionExt → Value

  -- `Vec<Value>`
  pub data Values : Type 0 where
    nil : Values
    cons : Value → Values → Values

  -- `Map<Value>`
  pub data Fields : Type 0 where
    end : Fields
    field : String → Value → Fields → Fields

  -- the name, the properties and the methods
  pub data SpecClass : Type 0 where
    spec_class : String → List (String × String) → Methods → SpecClass

  pub data Methods : Type 0 where
    no_methods : Methods
    method : String → SpecFunction → Methods → Methods

  -- the arity, the name, and the code and constants of its `Bytecode`
  pub data SpecFunction : Type 0 where
    spec_function : ℕ → String → List ℕ → Values → SpecFunction

unfoldable pub data_type : Value → String
data_type (array t _) = t
data_type (boolean _) = "boolean"
data_type (integer _) = "integer"
data_type (pointer t _ _) = t
data_type (real _) = "real"
data_type (struct t _) = t
data_type (unicode _) = "string"
data_type unit = "unit"
data_type (function _) = "function"
data_type (class _) = "class"
data_type (function_ext _) = "FunctionExt"

-- `add_constant` pushes at the end of a `Vec<Value>`
abbrev pub push : Values → Value → Values
push nil v = cons v nil
push (cons w ws) v = cons w (push ws v)

abbrev pub count : Values → ℕ
count nil = 0
count (cons v vs) = ℕ.suc (count vs)
