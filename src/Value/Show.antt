-- ===== src/Value/Show.antt =====
-- `Display for Value` of specifications/src/common.rs, over that of `i64` and of `f64`.
use Prim.Native.String.{◌++◌ as cat}
use brane.Prelude.{ℕ, true, false, String}
use brane.Prelude.Int.{ℤ}
use brane.Value.{Value, Values, Fields}

-- the standard library's `Display` of numbers
pub record Numbers : Type 0 where
  pub show_i64 : ℤ → String
  pub show_f64 : ℕ → String

unfoldable mutual
  pub show : Numbers → Value → String
  show n (Value.array _ entries) = cat "[" (cat (show_entries n entries) "]")
  show n (Value.boolean true) = "true"
  show n (Value.boolean false) = "false"
  show n (Value.integer i) = n.show_i64 i
  show n (Value.pointer _ variable _) = cat "@" variable
  show n (Value.real r) = n.show_f64 r
  show n (Value.struct data_type properties) =
      cat data_type (cat " {" (cat (show_fields n properties) "}"))
  show n (Value.unicode s) = s
  show n Value.unit = "unit"
  show n _ = "class/function: TODO"

  -- joined by ", "
  show_entries : Numbers → Values → String
  show_entries n Values.nil = ""
  show_entries n (Values.cons v vs) = cat (show n v) (show_more n vs)

  show_more : Numbers → Values → String
  show_more n Values.nil = ""
  show_more n (Values.cons v vs) = cat ", " (cat (show n v) (show_more n vs))

  show_fields : Numbers → Fields → String
  show_fields n Fields.end = ""
  show_fields n (Fields.field k v fs) = cat k (cat ": " (cat (show n v) (show_more_fields n fs)))

  show_more_fields : Numbers → Fields → String
  show_more_fields n Fields.end = ""
  show_more_fields n (Fields.field k v fs) =
      cat ", " (cat k (cat ": " (cat (show n v) (show_more_fields n fs))))
