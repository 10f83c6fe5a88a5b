-- ===== src/Bytecode/Opcodes.antt =====
-- `Opcode` and its numbers.
use brane.Prelude.{ℕ, ◌≡◌, refl, Option, none, some, ◌==◌, if◌then◌else◌}

pub data Opcode : Type 0 where
  add and array call class constant define_global divide dot equal false' get_global get_local :
      Opcode
  get_method get_property greater import index jump jump_back jump_if_false less loc loc_pop :
      Opcode
  loc_push multiply negate new not' or parallel pop pop_n return set_global set_local substract :
      Opcode
  true' unit : Opcode

-- `u8::from`: the discriminants, as the enum writes them out
abbrev pub to_u8 : Opcode → ℕ
to_u8 add = 0x01
to_u8 and = 0x02
to_u8 array = 0x03
to_u8 call = 0x04
to_u8 class = 0x05
to_u8 constant = 0x06
to_u8 define_global = 0x07
to_u8 divide = 0x08
to_u8 dot = 0x09
to_u8 equal = 0x0a
to_u8 false' = 0x0b
to_u8 get_global = 0x0c
to_u8 get_local = 0x0d
to_u8 greater = 0x0e
to_u8 import = 0x0f
to_u8 index = 0x10
to_u8 jump = 0x11
to_u8 jump_back = 0x12
to_u8 jump_if_false = 0x13
to_u8 less = 0x14
to_u8 loc_pop = 0x15
to_u8 loc_push = 0x16
to_u8 multiply = 0x17
to_u8 negate = 0x18
to_u8 new = 0x19
to_u8 not' = 0x1a
to_u8 or = 0x1b
to_u8 parallel = 0x1c
to_u8 pop = 0x1d
to_u8 pop_n = 0x1e
to_u8 return = 0x1f
to_u8 set_global = 0x20
to_u8 set_local = 0x21
to_u8 substract = 0x22
to_u8 true' = 0x23
to_u8 unit = 0x24
to_u8 loc = 0x25
to_u8 get_method = 0x26
to_u8 get_property = 0x27

-- `Opcode::from_u8` of `derive(FromPrimitive)`, generated code: the opcode with that discriminant, if
-- there is one
unfoldable pub from_u8 : ℕ → Option Opcode
from_u8 b =
    if b == 0x01
    then some add
    else if b == 0x02
    then some and
    else if b == 0x03
    then some array
    else if b == 0x04
    then some call
    else if b == 0x05
    then some class
    else if b == 0x06
    then some constant
    else if b == 0x07
    then some define_global
    else if b == 0x08
    then some divide
    else if b == 0x09
    then some dot
    else if b == 0x0a
    then some equal
    else if b == 0x0b
    then some false'
    else if b == 0x0c
    then some get_global
    else if b == 0x0d
    then some get_local
    else if b == 0x0e
    then some greater
    else if b == 0x0f
    then some import
    else if b == 0x10
    then some index
    else if b == 0x11
    then some jump
    else if b == 0x12
    then some jump_back
    else if b == 0x13
    then some jump_if_false
    else if b == 0x14
    then some less
    else if b == 0x15
    then some loc_pop
    else if b == 0x16
    then some loc_push
    else if b == 0x17
    then some multiply
    else if b == 0x18
    then some negate
    else if b == 0x19
    then some new
    else if b == 0x1a
    then some not'
    else if b == 0x1b
    then some or
    else if b == 0x1c
    then some parallel
    else if b == 0x1d
    then some pop
    else if b == 0x1e
    then some pop_n
    else if b == 0x1f
    then some return
    else if b == 0x20
    then some set_global
    else if b == 0x21
    then some set_local
    else if b == 0x22
    then some substract
    else if b == 0x23
    then some true'
    else if b == 0x24
    then some unit
    else if b == 0x25
    then some loc
    else if b == 0x26
    then some get_method
    else if b == 0x27
    then some get_property
    else none

-- Every opcode is read back from its number.
pub from_u8-to_u8 : (op : Opcode) → from_u8 (to_u8 op) ≡ some op
unfolding from_u8
from_u8-to_u8 add = refl
from_u8-to_u8 _ = refl
