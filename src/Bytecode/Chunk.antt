-- ===== src/Bytecode/Chunk.antt =====
-- `ChunkMut` and `FunctionMut`: byte code that is being written.
use brane.Prelude.{ℕ, ◌+◌, ◌%◌, List, [], ◌∷◌, ◌++◌, String}
use brane.Value.{Value, Values, SpecFunction, spec_function, SpecClass}
use brane.Value

pub record ChunkMut : Type 0 where
  pub code : List ℕ
  pub constants : Values

pub record FunctionMut : Type 0 where
  pub arity : ℕ
  pub chunk : ChunkMut
  pub name : String

unfoldable pub default : ChunkMut
default = record { code = []; constants = Values.nil }

unfoldable pub write : ℕ → ChunkMut → ChunkMut
write byte c = record c { code = c.code ++ byte ∷ [] }

unfoldable pub write_pair : ℕ → ℕ → ChunkMut → ChunkMut
unfolding write
write_pair byte₁ byte₂ c = write byte₂ (write byte₁ c)

unfoldable pub write_bytes : List ℕ → ChunkMut → ChunkMut
write_bytes bytes c = record c { code = c.code ++ bytes }

-- The index is `(len as u8) - 1`, at `u8`: it wraps around at the 256th constant.
unfoldable pub add_constant : Value → ChunkMut → ℕ × ChunkMut
add_constant value c =
    let constants = Value.push c.constants value in
    ((Value.count constants + 255) % 256, record c { constants = constants })

unfoldable pub main : ChunkMut → FunctionMut
main chunk = record { arity = 0; chunk = chunk; name = "main" }

unfoldable pub new : String → ℕ → ChunkMut → FunctionMut
new name arity chunk = record { arity = arity; chunk = chunk; name = name }

-- `From<SpecFunction> for FunctionMut`, and back
unfoldable pub from_spec : SpecFunction → FunctionMut
unfolding new
from_spec (spec_function arity name code constants) =
    new name arity (record { code = code; constants = constants })

unfoldable pub to_spec : FunctionMut → SpecFunction
to_spec f = spec_function f.arity f.name f.chunk.code f.chunk.constants
