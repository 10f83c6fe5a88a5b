-- ===== src/Dsl/Generator/Writer.antt =====
-- What the compiler writes to a chunk: single instructions, jumps that are patched later, and the
-- table of locals. A place that the source takes to be unreachable panics.
use brane.Prelude.{
  ℕ, zero, suc, ◌+◌, ◌-◌, ◌/◌, ◌%◌, true, false, Option, none, some, String, List, [], ◌∷◌, ◌++◌,
  length, set, split_last, Outcome, leb, ltb, str_eq, if◌then◌else◌,
}
use brane.Value.{Value}
use brane.Bytecode.Opcodes.{Opcode, to_u8}
use brane.Bytecode.Chunk.{ChunkMut, write, write_pair, write_bytes, add_constant}

pub record Local : Type 0 where
  pub name : String
  pub depth : ℕ

-- what the compiler changes: the chunk and the locals; the scope is passed down
pub record Gen : Type 0 where
  pub chunk : ChunkMut
  pub locals : List Local

abbrev pub Emit : Type 0
Emit = ChunkMut → Outcome ⊥ ChunkMut

-- an instruction, alone and with a byte
abbrev pub op : Opcode → ChunkMut → ChunkMut
op o = write (to_u8 o)

abbrev pub op_byte : Opcode → ℕ → ChunkMut → ChunkMut
op_byte o b = write_pair (to_u8 o) b

-- an instruction with a new constant
unfoldable pub op_constant : Opcode → Value → ChunkMut → ChunkMut
op_constant o v c = let (i, c') = add_constant v c in op_byte o i c'

-- `locals.iter().position(|l| l.name == ident)`: the first, so the outermost, local of that name
unfoldable pub position : String → List Local → Option ℕ
position ident [] = none
position ident (l ∷ ls) =
    if str_eq l.name ident
    then some 0
    else elim (position ident ls) [ none ↦ none | some i ↦ some (suc i) ]

-- a name: a local, or a global by its name
unfoldable pub ident_to_opcodes : Opcode → Opcode → String → List Local → ChunkMut → ChunkMut
unfolding position op_constant
ident_to_opcodes local global ident locals c = elim (position ident locals) [
  | some index ↦ op_byte local (index % 256) c
  | none ↦ op_constant global (Value.unicode ident) c
]

-- the jump instruction with its placeholder, which starts at the length that the chunk had, plus 1
abbrev pub placeholder : Opcode → ChunkMut → ChunkMut
placeholder o c = write_pair 0 0 (op o c)

-- the distance from behind the placeholder at `plh_pos` to the end, as the two bytes of a `u16`
unfoldable pub patch : ℕ → ChunkMut → ChunkMut
patch plh_pos c =
    let distance = (length c.code - plh_pos - 2) % 65536 in
    record c { code = set (set c.code plh_pos (distance / 256)) (plh_pos + 1) (distance % 256) }

-- `JUMP_BACK` to `loop_start`
unfoldable pub jump_back : ℕ → ChunkMut → ChunkMut
jump_back loop_start c =
    let c' = op Opcode.jump_back c in
    let distance = (length c'.code - loop_start + 2) % 65536 in
    write_bytes ((distance / 256) ∷ (distance % 256) ∷ []) c'

-- The loop that removes the locals of a scope, with the rounds that are left: how many it has
-- removed, and those that stay.
unfoldable pub drop_locals : ℕ → ℕ → ℕ → List Local → ℕ × List Local
drop_locals zero scope n locals = (n, locals)
drop_locals (suc rounds) scope n locals = elim (split_last locals) [
  | none ↦ (n, locals)
  | some (rest, local) ↦ elim (leb scope local.depth) [
    | true ↦ drop_locals rounds scope (suc n) rest
    | false ↦ (n, locals)
  ]
]

-- The number that was removed is a `u8`.
abbrev pub pop_code : ℕ → ChunkMut → ChunkMut
pop_code zero c = c
pop_code (suc zero) c = op Opcode.pop c
pop_code n c = op_byte Opcode.pop_n n c

unfoldable pub end_scope : ℕ → Gen → Gen
unfolding drop_locals
end_scope scope g =
    let (n, locals) = drop_locals (length g.locals) scope 0 g.locals in
    record { chunk = pop_code (n % 256) g.chunk; locals = locals }

-- a `let` inside a scope notes a local; outside, it defines a global
unfoldable pub bind_name : String → ℕ → Gen → Gen
unfolding op_constant
bind_name ident scope g =
    if ltb 0 scope
    then record g { locals = g.locals ++ record { name = ident; depth = scope } ∷ [] }
    else record g { chunk = op_constant Opcode.define_global (Value.unicode ident) g.chunk }
