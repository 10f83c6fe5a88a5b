-- ===== src/Dsl/Correct/Chunks.antt =====
-- Chunks that grow: what is written stays where it is.
use brane.Prelude.{
  ℕ, zero, suc, ◌+◌, ◌%◌, ◌≤◌, ◌≡◌, refl, Option, none, some, List, [], ◌∷◌, ◌++◌, length,
  get_elem?, get_elem?-append, get_elem?-append_some, get_elem?-append_second, length-append, arith,
}
use brane.Value.{Value, Values, push, count, nil, cons}
use brane.Vm.Slot.{Slot, integer, object, handle, string}
use brane.Bytecode.Opcodes.{Opcode, to_u8}
use brane.Bytecode.Chunk.{ChunkMut, write, write_pair, add_constant}
use brane.Dsl.Generator.Writer.{op, op_byte, op_constant}

abbrev pub value_at : Values → ℕ → Option Value
value_at nil i = none
value_at (cons v vs) zero = some v
value_at (cons v vs) (suc i) = value_at vs i

-- the slot that `freeze` makes of an integer and of a string
abbrev pub Froze : Value → Slot → Type 0
Froze (Value.integer z) x = x ≡ integer z
Froze (Value.unicode s) x = (a : ℕ) × (x ≡ object (handle a (string s)))
Froze _ x = Unit

-- `code` and `constants` begin with those of the chunk, frozen
pub record Loaded (code : List ℕ) (constants : List Slot) (c : ChunkMut) : Type 0 where
  pub code_at : (i b : ℕ) → get_elem? c.code i ≡ some b → get_elem? code i ≡ some b
  pub constant_at :
      (i : ℕ) (v : Value)
      → value_at c.constants i ≡ some v
      → (x : Slot) × (get_elem? constants i ≡ some x) × Froze v x

-- `d` has all that `c` has, where it is in `c`
pub record Extends (c d : ChunkMut) : Type 0 where
  pub code_at : (i b : ℕ) → get_elem? c.code i ≡ some b → get_elem? d.code i ≡ some b
  pub constant_at :
      (i : ℕ) (v : Value) → value_at c.constants i ≡ some v → value_at d.constants i ≡ some v
  pub counts : count c.constants ≤ count d.constants

pub Extends-refl : (c : ChunkMut) → Extends c c
Extends-refl c = record { code_at = λ i b h. h; constant_at = λ i v h. h; counts = omega arith }

pub Extends-trans : {c d e : ChunkMut} → Extends c d → Extends d e → Extends c e
Extends-trans p q = record {
  code_at = λ i b h. q.code_at i b (p.code_at i b h);
  constant_at = λ i v h. q.constant_at i v (p.constant_at i v h);
  counts = omega (arith, p.counts, q.counts);
}

pub Loaded-Extends :
    {code : List ℕ} {constants : List Slot} {c d : ChunkMut}
    → Extends c d
    → Loaded code constants d
    → Loaded code constants c
Loaded-Extends p l = record {
  code_at = λ i b h. l.code_at i b (p.code_at i b h);
  constant_at = λ i v h. l.constant_at i v (p.constant_at i v h);
}

value_at-push_left :
    (vs : Values) (v w : Value) (i : ℕ) → value_at vs i ≡ some w → value_at (push vs v) i ≡ some w
value_at-push_left nil v w i h = cc
value_at-push_left (cons u vs) v w zero h = h
value_at-push_left (cons u vs) v w (suc i) h = value_at-push_left vs v w i h

value_at-push : (vs : Values) (v : Value) → value_at (push vs v) (count vs) ≡ some v
value_at-push nil v = refl
value_at-push (cons u vs) v = value_at-push vs v

count-push : (vs : Values) (v : Value) → count (push vs v) ≡ suc (count vs)
count-push nil v = refl
count-push (cons u vs) v = rw (count-push vs v)

pub Extends-op : (o : Opcode) (c : ChunkMut) → Extends c (op o c)
unfolding write
Extends-op o c = record {
  code_at = λ i b h. get_elem?-append_some c.code (to_u8 o ∷ []) i h;
  constant_at = λ i v h. h;
  counts = omega arith;
}

pub Extends-op_byte : (o : Opcode) (b : ℕ) (c : ChunkMut) → Extends c (op_byte o b c)
unfolding write write_pair
Extends-op_byte o b c = record {
  code_at = λ i x h.
      get_elem?-append_some (c.code ++ to_u8 o ∷ []) (b ∷ []) i
        (get_elem?-append_some c.code (to_u8 o ∷ []) i h);
  constant_at = λ i v h. h;
  counts = omega arith;
}

pub Extends-op_constant : (o : Opcode) (v : Value) (c : ChunkMut) → Extends c (op_constant o v c)
unfolding write write_pair op_constant add_constant
Extends-op_constant o v c = record {
  code_at = λ i x h.
      get_elem?-append_some (c.code ++ to_u8 o ∷ []) _ i
        (get_elem?-append_some c.code (to_u8 o ∷ []) i h);
  constant_at = λ i w h. value_at-push_left c.constants v w i h;
  counts = omega (arith, count-push c.constants v);
}

pub length-op : (o : Opcode) (c : ChunkMut) → length (op o c).code ≡ suc (length c.code)
unfolding write
length-op o c = omega (arith, length-append c.code (to_u8 o ∷ []))

pub length-op_byte :
    (o : Opcode) (b : ℕ) (c : ChunkMut) → length (op_byte o b c).code ≡ suc (suc (length c.code))
unfolding write write_pair
length-op_byte o b c =
    omega
      (arith, length-append (c.code ++ to_u8 o ∷ []) (b ∷ []), length-append c.code (to_u8 o ∷ []))

pub length-op_constant :
    (o : Opcode) (v : Value) (c : ChunkMut)
    → length (op_constant o v c).code ≡ suc (suc (length c.code))
unfolding op_constant add_constant
length-op_constant o v c =
    length-op_byte o ((count (push c.constants v) + 255) % 256)
      (record c { constants = push c.constants v })

module _ (code : List ℕ) (constants : List Slot) where
  -- the byte of an instruction
  pub fetch-op :
      (o : Opcode) (c : ChunkMut)
      → Loaded code constants (op o c)
      → get_elem? code (length c.code) ≡ some (to_u8 o)
  unfolding write
  fetch-op o c l = l.code_at _ _ (get_elem?-append c.code (to_u8 o) [])

  -- the two bytes of an instruction with an argument
  pub fetch-op_byte :
      (o : Opcode) (b : ℕ) (c : ChunkMut)
      → Loaded code constants (op_byte o b c)
      → (get_elem? code (length c.code) ≡ some (to_u8 o))
        × (get_elem? code (suc (length c.code)) ≡ some b)
  unfolding write write_pair
  fetch-op_byte o b c l = (
    l.code_at _ _ (
        get_elem?-append_some (c.code ++ to_u8 o ∷ []) (b ∷ []) _
          (get_elem?-append c.code (to_u8 o) [])),
    l.code_at _ _ (get_elem?-append_second c.code (to_u8 o) b),
  )

  -- The bytes of an instruction with a constant, and that constant, where there are at most 256.
  pub fetch-op_constant :
      (o : Opcode) (v : Value) (c : ChunkMut)
      → Loaded code constants (op_constant o v c)
      → count (op_constant o v c).constants ≤ 256
      → (get_elem? code (length c.code) ≡ some (to_u8 o))
        × (i : ℕ) × (get_elem? code (suc (length c.code)) ≡ some i)
        × (x : Slot) × (get_elem? constants i ≡ some x)
        × Froze v x
  unfolding write write_pair op_constant add_constant
  fetch-op_constant o v c l few =
      let index : (count (push c.constants v) + 255) % 256 ≡ count c.constants =
        omega (arith, count-push c.constants v, few) in
      let (x, e, f) = l.constant_at (count c.constants) v (value_at-push c.constants v) in
      (
        l.code_at _ _ (
            get_elem?-append_some (c.code ++ to_u8 o ∷ []) _ _
              (get_elem?-append c.code (to_u8 o) [])),
        count c.constants,
        rw index at (
            l.code_at _ _ (
              get_elem?-append_second c.code (to_u8 o) ((count (push c.constants v) + 255) % 256))),
        x,
        e,
        f,
      )
