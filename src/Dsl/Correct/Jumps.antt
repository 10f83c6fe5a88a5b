-- ===== src/Dsl/Correct/Jumps.antt =====
-- The jumps that the compiler writes, and where they lead.
use brane.Prelude.{
  ℕ, zero, suc, ◌+◌, ◌-◌, ◌*◌, ◌/◌, ◌%◌, ◌≤◌, ◌<◌, ◌≡◌, refl, ◌∙◌, false, some, String, List, [],
  ◌∷◌, ◌++◌, length, get_elem?, get_elem?-append, set, length-append, length-set, ok, ltb, le→ltb,
  arith,
}
use brane.Bytecode.Opcodes.{Opcode, to_u8}
use brane.Bytecode.Chunk.{ChunkMut, write, write_bytes}
use brane.Vm.Slot.{Slot}
use brane.Vm.Stack
use brane.Vm.Frames.{read_u16}
use brane.Vm.State.{frame_u16}
use brane.Vm.Ops.Control.{op_jump, op_jump_back}
use brane.Dsl.Generator.Writer.{patch, jump_back}
use brane.Dsl.Correct.Machine.{Frame, at}

-- the code of the function begins with that of the chunk
abbrev pub Begins : Frame → ChunkMut → Type 0
Begins m c = (i b : ℕ) → get_elem? c.code i ≡ some b → get_elem? m.code i ≡ some b

get_elem?-set : (xs : List ℕ) (i v : ℕ) → i < length xs → get_elem? (set xs i v) i ≡ some v
get_elem?-set [] i v h = absurd (omega (arith, h))
get_elem?-set (x ∷ xs) zero v h = refl
get_elem?-set (x ∷ xs) (suc i) v h = get_elem?-set xs i v (omega (arith, h))

get_elem?-set_other : (xs : List ℕ) (i j v : ℕ) → i < j → get_elem? (set xs j v) i ≡ get_elem? xs i
get_elem?-set_other [] i j v h = refl
get_elem?-set_other (x ∷ xs) i zero v h = absurd (omega (arith, h))
get_elem?-set_other (x ∷ xs) zero (suc j) v h = refl
get_elem?-set_other (x ∷ xs) (suc i) (suc j) v h = get_elem?-set_other xs i j v (omega (arith, h))

-- the two bytes of a number below 2^16
frame_u16-at :
    (what : String) (m : Frame) (a n : ℕ) (s : List Slot)
    → n < 65536
    → get_elem? m.code a ≡ some (n / 256)
    → get_elem? m.code (suc a) ≡ some (n % 256)
    → frame_u16 what (at m a s) ≡ (ok n, at m (suc (suc a)) s)
unfolding frame_u16 read_u16
frame_u16-at what m a n s small h k =
    let whole : n / 256 * 256 + n % 256 ≡ n = omega arith in ground (arith, whole)

-- the patched bytes
patched :
    (m : Frame) (plh_pos : ℕ) (c : ChunkMut)
    → plh_pos + 2 ≤ length c.code
    → length c.code - plh_pos - 2 < 65536
    → Begins m (patch plh_pos c)
    → (get_elem? m.code plh_pos ≡ some ((length c.code - plh_pos - 2) / 256))
      × (get_elem? m.code (suc plh_pos) ≡ some ((length c.code - plh_pos - 2) % 256))
unfolding patch
patched m plh_pos c room near begins =
    let d = length c.code - plh_pos - 2 in
    let small : d % 65536 ≡ d = omega (arith, near) in
    let first : get_elem?
          (set (set c.code plh_pos (d % 65536 / 256)) (plh_pos + 1) (d % 65536 % 256)) plh_pos
        ≡ some (d / 256) =
      rw small (
        get_elem?-set_other (set c.code plh_pos (d / 256)) plh_pos (plh_pos + 1) (d % 256)
          (omega arith)
        ∙ get_elem?-set c.code plh_pos (d / 256) (omega (arith, room))) in
    let next : suc plh_pos ≡ plh_pos + 1 = omega arith in
    let second : get_elem?
          (set (set c.code plh_pos (d % 65536 / 256)) (plh_pos + 1) (d % 65536 % 256)) (suc plh_pos)
        ≡ some (d % 256) =
      rw (small, next)
        (get_elem?-set (set c.code plh_pos (d / 256)) (plh_pos + 1) (d % 256)
          (omega (arith, room, length-set c.code plh_pos (d / 256)))) in
    (begins plh_pos _ first, begins (suc plh_pos) _ second)

-- A forward jump whose placeholder was patched leads to where the code ended when it was patched,
-- where that is less than 2^16 bytes ahead; the stack stays as it is.
pub op_jump-patch :
    (m : Frame) (plh_pos : ℕ) (c : ChunkMut) (s : List Slot)
    → plh_pos + 2 ≤ length c.code
    → length c.code - plh_pos - 2 < 65536
    → Begins m (patch plh_pos c)
    → op_jump (at m plh_pos s) ≡ (ok tt, at m (length c.code) s)
unfolding op_jump
op_jump-patch m plh_pos c s room near begins =
    let (first, second) = patched m plh_pos c room near begins in
    let e =
      frame_u16-at "a jump offset" m plh_pos (length c.code - plh_pos - 2) s near first second in
    let there : suc (suc plh_pos) + (length c.code - plh_pos - 2) ≡ length c.code =
      omega (arith, room) in
    rw e (rw there refl)

get_elem?-append_third :
    (xs : List ℕ) (x y z : ℕ)
    → get_elem? ((xs ++ x ∷ []) ++ y ∷ z ∷ []) (suc (suc (length xs))) ≡ some z
get_elem?-append_third [] x y z = refl
get_elem?-append_third (w ∷ xs) x y z = get_elem?-append_third xs x y z

-- The backward jump of a loop, read where its instruction ends, leads to the start of the loop,
-- where that is less than 2^16 bytes back; the stack stays as it is.
pub op_jump_back-jump_back :
    (m : Frame) (loop_start : ℕ) (c : ChunkMut) (s : List Slot)
    → loop_start ≤ length c.code
    → length c.code + 3 - loop_start < 65536
    → Begins m (jump_back loop_start c)
    → op_jump_back (at m (suc (length c.code)) s) ≡ (ok tt, at m loop_start s)
unfolding op_jump_back jump_back write write_bytes
op_jump_back-jump_back m loop_start c s before near begins =
    let d = length c.code + 3 - loop_start in
    let code = c.code ++ to_u8 Opcode.jump_back ∷ [] in
    let size : length code ≡ suc (length c.code) =
      omega (arith, length-append c.code (to_u8 Opcode.jump_back ∷ [])) in
    let distance : (length code - loop_start + 2) % 65536 ≡ d = omega (arith, size, before, near) in
    let first : get_elem? m.code (suc (length c.code)) ≡ some (d / 256) =
      begins _ _ (rw (← size, distance) (get_elem?-append code (d / 256) (d % 256 ∷ []))) in
    let second : get_elem? m.code (suc (suc (length c.code))) ≡ some (d % 256) = begins _ _ (
      rw (← distance) (
        get_elem?-append_third c.code (to_u8 Opcode.jump_back)
          (((length code - loop_start + 2) % 65536) / 256)
          (((length code - loop_start + 2) % 65536) % 256))) in
    let e =
      frame_u16-at "a (backwards) jump offset" m (suc (length c.code)) d s near first second in
    let later : ltb (suc (suc (suc (length c.code)))) d ≡ false =
      le→ltb _ _ (omega (arith, before)) in
    let there : suc (suc (suc (length c.code))) - d ≡ loop_start = omega (arith, before) in
    rw e (rw (later, there) refl)
