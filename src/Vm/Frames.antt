-- ===== src/Vm/Frames.antt =====
-- `CallFrame` of brane-bvm/src/frames.rs: a function and the position of its next instruction.
use brane.Prelude.{
  ℕ, suc, ◌+◌, ◌*◌, none, some, String, List, length, get_elem?, Outcome, ok, err, panic,
}
use brane.Vm.Slot.{Slot, Handle, handle, function, to_list, object_data_type}

pub data CallFrameError : Type 0 where
  ip_out_of_bounds : ℕ → ℕ → CallFrameError
  const_out_of_bounds : ℕ → ℕ → CallFrameError
  -- the address of the handle and the type of the object
  illegal_function_error : ℕ → String → CallFrameError

pub record CallFrame : Type 0 where
  pub function : Handle
  pub ip : ℕ
  pub stack_offset : ℕ

unfoldable pub new : Handle → ℕ → CallFrame
new f stack_offset = record { function = f; ip = 0; stack_offset = stack_offset }

-- the code and the constants of the function behind the frame
abbrev pub chunk_of : Handle → Outcome CallFrameError (List ℕ × List Slot)
chunk_of (handle _ (function _ _ code constants)) = ok (code, to_list constants)
chunk_of (handle a o) = elim (object_data_type o) [
  | none ↦ panic
  | some t ↦ err (illegal_function_error a t)
]

abbrev pub FrameOp : Type 0 → Type 0
FrameOp A = CallFrame → Outcome CallFrameError A × CallFrame

abbrev pub with_chunk : {A : Type 0} → (List ℕ → List Slot → FrameOp A) → FrameOp A
with_chunk f frame = elim (chunk_of frame.function) [
  | ok (code, constants) ↦ f code constants frame
  | err e ↦ (err e, frame)
  | panic ↦ (panic, frame)
]

-- the byte at the instruction pointer, which moves past it
abbrev pub next_byte : List ℕ → FrameOp ℕ
next_byte code frame = elim (get_elem? code frame.ip) [
  | none ↦ (err (ip_out_of_bounds frame.ip (length code)), frame)
  | some byte ↦ (ok byte, record frame { ip = suc frame.ip })
]

unfoldable pub read_u8 : FrameOp ℕ
read_u8 = with_chunk (λ code _. next_byte code)

-- The second byte is read where the first ended; the pointer stays past the first if there is no
-- second. `(byte1 << 8) | byte2` at bytes is a sum.
unfoldable pub read_u16 : FrameOp ℕ
read_u16 = with_chunk λ code _ frame.
    let (first, frame₁) = next_byte code frame in
    elim first [
      | ok byte1 ↦
          let (second, frame₂) = next_byte code frame₁ in
          elim second [
            | ok byte2 ↦ (ok (byte1 * 256 + byte2), frame₂)
            | err e ↦ (err e, frame₂)
            | panic ↦ (panic, frame₂)
          ]
      | err e ↦ (err e, frame₁)
      | panic ↦ (panic, frame₁)
    ]

-- The pointer moves only if there is a constant of that index.
unfoldable pub read_constant : FrameOp Slot
read_constant = with_chunk λ code constants frame. elim (get_elem? code frame.ip) [
  | none ↦ (err (ip_out_of_bounds frame.ip (length code)), frame)
  | some index ↦ elim (get_elem? constants index) [
    | none ↦ (err (const_out_of_bounds index (length constants)), frame)
    | some constant ↦ (ok constant, record frame { ip = suc frame.ip })
  ]
]
