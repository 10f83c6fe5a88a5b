-- ===== src/Bytecode.antt =====
-- brane-bvm/src/bytecode.rs: the opcodes and the byte code that is being written. A byte is a
-- number below 256.
pub mod Opcodes
pub mod Chunk
