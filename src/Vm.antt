-- ===== src/Vm.antt =====
-- brane-bvm: the virtual machine that runs the byte code.
pub mod Slot
pub mod Stack
pub mod Frames
pub mod Convert
pub mod State
pub mod Ops
pub mod Globals
pub mod Run
pub mod Effects
pub mod Imports
pub mod Calls
mod Tests
