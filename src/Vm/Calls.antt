-- ===== src/Vm/Calls.antt =====
-- The instructions of brane-bvm/src/vm.rs that leave the machine, and the functions that start it.
pub mod Freeze
pub mod Values
pub mod Executor
pub mod Call
pub mod Import
pub mod Parallel
pub mod Main
