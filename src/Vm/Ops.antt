-- ===== src/Vm/Ops.antt =====
-- The instructions of brane-bvm/src/vm.rs, a function for each. Integer arithmetic is that of a
-- release build: it wraps around, and a division by zero, or of the least integer by -1, panics.
pub mod Math
pub mod Logic
pub mod Variables
pub mod Control
pub mod Objects
pub mod Returns
pub mod Arrays
