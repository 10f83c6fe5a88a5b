-- ===== src/Heap.antt =====
-- brane-bvm/src/heap.rs: a vector of reference-counted objects of bounded size, whose allocation
-- collects the objects that only the vector still refers to.
--
-- An `Arc` is an address and the object, which never changes. The strong count of an address is
-- counted where the source counts it: once for the vector, once for every handle that the program
-- holds (`held`), and once for every handle inside an object that is alive; the objects alive are
-- those of the vector and the one to be added. An object with no other reference dies when the
-- vector drops it, and with it the handles inside.
mod Tests
mod Defs
pub mod Members
pub mod Collect
pub mod Alloc
unfoldable pub use Defs.*
