-- ===== src/Dsl/Run.antt =====
-- Compiled scripts on a machine, from their start to their end.
pub mod Globals
pub mod Denotation
pub mod Scripts
pub mod Start
pub mod Session
pub mod Source
pub mod Branches
pub mod Frozen
mod Tests
