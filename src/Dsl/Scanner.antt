-- ===== src/Dsl/Scanner.antt =====
-- brane-dsl/src/scanner: from the characters of a script to its tokens.
pub mod Characters
pub mod Scan
pub mod Words
mod Tests
