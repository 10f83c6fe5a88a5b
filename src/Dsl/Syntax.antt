-- ===== src/Dsl/Syntax.antt =====
-- brane-dsl/src/parser: the parser of BraneScript, from tokens to the syntax tree.
pub mod Token
pub mod Parsed
pub mod Nom
pub mod Operator
pub mod Expression
pub mod Grammar
pub mod Operators
pub mod Lengths
pub mod Pratt
pub mod Reaching
pub mod Lists
pub mod Precedence
pub mod Statement
pub mod Program
pub mod Alternatives
pub mod Starts
pub mod Constructs
pub mod Dispatch
pub mod ProgramLengths
pub mod Parts
pub mod Scripts
pub mod Combinators
pub mod Failures
mod Tests
pub mod Classes
