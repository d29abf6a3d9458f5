-- ===== src/Parser.antt =====
-- The parser: compiler/src/parser/parser.c and parser.h.
pub mod State
pub mod Reads
pub mod Knots
pub mod Gives
pub mod TypeNames
pub mod Matches
pub mod Literals
pub mod Expressions
pub mod Statements
pub mod Functions
pub mod Ui
pub mod Declarations
pub mod Program
