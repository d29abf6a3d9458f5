-- ===== src/Lexer.antt =====
-- compiler/src/lexer/lexer.c.
pub mod Tables
pub mod Moves
pub mod Positions
pub mod Cursor
pub mod Result
pub mod Skip
pub mod Literals
pub mod Strings
pub mod Numbers
pub mod Quoting
pub mod Growth
pub mod Scan
pub mod Comments
mod Tests
