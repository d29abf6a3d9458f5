-- ===== src/Typeck/Exprs.antt =====
-- `check_expr`: compiler/src/typeck/typeck.c, lines 1262-2149, with the functions that it calls. Each case is
-- a function of the checks of its parts, and Walk ties them together along the tree.
pub mod Constructors
pub mod Operators
pub mod Matches
pub mod Fields
pub mod Names
pub mod Calls
pub mod Methods
pub mod Literals
pub mod Walk
