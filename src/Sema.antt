-- ===== src/Sema.antt =====
-- The semantic analysis of a program: compiler/src/sema/sema.c.
pub mod Analyzer
pub mod TypeNames
pub mod Register
pub mod Declare
pub mod Symbols
pub mod Bodies
pub mod Imports
pub mod Analysis
