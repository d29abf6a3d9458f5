-- ===== src/Typeck.antt =====
-- compiler/src/typeck/typeck.c.
pub mod Types
pub mod Scope
pub mod Visibility
pub mod Check
pub mod Exprs
pub mod Bodies
