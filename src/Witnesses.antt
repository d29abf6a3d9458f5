-- ===== src/Witnesses.antt =====
-- The theorems at concrete inputs, and tests of the definitions.
mod LexerRuns
mod ParserRuns
mod ArenaRuns
mod TypeRuns
mod DeclRuns
mod BodyRuns
mod CheckRuns
