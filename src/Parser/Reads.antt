-- ===== src/Parser/Reads.antt =====
-- How far a parse moves: its parts, and the rules that `search` walks a block with.
pub mod Core
pub mod Tokens
pub mod Passing
pub mod Loops
pub mod Standing
pub use Core.*
pub use Tokens.*
pub use Passing.*
pub use Loops.*
pub use Standing.*

-- The rules that `search` walks a block with.
pub ruleset reads_rules = (
  Reads-bind, Reads-then, Reads-pure, Reads-bad_read, Reads-if, Reads-option, Reads-cur, Reads-prev,
  Reads-check, Reads-in_array, Reads-ahead, Reads-report, Reads-intern, Reads-package_name,
  Reads-expect, Reads-expect_path_token, Reads-if_match, Reads-until_closed, Reads-separated,
  Reads-skip, Reads-match_kind, Reads-after, Reads-unless,
)

-- The rules for a parse that passes a token before it calls the parsers of fewer tokens.
pub ruleset passes_rules = (
  Reads-if_match_pass, Reads-if_match_drop, Reads-if_match_any_pass, Reads-if_match_any_drop,
  Reads-bind_strict, Reads-bind_drop, Reads-then_strict, Reads-then_drop, Reads-skip_strict,
  reads_rules,
)

-- The rules for the body of a loop up to a closing token.
pub ruleset enters_rules = (Enters-expect, Enters-if_match, Enters-bind, Enters-then, reads_rules)

-- The rules for a parse that passes a token in its first step.
pub ruleset first_rules = (Reads-bind_first, Reads-then_first, Reads-skip_strict, reads_rules)

pub ruleset looks_rules = (Looks-bind, Looks-pure, Looks-if, Looks-cur, Looks-intern)
