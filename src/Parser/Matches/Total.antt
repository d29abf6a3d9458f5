-- ===== src/Parser/Matches/Total.antt =====
-- The parsing of match expressions keeps within its fuel: compiler/src/parser/parser.c, lines 255-334.
use apex_forge_night_script.Base.{ℕ, zero, suc, arith}
use apex_forge_night_script.Token.{Token}
use apex_forge_night_script.Parser.Knots.{Knots, Loose}
use apex_forge_night_script.Parser.Reads.{
  Reads, Enters, reads_rules, passes_rules, enters_rules, Reads-rounds, Reads-unless_closed,
}
use apex_forge_night_script.Parser.Matches.{
  pattern_name, bindings_loop, arm_bindings, arm_pattern, match_arm, parse_match,
}

bindings_loop-Reads : (i : ℕ) → Reads i 0 (bindings_loop i)
unfolding bindings_loop
bindings_loop-Reads zero = record { at = λ p l. absurd (omega (arith, l)) }
bindings_loop-Reads (suc i) =
    let more = bindings_loop-Reads i in
    search (enters_rules, passes_rules, Reads-unless_closed) depth 12

arm_bindings-Reads : {n : ℕ} → Reads n 0 arm_bindings
unfolding arm_bindings
arm_bindings-Reads = search (reads_rules, Reads-rounds, bindings_loop-Reads) depth 12

pattern_name-Enters : {n : ℕ} → Enters n pattern_name
unfolding pattern_name
pattern_name-Enters = search enters_rules depth 12

arm_pattern-Enters : {n : ℕ} → Enters n arm_pattern
unfolding arm_pattern
arm_pattern-Enters = search (enters_rules, pattern_name-Enters, arm_bindings-Reads) depth 12

match_arm-Enters : {n : ℕ} (k : Knots) → Loose n k → Enters n (match_arm k)
unfolding match_arm
match_arm-Enters k h = search (enters_rules, arm_pattern-Enters) depth 12

pub parse_match-Reads : {n : ℕ} (k : Knots) (t : Token) → Loose n k → Reads n 0 (parse_match k t)
unfolding parse_match
parse_match-Reads k t h = search (reads_rules, match_arm-Enters) depth 12
