-- ===== src/Parser/Literals/Total.antt =====
-- The parsing of names keeps within its fuel: compiler/src/parser/parser.c, lines 344-467.
use apex_forge_night_script.Base.{ℕ, zero, suc, Bytes, arith}
use apex_forge_night_script.Token.{Token}
use apex_forge_night_script.Parser.Knots.{Knots, Loose}
use apex_forge_night_script.Parser.Reads.{
  Reads, Enters, reads_rules, passes_rules, enters_rules, Reads-rounds,
}
use apex_forge_night_script.Parser.Literals.{
  field_init, field_inits, generic_name_loop, parse_generic_literal, parse_plain_name, parse_name,
}

field_init-Enters : {n : ℕ} (k : Knots) → Loose n k → Enters n (field_init k)
unfolding field_init
field_init-Enters k h = search enters_rules depth 12

field_inits-Reads : {n : ℕ} (k : Knots) → Loose n k → Reads n 0 (field_inits k)
unfolding field_inits
field_inits-Reads k h = search (reads_rules, field_init-Enters) depth 12

generic_name_loop-Reads : (i : ℕ) (buf : Bytes) → Reads i 0 (generic_name_loop i buf)
unfolding generic_name_loop
generic_name_loop-Reads zero buf = record { at = λ p l. absurd (omega (arith, l)) }
generic_name_loop-Reads (suc i) buf =
    let more = generic_name_loop-Reads i in search (passes_rules, more) depth 12

generic-Reads :
    {n : ℕ} (k : Knots) (id : Token) → Loose n k → Reads n 0 (parse_generic_literal k id)
unfolding parse_generic_literal
generic-Reads k id h =
    search (reads_rules, Reads-rounds, generic_name_loop-Reads, field_inits-Reads) depth 12

plain-Reads : {n : ℕ} (k : Knots) (id : Token) → Loose n k → Reads n 0 (parse_plain_name k id)
unfolding parse_plain_name
plain-Reads k id h = search (reads_rules, field_inits-Reads) depth 12

pub parse_name-Reads : {n : ℕ} (k : Knots) → Loose n k → Reads n 0 (parse_name k)
unfolding parse_name
parse_name-Reads k h = search (reads_rules, generic-Reads, plain-Reads) depth 12
