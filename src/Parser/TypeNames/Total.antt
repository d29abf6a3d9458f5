-- ===== src/Parser/TypeNames/Total.antt =====
-- The parsing of types keeps within its fuel: compiler/src/parser/parser.c, lines 133-196.
use apex_forge_night_script.Base.{ℕ, zero, suc, Bytes, String, arith}
use apex_forge_night_script.Token.{Token}
use apex_forge_night_script.Parser.Knots.{Knots, Ties}
use apex_forge_night_script.Parser.Reads.{Reads, reads_rules, passes_rules, Reads-rounds}
use apex_forge_night_script.Parser.TypeNames.{
  dotted_loop, arguments_loop, parse_named_type, parse_array_type, parse_type_from, parse_type,
}

pub dotted_loop-Reads : (msg : String) (i : ℕ) (buf : Bytes) → Reads i 0 (dotted_loop msg i buf)
unfolding dotted_loop
dotted_loop-Reads msg zero buf = record { at = λ p l. absurd (omega (arith, l)) }
dotted_loop-Reads msg (suc i) buf =
    let more = dotted_loop-Reads msg i in search (passes_rules, more) depth 12

arguments_loop-Reads : (i depth : ℕ) (buf : Bytes) → Reads i 0 (arguments_loop i depth buf)
unfolding arguments_loop
arguments_loop-Reads zero depth buf = record { at = λ p l. absurd (omega (arith, l)) }
arguments_loop-Reads (suc i) depth buf =
    let more = arguments_loop-Reads i in search (passes_rules, more) depth 12

named-Reads : {n : ℕ} (t : Token) → Reads n 0 (parse_named_type t)
unfolding parse_named_type
named-Reads t = search (reads_rules, Reads-rounds, dotted_loop-Reads, arguments_loop-Reads) depth 12

array-Reads : {n : ℕ} (k : Knots) (t : Token) → Ties n k → Reads n 0 (parse_array_type k t)
unfolding parse_array_type
array-Reads k t h = search reads_rules depth 12

-- A type is read with the fuel for the tokens left, and calls itself only behind a token.
pub parse_type-Reads : {n : ℕ} (k : Knots) → Ties n k → Reads (suc n) 0 (parse_type k)
unfolding parse_type parse_type_from
parse_type-Reads k h = search (passes_rules, named-Reads, array-Reads) depth 12
