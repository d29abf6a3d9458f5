-- ===== src/Parser/Program/Total.antt =====
-- The parser comes to an end: compiler/src/parser/parser.c, lines 1317-1372.
use apex_forge_night_script.Base.{ℕ, zero, suc, ◌+◌, ◌≢◌, ◌≤◌, List, Bytes, String, arith, length}
use apex_forge_night_script.Ast.{Node}
use apex_forge_night_script.Token.{Token}
use apex_forge_night_script.Parser.Knots.{Knots, Ties, Ties-Loose}
use apex_forge_night_script.Parser.State.{Parser, Outcome, out_of_fuel, left}
use apex_forge_night_script.Parser.Reads.{
  Reads, Ends, ends, faults, reads_rules, passes_rules, Reads-rounds, Enters-Reads,
}
use apex_forge_night_script.Parser.TypeNames.Total.{parse_type-Reads, dotted_loop-Reads}
use apex_forge_night_script.Parser.Expressions.Total.{parse_expr-Reads, unary-Reads}
use apex_forge_night_script.Parser.Statements.Total.{parse_stmt-Reads}
use apex_forge_night_script.Parser.Ui.Total.{element-Reads}
use apex_forge_night_script.Parser.Declarations.Total.{decl-Reads}
use apex_forge_night_script.Parser.Program.{
  knots, path_text, set_package, parse_package, import_loop, parse_program, start_parser,
  parse_with, finish, parser_parse,
}

none_left-Reads {ℓ} : {A : Type ℓ} {d : ℕ} {m : Parser → Outcome A} → Reads 0 d m
none_left-Reads = record { at = λ p l. absurd (omega (arith, l)) }

-- `knots n` parses what nests in fewer than `n` tokens.
pub knots-Ties : (n : ℕ) → Ties n (knots n)
unfolding knots
knots-Ties zero = record {
  type = none_left-Reads;
  expr = none_left-Reads;
  unary = none_left-Reads;
  stmt = none_left-Reads;
  ui_element = none_left-Reads;
}
knots-Ties (suc n) =
    let h = knots-Ties n in
    let loose = Ties-Loose h in
    record {
      type = parse_type-Reads _ h;
      expr = parse_expr-Reads _ loose;
      unary = unary-Reads _ loose;
      stmt = parse_stmt-Reads _ h;
      ui_element = element-Reads _ h;
    }

path_text-Reads : {n : ℕ} (msg : String) → Reads n 0 (path_text msg)
unfolding path_text
path_text-Reads msg = search (reads_rules, Reads-rounds, dotted_loop-Reads) depth 12

set_package-Reads : {n : ℕ} (path : Bytes) → Reads n 0 (set_package path)
unfolding set_package
set_package-Reads path = record { at = λ p l. ends (omega arith) }

package-Reads : {n : ℕ} → Reads n 0 parse_package
unfolding parse_package
package-Reads = search (reads_rules, path_text-Reads, set_package-Reads) depth 12

import_loop-Reads : (i : ℕ) → Reads i 0 (import_loop i)
unfolding import_loop
import_loop-Reads zero = none_left-Reads
import_loop-Reads (suc i) =
    let more = import_loop-Reads i in search (passes_rules, path_text-Reads) depth 12

program-Reads : {n : ℕ} (k : Knots) → Ties n k → Reads (suc n) 0 (parse_program k)
unfolding parse_program
program-Reads k h =
    let inside = Enters-Reads (decl-Reads k h) in
    search (reads_rules, package-Reads, Reads-rounds, import_loop-Reads) depth 12

parse_with-Ends :
    (src : Bytes) (tokens : List Token)
    → Ends (λ q. left q + 0 ≤ length tokens) (parse_with src tokens)
unfolding parse_with
parse_with-Ends src tokens =
    (program-Reads (knots (length tokens + 1)) (knots-Ties (length tokens + 1))).at
      (start_parser src tokens) (omega arith)

finish-out_of_fuel : {P : Parser → Type 0} {r : Outcome Node} → Ends P r → finish r ≢ out_of_fuel
finish-out_of_fuel (ends h) = cc
finish-out_of_fuel faults = cc

-- The parser comes to an end on every list of tokens, with the fuel of one more than there are tokens: it
-- gives a program, or none where it has reported errors, or reads outside the tokens or a buffer.
pub parser_parse-out_of_fuel :
    (src : Bytes) (tokens : List Token) → parser_parse src tokens ≢ out_of_fuel
unfolding parser_parse
parser_parse-out_of_fuel src tokens = finish-out_of_fuel (parse_with-Ends src tokens)
