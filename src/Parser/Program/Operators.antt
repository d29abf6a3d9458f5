-- ===== src/Parser/Program/Operators.antt =====
-- The operators of whole expressions: compiler/src/parser/parser.c, lines 594-690.
use apex_forge_night_script.Base.{ℕ, zero, suc, ◌≡◌, refl, Bytes}
use apex_forge_night_script.Ast.{Node}
use apex_forge_night_script.Parser.Knots.{Knots}
use apex_forge_night_script.Parser.State.{Parser, done}
use apex_forge_night_script.Parser.Gives.{Holds-done}
use apex_forge_night_script.Parser.Gives.Rules.{Gives, Gives-no_fuel, Gives-map}
use apex_forge_night_script.Parser.Expressions.{parse_expr}
use apex_forge_night_script.Parser.Expressions.Source.{Settled, parse_type-Keeps}
use apex_forge_night_script.Parser.Expressions.Operands.{Prefixed, unary-Gives}
use apex_forge_night_script.Parser.Expressions.Precedence.{Assigned, parse_expr-Assigned}
use apex_forge_night_script.Parser.Program.{knots}

-- What the knots' expressions and unary expressions are.
record Nests (s : Bytes) (fuel : ℕ) : Type 0 where
  settled : Settled s (knots fuel)
  unary : Gives s (Prefixed s) (Knots.unary (knots fuel))
  expr : Gives s (Assigned s) (Knots.expr (knots fuel))

knots-Nests : (s : Bytes) (fuel : ℕ) → Nests s fuel
unfolding knots
knots-Nests s zero = record {
  settled = record { type = Gives-no_fuel; expr = Gives-no_fuel; unary = Gives-no_fuel };
  unary = Gives-no_fuel;
  expr = Gives-no_fuel;
}
knots-Nests s (suc fuel) =
    let h = knots-Nests s fuel in
    let prefixed = unary-Gives _ h.settled h.unary in
    let assigned = parse_expr-Assigned _ h.settled h.unary h.expr in
    record {
      settled = record {
        type = parse_type-Keeps _ h.settled;
        expr = Gives-map (λ a o. tt) assigned;
        unary = Gives-map (λ a o. tt) prefixed;
      };
      unary = prefixed;
      expr = assigned;
    }

-- Every expression that is parsed, from any state, has its operators nested by precedence: outside
-- parentheses the left operand of a binary operator has binary operators of its precedence or more, the
-- right operand of more; an operand is a primary with suffixes, prefix operators in front of these and
-- casts behind, in this order from the inside, so that it is no assignment but for a suffix `++` or
-- `--`; the target of an assignment is such an operation or operand, and its value is again such an
-- expression.
pub parse_expr-Nested :
    (fuel : ℕ) (p q : Parser) (n : Node) → parse_expr (knots fuel) p ≡ done n q → Assigned p.src n
parse_expr-Nested fuel p q n e =
    let h = knots-Nests p.src fuel in
    let r = (parse_expr-Assigned _ h.settled h.unary h.expr).at p refl in (Holds-done r e).0
