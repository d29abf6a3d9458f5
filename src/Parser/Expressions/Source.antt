-- ===== src/Parser/Expressions/Source.antt =====
-- The parsing of expressions keeps to its source: compiler/src/parser/parser.c, lines 133-690.
use apex_forge_night_script.Base.{ℕ, zero, suc, Bytes, String}
use apex_forge_night_script.Token.{Token}
use apex_forge_night_script.Parser.Knots.{Knots}
use apex_forge_night_script.Parser.Gives.Rules.{Keeps, Gives-no_fuel}
use apex_forge_night_script.Parser.Gives.Steps.{keeps_rules}
use apex_forge_night_script.Parser.TypeNames.{
  dotted_loop, arguments_loop, parse_named_type, parse_array_type, parse_type_from, parse_type,
}
use apex_forge_night_script.Parser.Matches.{
  pattern_name, bindings_loop, arm_bindings, arm_pattern, match_arm, parse_match,
}
use apex_forge_night_script.Parser.Literals.{
  field_init, field_inits, generic_name_loop, parse_generic_literal, parse_plain_name, parse_name,
}
use apex_forge_night_script.Parser.Expressions.{call_args, slice_end}

pub record Settled (s : Bytes) (k : Knots) : Type 0 where
  pub type : Keeps s k.type
  pub expr : Keeps s k.expr
  pub unary : Keeps s k.unary

module _ {s : Bytes} where
  dotted_loop-Keeps : (msg : String) (i : ℕ) (buf : Bytes) → Keeps s (dotted_loop msg i buf)
  unfolding dotted_loop
  dotted_loop-Keeps msg zero buf = Gives-no_fuel
  dotted_loop-Keeps msg (suc i) buf =
      let more = dotted_loop-Keeps msg i in search (keeps_rules, more) depth 12

  arguments_loop-Keeps : (i depth : ℕ) (buf : Bytes) → Keeps s (arguments_loop i depth buf)
  unfolding arguments_loop
  arguments_loop-Keeps zero depth buf = Gives-no_fuel
  arguments_loop-Keeps (suc i) depth buf =
      let more = arguments_loop-Keeps i in search (keeps_rules, more) depth 12

  named-Keeps : (t : Token) → Keeps s (parse_named_type t)
  unfolding parse_named_type
  named-Keeps t = search (keeps_rules, dotted_loop-Keeps, arguments_loop-Keeps) depth 12

  bindings_loop-Keeps : (i : ℕ) → Keeps s (bindings_loop i)
  unfolding bindings_loop
  bindings_loop-Keeps zero = Gives-no_fuel
  bindings_loop-Keeps (suc i) = let more = bindings_loop-Keeps i in search keeps_rules depth 12

  arm_pattern-Keeps : Keeps s arm_pattern
  unfolding arm_pattern pattern_name arm_bindings
  arm_pattern-Keeps = search (keeps_rules, bindings_loop-Keeps) depth 20

  pub generic_name_loop-Keeps : (i : ℕ) (buf : Bytes) → Keeps s (generic_name_loop i buf)
  unfolding generic_name_loop
  generic_name_loop-Keeps zero buf = Gives-no_fuel
  generic_name_loop-Keeps (suc i) buf =
      let more = generic_name_loop-Keeps i in search (keeps_rules, more) depth 12

module _ {s : Bytes} (k : Knots) (h : Settled s k) where
  pub parse_type-Keeps : Keeps s (parse_type k)
  unfolding parse_type parse_type_from parse_array_type
  parse_type-Keeps = search (keeps_rules, named-Keeps) depth 20

  pub match_arm-Keeps : Keeps s (match_arm k)
  unfolding match_arm
  match_arm-Keeps = search (keeps_rules, arm_pattern-Keeps) depth 12

  pub parse_match-Keeps : (t : Token) → Keeps s (parse_match k t)
  unfolding parse_match
  parse_match-Keeps t = search (keeps_rules, match_arm-Keeps) depth 12

  pub field_inits-Keeps : Keeps s (field_inits k)
  unfolding field_inits field_init
  field_inits-Keeps = search keeps_rules depth 16

  generic-Keeps : (id : Token) → Keeps s (parse_generic_literal k id)
  unfolding parse_generic_literal
  generic-Keeps id = search (keeps_rules, generic_name_loop-Keeps, field_inits-Keeps) depth 12

  pub parse_name-Keeps : Keeps s (parse_name k)
  unfolding parse_name parse_plain_name
  parse_name-Keeps = search (keeps_rules, generic-Keeps, field_inits-Keeps) depth 16

  pub call_args-Keeps : Keeps s (call_args k)
  unfolding call_args
  call_args-Keeps = search keeps_rules depth 12

  pub slice_end-Keeps : Keeps s (slice_end k)
  unfolding slice_end
  slice_end-Keeps = search keeps_rules depth 12
