-- ===== src/Parser/Program.antt =====
-- Whole programs: compiler/src/parser/parser.c, lines 1317-1372. The parsers of nested parts are tied
-- together by recursion on one fuel for all, one more than there are tokens.
pub mod Total
pub mod AtEnd
pub mod Operators
pub mod Spelling
use apex_forge_night_script.Base.{
  ℕ, zero, suc, ◌+◌, List, [], ◌∷◌, false, Option, none, some, Bytes, String, take, length,
}
use apex_forge_night_script.Ast.{
  Node, node, Nodes, nodes_of, MaybeNode, null, at, program, package_decl, import_decl,
}
use apex_forge_night_script.Token.{
  Token, kind_number, lexeme, tok_package, tok_import, tok_semicolon, tok_eof,
}
use apex_forge_night_script.Parser.Knots.{Knots}
use apex_forge_night_script.Parser.State.{Parser, Parse, Outcome, done, fault, out_of_fuel, node_at}
use apex_forge_night_script.Parser.State.{
  pure, no_fuel, bad_read, rounds, ◌>>=◌, ◌>>◌, cur, prev, skip_token, in_array, ahead, check,
  if_match, if_match_any, match_kind, after, unless, report, expect, unless_closed, until_loop,
  until_closed, separated_loop, separated, intern, package_name, is_kind_in, is_path_token,
  expect_path_token,
}
use apex_forge_night_script.Parser.TypeNames.{
  to_int, dotted_loop, arguments_loop, parse_named_type, parse_array_type, parse_type_from,
  parse_type,
}
use apex_forge_night_script.Parser.Matches.{
  dotted_pattern, pattern_name, bindings_loop, arm_bindings, arm_pattern, match_arm, parse_match,
}
use apex_forge_night_script.Parser.Literals.{
  starts_with, looks_like, scan_close, is_generic_literal, field_init, field_inits,
  generic_name_loop, parse_generic_literal, parse_plain_name, parse_name,
}
use apex_forge_night_script.Parser.Expressions.{
  c_text, string_of, parse_group, parse_literal, parse_primary, call_args, slice_end, parse_bracket,
  postfix_step, postfix_loop, parse_postfix, parse_unary, cast_loop, parse_cast, binop_loop,
  parse_binop, parse_levels, parse_logical_or, assign_value, parse_assign, parse_expr,
}
use apex_forge_night_script.Parser.Statements.{
  parse_block, let_parts, const_parts, parse_let, parse_const, parse_return, parse_else, parse_if,
  parse_while, for_init, parse_for, parse_defer, parse_expr_stmt, parse_stmt,
}
use apex_forge_night_script.Parser.Functions.{
  parse_param, parse_params, type_param, parse_type_params, parse_fn_decl,
}
use apex_forge_night_script.Parser.Ui.{
  cur_ident_is, cur_ident_of, parse_ui_property, handler_kind, parse_ui_handler, ui_member,
  ui_title, ui_element_body, parse_ui_element,
}
use apex_forge_night_script.Parser.Declarations.{
  parse_const_decl, impl_method, iface_name_of, parse_impl, interface_method, parse_interface,
  comptime_const, comptime_item, parse_comptime, calling_conv, parse_extern, parse_ui_app,
  kernel_fn, parse_kernel_app, parse_decl,
}
use apex_forge_night_script.Parser.Declarations.Records.{
  struct_field, parse_packed, parse_struct, variant_field, variant_fields, enum_variant, parse_enum,
  parse_union,
}

unfoldable pub knots : ℕ → Knots
knots zero = record {
  type = no_fuel;
  expr = no_fuel;
  unary = no_fuel;
  stmt = no_fuel;
  ui_element = no_fuel;
}
knots (suc fuel) = record {
  type = parse_type (knots fuel);
  expr = parse_expr (knots fuel);
  unary = parse_unary (knots fuel);
  stmt = parse_stmt (knots fuel);
  ui_element = parse_ui_element (knots fuel);
}

-- A dotted path, as far as 255 bytes.
unfoldable pub path_text : String → Parse Bytes
path_text msg = do
  id ← expect_path_token msg false
  text ← intern id
  rounds λ fuel. dotted_loop "expected identifier after '.'" fuel (take 255 text)

-- `p.current_package = path`
unfoldable pub set_package : Bytes → Parse (Unit {0})
set_package path p = done tt (record p { current_package = some path })

unfoldable pub parse_package : Parse MaybeNode
parse_package =
    if_match tok_package
      (do
        t ← prev
        path ← path_text "expected package name"
        expect tok_semicolon "expected ';' after package"
        set_package path
        pure (at (node_at t (package_decl path))))
      (pure null)

unfoldable pub import_loop : ℕ → Parse (List Node)
import_loop zero = no_fuel
import_loop (suc fuel) =
    if_match tok_import
      (do
        t ← prev
        path ← path_text "expected import path"
        expect tok_semicolon "expected ';' after import"
        rest ← import_loop fuel
        pure (node_at t (import_decl path) ∷ rest))
      (pure [])

unfoldable pub parse_program : Knots → Parse Node
parse_program k = do
  package_node ← parse_package
  imports ← rounds import_loop
  decls ← until_closed tok_eof (parse_decl k)
  pure (node 1 1 (program package_node (nodes_of imports) (nodes_of decls)))

abbrev pub start_parser : Bytes → List Token → Parser
start_parser src tokens = record {
  src = src;
  last = none;
  rest = tokens;
  errors = [];
  current_package = none;
}

-- The program, or nothing where an error was reported.
abbrev pub result_of : Parser → Node → Option Node
result_of p prog = elim p.errors [ [] ↦ some prog | e ∷ es ↦ none ]

unfoldable pub parse_with : Bytes → List Token → Outcome Node
parse_with src tokens = parse_program (knots (length tokens + 1)) (start_parser src tokens)

abbrev pub finish : Outcome Node → Outcome (Option Node)
finish (done prog p) = done (result_of p prog) p
finish fault = fault
finish out_of_fuel = out_of_fuel

unfoldable pub parser_parse : Bytes → List Token → Outcome (Option Node)
unfolding kind_number lexeme pure no_fuel bad_read rounds ◌>>=◌ ◌>>◌ cur prev skip_token in_array
    ahead check if_match if_match_any match_kind after unless report expect unless_closed until_loop
    until_closed separated_loop separated intern package_name is_kind_in is_path_token
    expect_path_token to_int dotted_loop arguments_loop parse_named_type parse_array_type
    parse_type_from parse_type dotted_pattern pattern_name bindings_loop arm_bindings arm_pattern
    match_arm parse_match starts_with looks_like scan_close is_generic_literal field_init
    field_inits generic_name_loop parse_generic_literal parse_plain_name parse_name c_text string_of
    parse_group parse_literal parse_primary call_args slice_end parse_bracket postfix_step
    postfix_loop parse_postfix parse_unary cast_loop parse_cast binop_loop parse_binop parse_levels
    parse_logical_or assign_value parse_assign parse_expr parse_block let_parts const_parts
    parse_let parse_const parse_return parse_else parse_if parse_while for_init parse_for
    parse_defer parse_expr_stmt parse_stmt parse_param parse_params type_param parse_type_params
    parse_fn_decl cur_ident_is cur_ident_of parse_ui_property handler_kind parse_ui_handler
    ui_member ui_title ui_element_body parse_ui_element parse_const_decl impl_method iface_name_of
    parse_impl interface_method parse_interface comptime_const comptime_item parse_comptime
    calling_conv parse_extern parse_ui_app kernel_fn parse_kernel_app parse_decl struct_field
    parse_packed parse_struct variant_field variant_fields enum_variant parse_enum parse_union knots
    path_text set_package parse_package import_loop parse_program parse_with
parser_parse src tokens = finish (parse_with src tokens)
