-- ===== src/Parser/Declarations/Records.antt =====
-- Structs, enums and unions: compiler/src/parser/parser.c, lines 1115-1236.
use apex_forge_night_script.Base.{Bool, true, false, List, [], ◌∷◌, Bytes, case_option}
use apex_forge_night_script.Ast.{
  Node, none_left, nodes_of, at, null, Variants, no_variants, variant, let_stmt, struct_decl,
  enum_decl, union_decl,
}
use apex_forge_night_script.Token.{
  Token, tok_struct, tok_ident, tok_colon, tok_comma, tok_semicolon, tok_lbrace, tok_rbrace,
  tok_lparen, tok_rparen,
}
use apex_forge_night_script.Parser.Knots.{Knots}
use apex_forge_night_script.Parser.Functions.{parse_type_params}
use apex_forge_night_script.Parser.State.{
  Parse, pure, ◌>>=◌, ◌>>◌, match_kind, after, unless, expect, intern, package_name, until_closed,
  node_at,
}

unfoldable pub struct_field : Knots → Parse Node
struct_field k = do
  fn_tok ← expect tok_ident "expected field name"
  expect tok_colon "expected ':' after field name"
  ftype ← k.type
  expect tok_semicolon "expected ';' after field"
  text ← intern fn_tok
  pure (node_at fn_tok (let_stmt text (at ftype) null))

unfoldable pub parse_packed : Knots → Token → Bool → Parse Node
parse_packed k t is_public = do
  expect tok_struct "expected 'struct' after 'packed'"
  name ← expect tok_ident "expected struct name"
  type_params ← parse_type_params
  expect tok_lbrace "expected '{' after struct name"
  fields ← until_closed tok_rbrace (struct_field k)
  expect tok_rbrace "expected '}' after packed struct"
  text ← intern name
  current ← package_name
  pure (node_at t (struct_decl text current none_left (nodes_of fields) is_public true))

unfoldable pub parse_struct : Knots → Token → Bool → Parse Node
parse_struct k t is_public = do
  name ← expect tok_ident "expected struct name"
  type_params ← parse_type_params
  expect tok_lbrace "expected '{' after struct name"
  fields ← until_closed tok_rbrace (struct_field k)
  expect tok_rbrace "expected '}' after struct"
  text ← intern name
  current ← package_name
  pure (node_at t (struct_decl text current type_params (nodes_of fields) is_public false))

unfoldable pub variant_field : Knots → Parse Node
variant_field k = do
  fn_tok ← expect tok_ident "expected field name"
  expect tok_colon "expected ':' after field name"
  ftype ← k.type
  text ← intern fn_tok
  unless tok_rparen (match_kind tok_comma)
  pure (node_at fn_tok (let_stmt text (at ftype) null))

unfoldable pub variant_fields : Knots → Parse (List Node)
variant_fields k = do
  fields ← until_closed tok_rparen (variant_field k)
  expect tok_rparen "expected ')' after variant fields"
  pure fields

unfoldable pub enum_variant : Knots → Parse (Bytes × List Node)
enum_variant k = do
  v ← expect tok_ident "expected enum variant"
  text ← intern v
  fields ← after tok_lparen (variant_fields k)
  expect tok_semicolon "expected ';' after variant"
  pure (text, case_option fields [] λ list. list)

abbrev variants_of : List (Bytes × List Node) → Variants
variants_of [] = no_variants
variants_of ((name, fields) ∷ rest) = variant name (nodes_of fields) (variants_of rest)

unfoldable pub parse_enum : Knots → Token → Bool → Parse Node
parse_enum k t is_public = do
  name ← expect tok_ident "expected enum name"
  expect tok_lbrace "expected '{' after enum name"
  variants ← until_closed tok_rbrace (enum_variant k)
  expect tok_rbrace "expected '}' after enum"
  text ← intern name
  current ← package_name
  pure (node_at t (enum_decl text current (variants_of variants) is_public))

unfoldable pub parse_union : Knots → Token → Bool → Parse Node
parse_union k t is_public = do
  name ← expect tok_ident "expected union name"
  expect tok_lbrace "expected '{' after union name"
  fields ← until_closed tok_rbrace (struct_field k)
  expect tok_rbrace "expected '}' after union"
  text ← intern name
  current ← package_name
  pure (node_at t (union_decl text current (nodes_of fields) is_public))
