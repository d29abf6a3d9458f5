-- ===== src/Parser/Functions.antt =====
-- Parameter lists and functions: compiler/src/parser/parser.c, lines 856-877 and 975-1008.
pub mod Total
use apex_forge_night_script.Base.{
  Bool, true, false, not, Option, none, some, List, [], ◌∷◌, Bytes, if◌then◌else◌, case_option,
}
use apex_forge_night_script.Ast.{
  Node, Nodes, none_left, nodes_of, at, null, let_stmt, type_named, fn_decl,
}
use apex_forge_night_script.Token.{
  TokenKind, Token, tok_lparen, tok_rparen, tok_lbracket, tok_rbracket, tok_self, tok_ident,
  tok_colon, tok_comma, tok_arrow,
}
use apex_forge_night_script.Parser.Knots.{Knots}
use apex_forge_night_script.Parser.Statements.{parse_block}
use apex_forge_night_script.Parser.State.{
  Parse, pure, ◌>>=◌, ◌>>◌, cur, prev, skip_token, check, unless, expect, intern, package_name,
  separated, node_at,
}

unfoldable pub parse_param : Knots → Parse Node
parse_param k = do
  is_self ← check tok_self
  name ←
      if is_self
      then (do t ← cur; skip_token; pure t)
      else expect tok_ident "expected parameter name"
  expect tok_colon "expected ':' after parameter name"
  type ← k.type
  text ← intern name
  pure (node_at name (let_stmt text (at type) null))

unfoldable pub parse_params : Knots → Parse Nodes
parse_params k = do
  expect tok_lparen "expected '('"
  params ← unless tok_rparen (separated tok_comma (parse_param k))
  expect tok_rparen "expected ')' after parameters"
  pure (nodes_of (case_option params [] λ list. list))

unfoldable pub type_param : Parse Node
type_param = do
  t ← expect tok_ident "expected type parameter name"
  text ← intern t
  pure (node_at t (type_named text))

unfoldable pub parse_type_params : Parse Nodes
parse_type_params = do
  opens ← check tok_lbracket
  if not opens then pure none_left else (do
    skip_token
    tp ← separated tok_comma type_param
    expect tok_rbracket "expected ']' after type parameters"
    pure (nodes_of tp))

-- Behind the `fn`.
unfoldable pub parse_fn_decl : Knots → Bool → Option Bytes → Parse Node
parse_fn_decl k is_public owner_type = do
  t ← prev
  name ← expect tok_ident "expected function name"
  type_params ← parse_type_params
  params ← parse_params k
  expect tok_arrow "expected '->' before return type"
  ret ← k.type
  body ← parse_block k
  text ← intern name
  current ← package_name
  pure (node_at t (fn_decl text owner_type current type_params params (at ret) (at body) is_public))
