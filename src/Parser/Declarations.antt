-- ===== src/Parser/Declarations.antt =====
-- Declarations: compiler/src/parser/parser.c, lines 1010-1313.
pub mod Records
pub mod Total
use apex_forge_night_script.Base.{
  Bool, true, false, Option, none, some, List, [], ◌∷◌, Bytes, if◌then◌else◌, case_option,
}
use apex_forge_night_script.Ast.{
  Node, Nodes, none_left, nodes_of, at, null, lit_null, fn_decl, impl_decl, interface_decl,
  comptime_block, extern_fn, ui_app, kernel_app,
}
use apex_forge_night_script.Token.{
  TokenKind, Token, tok_pub, tok_const, tok_impl, tok_interface, tok_comptime, tok_packed,
  tok_struct, tok_enum, tok_union, tok_extern, tok_fn, tok_ui, tok_kernel, tok_app, tok_ident,
  tok_colon, tok_eq, tok_semicolon, tok_lbrace, tok_rbrace, tok_arrow, tok_string,
}
use apex_forge_night_script.Parser.Knots.{Knots}
use apex_forge_night_script.Parser.Expressions.{string_of}
use apex_forge_night_script.Parser.Statements.{const_parts}
use apex_forge_night_script.Parser.Functions.{parse_params, parse_fn_decl}
use apex_forge_night_script.Parser.Declarations.Records.{
  parse_packed, parse_struct, parse_enum, parse_union,
}
use apex_forge_night_script.Parser.State.{
  Parse, expected_const, expected_fn, unexpected_at_top_level, pure, ◌>>=◌, ◌>>◌, cur, prev,
  skip_token, check, if_match, match_kind, after, report, expect, intern, package_name,
  until_closed, node_at,
}

abbrev pub kept {ℓ} : {A : Type ℓ} → List (Option A) → List A
kept [] = []
kept (none ∷ rest) = kept rest
kept (some a ∷ rest) = a ∷ kept rest

unfoldable pub parse_const_decl : Knots → Token → Parse Node
parse_const_decl k t = do
  name ← expect tok_ident "expected name after 'const'"
  const_parts k t name "expected '=' after const name" "expected ';' after const value"

unfoldable pub impl_method : Knots → Token → Parse Node
impl_method k target = do
  mpub ← match_kind tok_pub
  expect tok_fn "expected 'fn' in impl block"
  owner ← intern target
  parse_fn_decl k mpub (some owner)

unfoldable pub iface_name_of : Parse Bytes
iface_name_of = do iface ← expect tok_ident "expected interface name after ':'"; intern iface

unfoldable pub parse_impl : Knots → Token → Parse Node
parse_impl k t = do
  target ← expect tok_ident "expected type name after impl"
  iface_name ← after tok_colon iface_name_of
  expect tok_lbrace "expected '{' after impl target"
  methods ← until_closed tok_rbrace (impl_method k target)
  expect tok_rbrace "expected '}' after impl block"
  text ← intern target
  current ← package_name
  pure (node_at t (impl_decl text current iface_name (nodes_of methods)))

unfoldable pub interface_method : Knots → Parse Node
interface_method k = do
  passed ← match_kind tok_pub
  expect tok_fn "expected 'fn' in interface body"
  fn_tok ← prev
  mname ← expect tok_ident "expected method name"
  params ← parse_params k
  expect tok_arrow "expected '->' in interface method"
  ret ← k.type
  expect tok_semicolon "expected ';' after interface method"
  text ← intern mname
  current ← package_name
  pure (node_at fn_tok (fn_decl text none current none_left params (at ret) null true))

unfoldable pub parse_interface : Knots → Token → Bool → Parse Node
parse_interface k t is_public = do
  name ← expect tok_ident "expected interface name"
  expect tok_lbrace "expected '{' after interface name"
  methods ← until_closed tok_rbrace (interface_method k)
  expect tok_rbrace "expected '}' after interface"
  text ← intern name
  current ← package_name
  pure (node_at t (interface_decl text current (nodes_of methods) is_public))

unfoldable pub comptime_const : Knots → Parse (Option Node)
comptime_const k = do
  cname ← expect tok_ident "expected name after 'const'"
  cn ←
      const_parts k cname cname "expected '=' in comptime const" "expected ';' after comptime const"
  pure (some cn)

-- The message has no column.
unfoldable pub comptime_item : Knots → Parse (Option Node)
comptime_item k = do
  cpub ← match_kind tok_pub
  if_match tok_const (comptime_const k) (do t ← cur; report t expected_const; skip_token; pure none)

unfoldable pub parse_comptime : Knots → Token → Parse Node
parse_comptime k t = do
  expect tok_lbrace "expected '{' after 'comptime'"
  decls ← until_closed tok_rbrace (comptime_item k)
  expect tok_rbrace "expected '}' after comptime block"
  pure (node_at t (comptime_block (nodes_of (kept decls))))

unfoldable pub calling_conv : Parse (Option Bytes)
calling_conv = do
  is_string ← check tok_string
  if is_string then (do t ← cur; skip_token; pure (some (string_of t))) else pure none

unfoldable pub parse_extern : Knots → Token → Bool → Parse Node
parse_extern k t is_public = do
  conv ← calling_conv
  expect tok_fn "expected 'fn' after extern"
  name ← expect tok_ident "expected function name"
  params ← parse_params k
  expect tok_arrow "expected '->'"
  ret ← k.type
  expect tok_semicolon "expected ';' after extern declaration"
  text ← intern name
  current ← package_name
  pure (node_at t (extern_fn text current conv params (at ret) is_public))

unfoldable pub parse_ui_app : Knots → Token → Bool → Parse Node
parse_ui_app k t is_public = do
  expect tok_app "expected 'app' after 'ui'"
  name ← expect tok_ident "expected app name after 'ui app'"
  expect tok_lbrace "expected '{' after app name"
  children ← until_closed tok_rbrace k.ui_element
  expect tok_rbrace "expected '}' after ui app body"
  text ← intern name
  current ← package_name
  pure (node_at t (ui_app text current (nodes_of children) is_public))

unfoldable pub kernel_fn : Knots → Parse (Option Node)
kernel_fn k = do
  is_pub ← match_kind tok_pub
  if_match tok_fn (do n ← parse_fn_decl k is_pub none; pure (some n))
      (do t ← cur; report t expected_fn; skip_token; pure none)

unfoldable pub parse_kernel_app : Knots → Token → Bool → Parse Node
parse_kernel_app k t is_public = do
  expect tok_app "expected 'app' after 'kernel'"
  name ← expect tok_ident "expected app name after 'kernel app'"
  expect tok_lbrace "expected '{' after kernel app name"
  fns ← until_closed tok_rbrace (kernel_fn k)
  expect tok_rbrace "expected '}' after kernel app body"
  text ← intern name
  current ← package_name
  pure (node_at t (kernel_app text current (nodes_of (kept fns)) is_public))

unfoldable pub parse_decl : Knots → Parse Node
parse_decl k = do
  t ← cur
  is_public ← match_kind tok_pub
  if_match tok_const (parse_const_decl k t) (
      if_match tok_impl (parse_impl k t) (
        if_match tok_interface (parse_interface k t is_public) (
          if_match tok_comptime (parse_comptime k t) (
            if_match tok_packed (parse_packed k t is_public) (
              if_match tok_struct (parse_struct k t is_public) (
                if_match tok_enum (parse_enum k t is_public) (
                  if_match tok_union (parse_union k t is_public) (
                    if_match tok_extern (parse_extern k t is_public) (
                      if_match tok_fn (parse_fn_decl k is_public none) (
                        if_match tok_ui (parse_ui_app k t is_public) (
                          if_match tok_kernel (parse_kernel_app k t is_public) (do
                            report t (unexpected_at_top_level t.kind)
                            skip_token
                            pure (node_at t lit_null)))))))))))))
