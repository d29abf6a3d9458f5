-- ===== src/Parser/Statements.antt =====
-- Blocks and statements: compiler/src/parser/parser.c, lines 694-852.
pub mod Total
use apex_forge_night_script.Base.{Bool, true, false, Option, none, some, String, if◌then◌else◌}
use apex_forge_night_script.Ast.{
  Node, node, nodes_of, maybe_node, line_of, col_of, block, let_stmt, const_stmt, return_stmt,
  if_stmt, while_stmt, for_stmt, loop_stmt, unsafe_stmt, break_stmt, continue_stmt, defer_stmt,
  expr_stmt,
}
use apex_forge_night_script.Token.{
  TokenKind, Token, tok_let, tok_const, tok_return, tok_if, tok_else, tok_while, tok_for, tok_loop,
  tok_unsafe, tok_break, tok_continue, tok_defer, tok_lbrace, tok_rbrace, tok_ident, tok_colon,
  tok_eq, tok_semicolon,
}
use apex_forge_night_script.Parser.Knots.{Knots}
use apex_forge_night_script.Parser.Expressions.{parse_expr}
use apex_forge_night_script.Parser.State.{
  Parse, pure, ◌>>=◌, ◌>>◌, cur, skip_token, check, if_match, after, unless, expect, intern,
  until_closed, node_at,
}

unfoldable pub parse_block : Knots → Parse Node
parse_block k = do
  brace ← expect tok_lbrace "expected '{'"
  stmts ← until_closed tok_rbrace k.stmt
  expect tok_rbrace "expected '}'"
  pure (node_at brace (block (nodes_of stmts)))

-- `let` behind the keyword at `t`, without its semicolon.
unfoldable pub let_parts : Knots → Token → Parse Node
let_parts k t = do
  name ← expect tok_ident "expected variable name"
  type ← after tok_colon k.type
  value ← after tok_eq k.expr
  text ← intern name
  pure (node_at t (let_stmt text (maybe_node type) (maybe_node value)))

-- A constant behind its name, as a node at `t`.
unfoldable pub const_parts : Knots → Token → Token → String → String → Parse Node
const_parts k t name eq_msg end_msg = do
  type ← after tok_colon k.type
  expect tok_eq eq_msg
  value ← k.expr
  expect tok_semicolon end_msg
  text ← intern name
  pure (node_at t (const_stmt text (maybe_node type) value))

unfoldable pub parse_let : Knots → Token → Parse Node
parse_let k t = do n ← let_parts k t; expect tok_semicolon "expected ';' after let"; pure n

unfoldable pub parse_const : Knots → Token → Parse Node
parse_const k t = do
  name ← expect tok_ident "expected constant name"
  const_parts k t name "expected '=' in const" "expected ';' after const"

unfoldable pub parse_return : Knots → Token → Parse Node
parse_return k t = do
  val ← unless tok_semicolon k.expr
  expect tok_semicolon "expected ';' after return"
  pure (node_at t (return_stmt (maybe_node val)))

-- What follows `else`.
unfoldable pub parse_else : Knots → Parse Node
parse_else k = do again ← check tok_if; if again then k.stmt else parse_block k

unfoldable pub parse_if : Knots → Token → Parse Node
parse_if k t = do
  cond ← k.expr
  then_blk ← parse_block k
  else_node ← after tok_else (parse_else k)
  pure (node_at t (if_stmt cond then_blk (maybe_node else_node)))

unfoldable pub parse_while : Knots → Token → Parse Node
parse_while k t = do cond ← k.expr; body ← parse_block k; pure (node_at t (while_stmt cond body))

unfoldable pub for_init : Knots → Token → Parse Node
for_init k t = do
  is_let ← check tok_let
  if is_let
      then (skip_token >> let_parts k t)
      else (do expr ← k.expr; pure (node (line_of expr) (col_of expr) (expr_stmt expr)))

unfoldable pub parse_for : Knots → Token → Parse Node
parse_for k t = do
  init ← unless tok_semicolon (for_init k t)
  expect tok_semicolon "expected ';' after for init"
  cond ← unless tok_semicolon k.expr
  expect tok_semicolon "expected ';' after for condition"
  post ← unless tok_lbrace k.expr
  body ← parse_block k
  pure (node_at t (for_stmt (maybe_node init) (maybe_node cond) (maybe_node post) body))

unfoldable pub parse_defer : Knots → Token → Parse Node
parse_defer k t = do
  expr ← k.expr
  expect tok_semicolon "expected ';' after defer"
  pure (node_at t (defer_stmt expr))

unfoldable pub parse_expr_stmt : Knots → Token → Parse Node
parse_expr_stmt k t = do
  expr ← parse_expr k
  expect tok_semicolon "expected ';' after expression"
  pure (node_at t (expr_stmt expr))

unfoldable pub parse_stmt : Knots → Parse Node
parse_stmt k = do
  t ← cur
  if_match tok_let (parse_let k t) (
      if_match tok_const (parse_const k t) (
        if_match tok_return (parse_return k t) (
          if_match tok_if (parse_if k t) (
            if_match tok_while (parse_while k t) (
              if_match tok_for (parse_for k t) (
                if_match tok_loop (do body ← parse_block k; pure (node_at t (loop_stmt body)))
                  (if_match tok_unsafe
                    (do body ← parse_block k; pure (node_at t (unsafe_stmt body)))
                    (if_match tok_break
                      (expect tok_semicolon "expected ';' after break"
                        >> pure (node_at t break_stmt))
                      (if_match tok_continue
                        (expect tok_semicolon "expected ';' after continue"
                          >> pure (node_at t continue_stmt))
                        (if_match tok_defer (parse_defer k t) (parse_expr_stmt k t)))))))))))
