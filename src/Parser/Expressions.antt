-- ===== src/Parser/Expressions.antt =====
-- Expressions: compiler/src/parser/parser.c, lines 216-253, 336-342 and 469-690. The operators of
-- one level are a list of kinds that are tried in its order.
pub mod Total
pub mod Source
pub mod Operands
pub mod Precedence
use apex_forge_night_script.Base.{
  ℕ, zero, suc, List, [], ◌∷◌, ◌++◌, Option, none, some, Bool, true, false, Bytes, codes, ltb, take,
  length, if◌then◌else◌, case_option,
}
use apex_forge_night_script.Ast.{
  Node, Nodes, nodes_of, maybe_node, MaybeNode, null, at, lit_int, lit_float, lit_string, lit_char,
  lit_bool, lit_null, group, call, field, slice_expr, index_expr, unary, assign, cast, binary,
}
use apex_forge_night_script.Token.{
  TokenKind, Token, Payload, int_val, float_val, str_val, kind_eq, kind_number, tok_int, tok_float,
  tok_string, tok_char, tok_true, tok_false, tok_null, tok_match, tok_lparen, tok_rparen, tok_ident,
  tok_self, tok_comma, tok_dot, tok_lbracket, tok_rbracket, tok_dotdot, tok_question, tok_plusplus,
  tok_minusminus, tok_bang, tok_minus, tok_star, tok_amp, tok_tilde, tok_as, tok_slash, tok_percent,
  tok_plus, tok_lshift, tok_rshift, tok_lt, tok_gt, tok_le, tok_ge, tok_eqeq, tok_ne, tok_caret,
  tok_pipe, tok_andand, tok_oror, tok_plus_eq, tok_minus_eq, tok_star_eq, tok_slash_eq,
  tok_percent_eq, tok_eq,
}
use apex_forge_night_script.Parser.Knots.{Knots}
use apex_forge_night_script.Parser.TypeNames.{int_of, parse_type}
use apex_forge_night_script.Parser.Matches.{parse_match}
use apex_forge_night_script.Parser.Literals.{parse_name}
use apex_forge_night_script.Parser.State.{
  Parse, unexpected_in_expression, pure, no_fuel, rounds, ◌>>=◌, ◌>>◌, cur, prev, skip_token, check,
  if_match, if_match_any, unless, after, report, expect, intern, separated, node_at,
}

abbrev float_of : Token → Bytes
float_of t = elim t.value [ int_val n ↦ [] | float_val s ↦ s | str_val s ↦ [] ]

-- The text up to its first zero byte.
unfoldable pub c_text : Bytes → Bytes
c_text [] = []
c_text (zero ∷ bs) = []
c_text (suc c ∷ bs) = suc c ∷ c_text bs

unfoldable pub string_of : Token → Bytes
string_of t = elim t.value [ int_val n ↦ [] | float_val s ↦ [] | str_val s ↦ c_text s ]

unfoldable pub parse_group : Knots → Token → Parse Node
parse_group k t = do
  inner ← k.expr
  expect tok_rparen "expected ')'"
  pure (node_at t (group inner))

-- The literals of one token, or else `other`.
unfoldable pub parse_literal : Token → Parse Node → Parse Node
parse_literal t other =
    if_match tok_int (do v ← prev; pure (node_at t (lit_int (int_of v))))
      (if_match tok_float (do v ← prev; pure (node_at t (lit_float (float_of v))))
        (if_match tok_string (do v ← prev; pure (node_at t (lit_string (string_of v))))
          (if_match tok_char (do v ← prev; pure (node_at t (lit_char (int_of v))))
            (if_match tok_true (pure (node_at t (lit_bool 1))) (
              if_match tok_false (pure (node_at t (lit_bool 0)))
                (if_match tok_null (pure (node_at t lit_null)) other))))))

unfoldable pub parse_primary : Knots → Parse Node
parse_primary k = do
  t ← cur
  parse_literal t (
      if_match tok_match (parse_match k t) (
        if_match tok_lparen (parse_group k t) (
          if_match_any (tok_ident ∷ tok_self ∷ []) (parse_name k) (do
            report t (unexpected_in_expression t.kind)
            skip_token
            pure (node_at t lit_null)))))

unfoldable pub call_args : Knots → Parse Nodes
call_args k = do
  args ← unless tok_rparen (separated tok_comma k.expr)
  expect tok_rparen "expected ')' after arguments"
  pure (nodes_of (case_option args [] λ list. list))

unfoldable pub slice_end : Knots → Parse (Option Node)
slice_end k = do
  end ← unless tok_rbracket k.expr
  expect tok_rbracket "expected ']' after slice"
  pure end

-- An index or a slice, behind the `[` at `bt`.
unfoldable pub parse_bracket : Knots → Token → Node → Parse Node
parse_bracket k bt expr =
    if_match tok_dotdot
      (do end ← slice_end k; pure (node_at bt (slice_expr expr null (maybe_node end))))
      (do
        start ← k.expr
        if_match tok_dotdot
            (do end ← slice_end k; pure (node_at bt (slice_expr expr (at start) (maybe_node end))))
            (do
              expect tok_rbracket "expected ']' after index"
              pure (node_at bt (index_expr expr start))))

-- One round of the loop behind `expr`; `again` is what follows a suffix.
unfoldable pub postfix_step : Knots → Node → (Node → Parse Node) → Parse Node
unfolding kind_number
postfix_step k expr again =
    if_match tok_lparen (do pt ← prev; args ← call_args k; again (node_at pt (call expr args)))
      (if_match tok_dot
        (do
          name ← expect tok_ident "expected field name after '.'"
          text ← intern name
          again (node_at name (field expr text)))
        (if_match tok_lbracket (do bt ← prev; n ← parse_bracket k bt expr; again n)
          (if_match tok_question
            (do op ← prev; text ← intern op; again (node_at op (unary text expr)))
            (if_match_any (tok_plusplus ∷ tok_minusminus ∷ [])
              (do
                op ← prev
                let cop = if kind_eq op.kind tok_plusplus then codes "+" else codes "-"
                again (node_at op (assign expr (node_at op (lit_int 1)) (some cop))))
              (pure expr)))))

unfoldable pub postfix_loop : Knots → ℕ → Node → Parse Node
postfix_loop k zero expr = no_fuel
postfix_loop k (suc fuel) expr = postfix_step k expr (postfix_loop k fuel)

unfoldable pub parse_postfix : Knots → Parse Node
parse_postfix k = do expr ← parse_primary k; rounds λ fuel. postfix_loop k fuel expr

abbrev pub unary_ops : List TokenKind
unary_ops = tok_bang ∷ tok_minus ∷ tok_star ∷ tok_amp ∷ tok_tilde ∷ []

unfoldable pub parse_unary : Knots → Parse Node
parse_unary k =
    if_match_any unary_ops
      (do op ← prev; operand ← k.unary; text ← intern op; pure (node_at op (unary text operand)))
      (parse_postfix k)

unfoldable pub cast_loop : Knots → ℕ → Node → Parse Node
cast_loop k zero expr = no_fuel
cast_loop k (suc fuel) expr =
    if_match tok_as
      (do as_tok ← prev; type ← k.type; cast_loop k fuel (node_at as_tok (cast expr type)))
      (pure expr)

unfoldable pub parse_cast : Knots → Parse Node
parse_cast k = do expr ← parse_unary k; rounds λ fuel. cast_loop k fuel expr

unfoldable pub binop_loop : Parse Node → List TokenKind → ℕ → Node → Parse Node
binop_loop next ops zero l = no_fuel
binop_loop next ops (suc fuel) l =
    if_match_any ops
      (do
        op ← prev
        r ← next
        text ← intern op
        binop_loop next ops fuel (node_at op (binary text l r)))
      (pure l)

unfoldable pub parse_binop : Parse Node → List TokenKind → Parse Node
parse_binop next ops = do l ← next; rounds λ fuel. binop_loop next ops fuel l

-- The operators from `parse_factor` to `parse_logical_or`, the tightest level first.
abbrev pub levels : List (List TokenKind)
levels =
    (tok_star ∷ tok_slash ∷ tok_percent ∷ [])
    ∷ (tok_plus ∷ tok_minus ∷ [])
    ∷ (tok_lshift ∷ tok_rshift ∷ [])
    ∷ (tok_lt ∷ tok_gt ∷ tok_le ∷ tok_ge ∷ [])
    ∷ (tok_eqeq ∷ tok_ne ∷ [])
    ∷ (tok_amp ∷ [])
    ∷ (tok_caret ∷ [])
    ∷ (tok_pipe ∷ [])
    ∷ (tok_andand ∷ [])
    ∷ (tok_oror ∷ [])
    ∷ []

-- Each level is over the one before it.
unfoldable pub parse_levels : Parse Node → List (List TokenKind) → Parse Node
parse_levels next [] = next
parse_levels next (ops ∷ rest) = parse_levels (parse_binop next ops) rest

unfoldable pub parse_logical_or : Knots → Parse Node
parse_logical_or k = parse_levels (parse_cast k) levels

unfoldable pub assign_value : Knots → Node → Option Bytes → Parse Node
assign_value k target op = do eq ← prev; val ← k.expr; pure (node_at eq (assign target val op))

unfoldable pub parse_assign : Knots → Parse Node
parse_assign k = do
  l ← parse_logical_or k
  if_match tok_plus_eq (assign_value k l (some (codes "+"))) (
      if_match tok_minus_eq (assign_value k l (some (codes "-"))) (
        if_match tok_star_eq (assign_value k l (some (codes "*"))) (
          if_match tok_slash_eq (assign_value k l (some (codes "/"))) (
            if_match tok_percent_eq (assign_value k l (some (codes "%")))
              (if_match tok_eq (assign_value k l none) (pure l))))))

unfoldable pub parse_expr : Knots → Parse Node
parse_expr k = parse_assign k
