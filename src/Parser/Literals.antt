-- ===== src/Parser/Literals.antt =====
-- Struct literals and names: compiler/src/parser/parser.c, lines 344-467, behind the identifier. The
-- look-ahead reads the tokens in front of it up to `count`.
pub mod Total
use apex_forge_night_script.Base.{
  ℕ, zero, suc, ◌+◌, List, [], ◌∷◌, ◌++◌, Bool, true, false, not, ◌&&◌, ◌||◌, Bytes, take, drop,
  if◌then◌else◌, case_list,
}
use apex_forge_night_script.Ast.{Node, Inits, no_inits, init, struct_lit, ident}
use apex_forge_night_script.Token.{
  TokenKind, Token, kind_eq, kind_number, tok_ident, tok_colon, tok_comma, tok_lbracket,
  tok_rbracket, tok_lbrace, tok_rbrace,
}
use apex_forge_night_script.Parser.Knots.{Knots}
use apex_forge_night_script.Parser.TypeNames.{append_within}
use apex_forge_night_script.Parser.State.{
  Parse, pure, no_fuel, rounds, ◌>>=◌, ◌>>◌, cur, prev, skip_token, in_array, ahead, check,
  match_kind, expect, intern, until_closed, node_at,
}

unfoldable pub starts_with : TokenKind → List Token → Bool
unfolding kind_number
starts_with k ts = case_list ts false λ t rest. kind_eq t.kind k

-- The tokens behind a `{` are `}` or a field and a colon.
unfoldable pub looks_like : List Token → Bool
looks_like ts =
    starts_with tok_rbrace ts || starts_with tok_ident ts && starts_with tok_colon (drop 1 ts)

-- What is behind the bracket that closes the `depth` open ones.
unfoldable pub scan_close : ℕ → List Token → List Token
unfolding kind_number
scan_close depth [] = []
scan_close zero (t ∷ ts) = t ∷ ts
scan_close (suc depth) (t ∷ ts) =
    let inner =
      if kind_eq t.kind tok_lbracket
      then suc (suc depth)
      else if kind_eq t.kind tok_rbracket
      then depth
      else suc depth in
    scan_close inner ts

-- `is_gen_sl`, from a `[`.
unfoldable pub is_generic_literal : List Token → Bool
is_generic_literal ts =
    let rest = scan_close 1 (drop 1 ts) in starts_with tok_lbrace rest && looks_like (drop 1 rest)

unfoldable pub field_init : Knots → Parse (Bytes × Node)
field_init k = do
  fn_tok ← expect tok_ident "expected field name"
  expect tok_colon "expected ':' after field name"
  fv ← k.expr
  match_kind tok_comma
  name ← intern fn_tok
  pure (name, fv)

abbrev inits_of : List (Bytes × Node) → Inits
inits_of [] = no_inits
inits_of ((name, value) ∷ rest) = init name value (inits_of rest)

unfoldable pub field_inits : Knots → Parse Inits
field_inits k = do
  fields ← until_closed tok_rbrace (field_init k)
  expect tok_rbrace "expected '}' after struct literal"
  pure (inits_of fields)

-- The tokens up to the next `]`, behind the text `buf` of `gen_name`.
unfoldable pub generic_name_loop : ℕ → Bytes → Parse Bytes
generic_name_loop zero buf = no_fuel
generic_name_loop (suc fuel) buf = do
  inside ← in_array
  if not inside then pure buf else (do
    tt' ← cur
    text ← intern tt'
    skip_token
    if kind_eq tt'.kind tok_rbracket
        then pure buf
        else generic_name_loop fuel (append_within 254 buf text))

unfoldable pub parse_generic_literal : Knots → Token → Parse Node
parse_generic_literal k id = do
  text ← intern id
  skip_token
  buf ← rounds λ fuel. generic_name_loop fuel (take 200 text ++ b'[' ∷ [])
  skip_token
  inits ← field_inits k
  pure (node_at id (struct_lit (buf ++ b']' ∷ []) inits))

unfoldable pub parse_plain_name : Knots → Token → Parse Node
parse_plain_name k id = do
  text ← intern id
  brace ← check tok_lbrace
  tokens ← ahead
  if brace && looks_like (drop 1 tokens)
      then (do skip_token; inits ← field_inits k; pure (node_at id (struct_lit text inits)))
      else pure (node_at id (ident text))

unfoldable pub parse_name : Knots → Parse Node
parse_name k = do
  id ← prev
  bracket ← check tok_lbracket
  tokens ← ahead
  if bracket && is_generic_literal tokens then parse_generic_literal k id else parse_plain_name k id
