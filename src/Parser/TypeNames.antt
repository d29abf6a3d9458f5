-- ===== src/Parser/TypeNames.antt =====
-- Types: compiler/src/parser/parser.c, lines 107-118 and 133-196.
pub mod Total
use apex_forge_night_script.Base.{
  ℕ, zero, suc, ◌+◌, ◌-◌, ◌%◌, ◌^◌, ◌==◌, ◌||◌, Bool, true, false, not, ◌&&◌, Option, none, some,
  List, [], ◌∷◌, ◌++◌, Bytes, ltb, take, length, if◌then◌else◌, String,
}
use apex_forge_night_script.Base.Int.{ℤ, pos, negsuc, minus_one}
use apex_forge_night_script.Ast.{Node, type_named, type_pointer, type_array}
use apex_forge_night_script.Token.{
  TokenKind, Token, Payload, int_val, float_val, str_val, kind_eq, kind_number, tok_question,
  tok_star, tok_const, tok_lbracket, tok_rbracket, tok_int, tok_dot, tok_eof,
}
use apex_forge_night_script.Parser.Knots.{Knots}
use apex_forge_night_script.Parser.State.{
  Parse, pure, no_fuel, rounds, ◌>>=◌, ◌>>◌, cur, prev, skip_token, check, if_match, expect, intern,
  expect_path_token, node_at,
}

-- `memcpy` of a text to the end of a buffer of `size` bytes and a terminator, as far as it fits.
abbrev pub append_within : ℕ → Bytes → Bytes → Bytes
append_within size buf text = buf ++ take (size - length buf) text

-- The member of the payload that the kind of the token stands for; the lexer sets no other.
abbrev pub int_of : Token → ℕ
int_of t = elim t.value [ int_val n ↦ n | float_val s ↦ 0 | str_val s ↦ 0 ]

-- `(int)` of a 64-bit value.
unfoldable pub to_int : ℕ → ℤ
to_int n = let low = n % 2 ^ 32 in if ltb low (2 ^ 31) then pos low else negsuc (2 ^ 32 - 1 - low)

-- `.name` parts, behind the text `buf`.
unfoldable pub dotted_loop : String → ℕ → Bytes → Parse Bytes
dotted_loop msg zero buf = no_fuel
dotted_loop msg (suc fuel) buf =
    if_match tok_dot
      (do
        id ← expect_path_token msg false
        text ← intern id
        let dot = if ltb (length buf) 254 then buf ++ b'.' ∷ [] else buf
        dotted_loop msg fuel (append_within 255 dot text))
      (pure buf)

-- The tokens of bracketed arguments, up to the one that closes the first.
unfoldable pub arguments_loop : ℕ → ℕ → Bytes → Parse Bytes
arguments_loop zero depth buf = no_fuel
arguments_loop (suc fuel) depth buf = do
  tok ← cur
  text ← intern tok
  let inner =
      if kind_eq tok.kind tok_lbracket
      then depth + 1
      else if kind_eq tok.kind tok_rbracket
      then depth - 1
      else depth
  let name = append_within 255 buf text
  skip_token
  if kind_eq tok.kind tok_eof || inner == 0
      then pure name
      else (do at_end ← check tok_eof; if at_end then pure name else arguments_loop fuel inner name)

unfoldable pub parse_named_type : Token → Parse Node
parse_named_type t = do
  id ← expect_path_token "expected type name" true
  text ← intern id
  path ← rounds λ fuel. dotted_loop "expected identifier after '.'" fuel (take 255 text)
  bracket ← check tok_lbracket
  name ← if bracket then rounds (λ fuel. arguments_loop fuel 0 path) else pure path
  pure (node_at t (type_named name))

unfoldable pub parse_array_type : Knots → Token → Parse Node
parse_array_type k t = do
  sized ← check tok_int
  length' ← if sized then (do n ← cur; skip_token; pure (to_int (int_of n))) else pure minus_one
  expect tok_rbracket "expected ']' in array/slice type"
  elem ← k.type
  pure (node_at t (type_array elem length'))

-- The parts of a type behind an optional `?`.
unfoldable pub parse_type_from : Knots → Token → Bool → Parse Node
parse_type_from k t is_null =
    if_match tok_star
      (do
        is_const ← if_match tok_const (pure true) (pure false)
        inner ← k.type
        pure (node_at t (type_pointer inner is_const is_null)))
      (if_match tok_lbracket (parse_array_type k t) (parse_named_type t))

unfoldable pub parse_type : Knots → Parse Node
parse_type k = do
  t ← cur
  is_null ← if_match tok_question (pure true) (pure false)
  parse_type_from k t is_null
