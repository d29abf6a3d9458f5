-- ===== src/Parser/Matches.antt =====
-- Match expressions: compiler/src/parser/parser.c, lines 255-334, behind the keyword.
pub mod Total
use apex_forge_night_script.Base.{
  ℕ, zero, suc, List, [], ◌∷◌, ◌++◌, Option, none, some, Bytes, codes, ltb, take, length,
  if◌then◌else◌, case_option,
}
use apex_forge_night_script.Ast.{Node, Arms, no_arms, arm, match_expr}
use apex_forge_night_script.Token.{
  TokenKind, Token, tok_underscore, tok_ident, tok_dot, tok_lparen, tok_rparen, tok_comma,
  tok_fat_arrow, tok_lbrace, tok_rbrace,
}
use apex_forge_night_script.Parser.Knots.{Knots}
use apex_forge_night_script.Parser.State.{
  Parse, pure, no_fuel, bad_read, rounds, ◌>>=◌, ◌>>◌, if_match, match_kind, expect, intern,
  unless_closed, until_closed, node_at,
}

pub record Arm : Type 0 where
  pub pattern : Bytes
  pub bindings : List Bytes
  pub value : Node

abbrev arms_of : List Arm → Arms
arms_of [] = no_arms
arms_of (a ∷ rest) = arm a.pattern a.bindings a.value (arms_of rest)

-- `pat` has 128 bytes, the last for the end of the text; `plen` counts the whole text, and as many bytes
-- are copied from `pat`.
unfoldable pub dotted_pattern : Bytes → Bytes → Option Bytes
dotted_pattern name variant =
    let pat = name ++ b'.' ∷ variant in if ltb 128 (length pat) then none else some (take 127 pat)

unfoldable pub pattern_name : Parse Bytes
pattern_name = do
  en ← expect tok_ident "expected enum name or '_' in match arm"
  name ← intern en
  if_match tok_dot
      (do
        vr ← expect tok_ident "expected variant name"
        variant ← intern vr
        case_option (dotted_pattern name variant) bad_read pure)
      (pure (take 127 name))

unfoldable pub bindings_loop : ℕ → Parse (List Bytes)
bindings_loop zero = no_fuel
bindings_loop (suc fuel) =
    unless_closed tok_rparen
      (do
        bn ← expect tok_ident "expected binding name in match pattern"
        name ← intern bn
        if_match tok_comma (do rest ← bindings_loop fuel; pure (name ∷ rest)) (pure (name ∷ [])))
      (pure [])

unfoldable pub arm_bindings : Parse (List Bytes)
arm_bindings =
    if_match tok_lparen
      (do
        names ← rounds bindings_loop
        expect tok_rparen "expected ')' after match bindings"
        pure names)
      (pure [])

-- What is in front of `=>`.
unfoldable pub arm_pattern : Parse (Bytes × List Bytes)
arm_pattern =
    if_match tok_underscore (pure (codes "_", []))
      (do name ← pattern_name; bindings ← arm_bindings; pure (name, bindings))

unfoldable pub match_arm : Knots → Parse Arm
match_arm k = do
  pat ← arm_pattern
  expect tok_fat_arrow "expected '=>' in match arm"
  val ← k.expr
  match_kind tok_comma
  pure (record { pattern = pat.0; bindings = pat.1; value = val })

unfoldable pub parse_match : Knots → Token → Parse Node
parse_match k t = do
  subject ← k.expr
  expect tok_lbrace "expected '{' after match subject"
  arms ← until_closed tok_rbrace (match_arm k)
  expect tok_rbrace "expected '}' after match arms"
  pure (node_at t (match_expr subject (arms_of arms)))
