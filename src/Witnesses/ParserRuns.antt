-- ===== src/Witnesses/ParserRuns.antt =====
-- The theorems on the parser, at concrete tokens, and runs of it.
use apex_forge_night_script.Parser.Program.{parser_parse, knots}
use apex_forge_night_script.Parser.Expressions.{parse_expr}
use apex_forge_night_script.Parser.Expressions.Precedence.{Assigned}
use apex_forge_night_script.Parser.Program.Operators.{parse_expr-Nested}
use apex_forge_night_script.Base.{
  ℕ, ◌+◌, ◌≡◌, ◌≢◌, refl, true, false, List, [], ◌∷◌, ◌++◌, none, some, Bytes, codes, arith,
}
use apex_forge_night_script.Base.Int.{minus_one}
use apex_forge_night_script.Parser.TypeNames.{parse_type}
use apex_forge_night_script.Parser.Program.Spelling.{
  Place, placed, Spells, name, slice, const_pointer, at_tokens, Follows, parse_type-Spells,
}
use apex_forge_night_script.Ast.{
  Node, node, none_left, next, null, program, const_stmt, lit_int, binary, ident, type_pointer,
  type_array, type_named,
}
use apex_forge_night_script.Token.{
  TokenKind, Token, int_val, kind_number, lexeme, tok_const, tok_ident, tok_eq, tok_int,
  tok_semicolon, tok_eof, tok_plus, tok_star, tok_lbracket, tok_rbracket,
}
use apex_forge_night_script.Parser.State.{Parser, done, fault, out_of_fuel}
use apex_forge_night_script.Parser.Gives.{closed_by}
use apex_forge_night_script.Parser.Program.Total.{parser_parse-out_of_fuel}
use apex_forge_night_script.Parser.Program.AtEnd.{parser_parse-closed_by}

abbrev token : TokenKind → ℕ → ℕ → ℕ → Token
token k start len n = record {
  kind = k;
  start = start;
  len = len;
  line = 1;
  col = start + 1;
  value = int_val n;
}

abbrev source : Bytes
source = codes "const a = 1 + 2 * b;"

abbrev tokens : List Token
tokens =
    token tok_const 0 5 0
    ∷ token tok_ident 6 1 0
    ∷ token tok_eq 8 1 0
    ∷ token tok_int 10 1 1
    ∷ token tok_plus 12 1 0
    ∷ token tok_int 14 1 2
    ∷ token tok_star 16 1 0
    ∷ token tok_ident 18 1 0
    ∷ token tok_semicolon 19 1 0
    ∷ token tok_eof 20 0 0
    ∷ []

abbrev sum : Node
sum = node 1 13 (
    binary (codes "+") (node 1 11 (lit_int 1))
      (node 1 17 (binary (codes "*") (node 1 15 (lit_int 2)) (node 1 19 (ident (codes "b"))))))

abbrev tree : Node
tree =
    node 1 1 (program null none_left (next (node 1 1 (const_stmt (codes "a") null sum)) none_left))

abbrev at_the_end : Parser
at_the_end = record {
  src = source;
  last = some (token tok_semicolon 19 1 0);
  rest = token tok_eof 20 0 0 ∷ [];
  errors = [];
  current_package = none;
}

-- A product binds tighter than a sum.
parse_source : parser_parse source tokens ≡ done (some tree) at_the_end
unfolding parser_parse
parse_source = refl

-- A source that ends inside an expression is read behind its end token.
parse_cut_off :
    parser_parse source (
      token tok_const 0 5 0
      ∷ token tok_ident 6 1 0
      ∷ token tok_eq 8 1 0
      ∷ token tok_eof 10 0 0
      ∷ [])
    ≡ fault
unfolding parser_parse
parse_cut_off = refl

parser_parse-out_of_fuel_example : parser_parse source tokens ≢ out_of_fuel
parser_parse-out_of_fuel_example = parser_parse-out_of_fuel source tokens

parser_parse-closed_by_example : closed_by tok_eof at_the_end ≡ true
parser_parse-closed_by_example =
    parser_parse-closed_by source tokens (some tree) at_the_end parse_source

abbrev at_value : Parser
at_value = record {
  src = source;
  last = some (token tok_eq 8 1 0);
  rest =
      token tok_int 10 1 1
      ∷ token tok_plus 12 1 0
      ∷ token tok_int 14 1 2
      ∷ token tok_star 16 1 0
      ∷ token tok_ident 18 1 0
      ∷ token tok_semicolon 19 1 0
      ∷ token tok_eof 20 0 0
      ∷ [];
  errors = [];
  current_package = none;
}

abbrev behind_value : Parser
behind_value = record {
  src = source;
  last = some (token tok_ident 18 1 0);
  rest = token tok_semicolon 19 1 0 ∷ token tok_eof 20 0 0 ∷ [];
  errors = [];
  current_package = none;
}

parse_value : parse_expr (knots 3) at_value ≡ done sum behind_value
unfolding parser_parse
parse_value = refl

parse_expr-Nested_example : Assigned source sum
parse_expr-Nested_example = parse_expr-Nested 3 at_value behind_value sum parse_value

abbrev place : ℕ → ℕ → Place
place start len = record { start = start; len = len; line = 1; col = start + 1; value = int_val 0 }

abbrev type_source : Bytes
type_source = codes "*const []i32;"

abbrev type_tokens : List Token
type_tokens =
    placed tok_star (place 0 1)
    ∷ placed tok_const (place 1 5)
    ∷ placed tok_lbracket (place 7 1)
    ∷ placed tok_rbracket (place 8 1)
    ∷ placed tok_ident (place 9 3)
    ∷ []

abbrev type_node : Node
type_node = node 1 1 (
    type_pointer (node 1 8 (type_array (node 1 10 (type_named (codes "i32"))) minus_one)) true
      false)

type_tokens-Spells : Spells type_source type_tokens type_node
unfolding lexeme
type_tokens-Spells =
    const_pointer (place 0 1) (place 1 5) (slice (place 7 1) (place 8 1) (name (place 9 3)))

semicolon-Follows : Follows (token tok_semicolon 12 1 0)
unfolding kind_number
semicolon-Follows = (refl, refl)

parse_type-Spells_example :
    (l : Token) × (parse_type
        (knots 5)
        (at_tokens type_source none (type_tokens ++ token tok_semicolon 12 1 0 ∷ []) [] none)
      ≡ done type_node (at_tokens type_source (some l) (token tok_semicolon 12 1 0 ∷ []) [] none))
parse_type-Spells_example =
    parse_type-Spells type_source 5 type_tokens type_node none (token tok_semicolon 12 1 0) [] []
      none (omega arith) type_tokens-Spells semicolon-Follows
