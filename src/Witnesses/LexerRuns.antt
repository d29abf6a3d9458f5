-- ===== src/Witnesses/LexerRuns.antt =====
-- The theorems on the lexer, at concrete sources.
use apex_forge_night_script.Base.{
  ℕ, ◌≡◌, ◌≢◌, refl, ◌≤◌, ◌<◌, [], ◌∷◌, ◌++◌, Bytes, codes, map, length, ◌%◌, ◌-◌, arith,
}
use apex_forge_night_script.Token.{
  TokenKind, Token, int_val, str_val, tok_fn, tok_int, tok_eof, tok_string, tok_ident,
  token_kind_name,
}
use apex_forge_night_script.Lexer.Comments.{
  Closes, done, opens, closes, inside, ends, skip_block-Closes, lexer_tokenize-open_comment,
}
use apex_forge_night_script.Lexer.Cursor.{Lexer, start_of, advance, TokenList, no_tokens, list_push}
use apex_forge_night_script.Lexer.Growth.{list_push-room}
use apex_forge_night_script.Lexer.Literals.{
  Scanned, is_digit, lex_decimal, lex_hex, lex_fraction, lex_exponent, digits_loop, digit_or,
  word64,
}
use apex_forge_night_script.Lexer.Numbers.{
  digit_run, numeral, hex_place, is_place, lex_hex-numeral, lex_decimal-numeral,
}
use apex_forge_night_script.Lexer.Quoting.{quote, escape_letter, lex_string-quote}
use apex_forge_night_script.Lexer.Result.{ok, out_of_fuel}
use apex_forge_night_script.Lexer.Scan.{lexer_tokenize}
use apex_forge_night_script.Lexer.Scan.Total.{Stream, lexer_tokenize-Stream, lexer_tokenize-total}
use apex_forge_night_script.Lexer.Skip.{skip_block}
use apex_forge_night_script.Lexer.Skip.Total.{Skipped, skip-total}
use apex_forge_night_script.Lexer.Strings.{lex_string}
use apex_forge_night_script.Lexer.Tables.{ident_or_keyword}
use apex_forge_night_script.Lexer.Tables.Names.{token_kind_name-ident_or_keyword}

abbrev two_lines : Bytes
two_lines = codes "a\n 1"

abbrev token : TokenKind → ℕ → ℕ → ℕ → ℕ → ℕ → Token
token k start len line col n = record {
  kind = k;
  start = start;
  len = len;
  line = line;
  col = col;
  value = int_val n;
}

abbrev two_lines_tokens : TokenList
two_lines_tokens = record {
  tokens = token tok_ident 0 1 1 1 0 ∷ token tok_int 3 1 2 2 1 ∷ token tok_eof 4 0 2 3 0 ∷ [];
  capacity = 64;
}

two_lines_run : lexer_tokenize two_lines ≡ ok two_lines_tokens
unfolding lexer_tokenize
two_lines_run = refl

lexer_tokenize-Stream_example : Stream two_lines 0 two_lines_tokens.tokens
lexer_tokenize-Stream_example = lexer_tokenize-Stream two_lines two_lines_run

lexer_tokenize-total_example : lexer_tokenize (codes "/* \"x") ≢ out_of_fuel
lexer_tokenize-total_example = lexer_tokenize-total (codes "/* \"x")

skip-total_example : Skipped 9 (start_of (codes " // a\n b"))
skip-total_example = skip-total 9 (start_of (codes " // a\n b")) (omega arith)

-- A comment in a comment.
nested : Closes 1 (codes "/*a*/*/")
nested = opens (inside refl refl refl (closes (closes done)))

skip_block-Closes_example : (skip_block (start_of (codes "/*/*a*/*/ b"))).rest ≡ codes " b"
skip_block-Closes_example =
    skip_block-Closes (codes "/*a*/*/") (codes " b") (start_of (codes "/*/*a*/*/ b")) nested refl

lexer_tokenize-open_comment_example :
    (tl : TokenList) × (lexer_tokenize (codes "/*a/**/") ≡ ok tl)
    × (map (λ t. t.kind) tl.tokens ≡ tok_eof ∷ [])
lexer_tokenize-open_comment_example =
    lexer_tokenize-open_comment (codes "a/**/") (inside refl refl refl (opens (closes ends)))

lex_hex-numeral_example :
    (lex_hex (start_of (codes "0xF_f "))).value
    ≡ int_val (
        numeral 16
          (λ c. digit_or (hex_place c))
          (digit_run
            (λ c. is_place (hex_place c))
            (advance (advance (start_of (codes "0xF_f ")))).rest)
          0
        % word64)
lex_hex-numeral_example = lex_hex-numeral (start_of (codes "0xF_f "))

decimal_run : (lex_decimal (start_of (codes "12_0;"))).kind ≡ tok_int
unfolding lex_decimal lex_fraction lex_exponent digits_loop is_digit advance
decimal_run = refl

lex_decimal-numeral_example :
    (lex_decimal (start_of (codes "12_0;"))).value
    ≡ int_val (numeral 10 (λ c. c - b'0') (digit_run is_digit (codes "12_0;")) 0 % word64)
lex_decimal-numeral_example = lex_decimal-numeral (start_of (codes "12_0;")) decimal_run

fn_ne_ident : ident_or_keyword (codes "fn") ≢ tok_ident
unfolding ident_or_keyword
fn_ne_ident = cc

token_kind_name-ident_or_keyword_example :
    token_kind_name (ident_or_keyword (codes "fn")) ≡ codes "fn"
token_kind_name-ident_or_keyword_example = token_kind_name-ident_or_keyword (codes "fn") fn_ne_ident

abbrev quoted : Lexer
quoted = start_of (codes "\"a\\\"b\\n\" x")

quoted_rest : quoted.rest ≡ b'"' ∷ (quote (codes "a\"b\n") ++ b'"' ∷ codes " x")
unfolding quote escape_letter
quoted_rest = refl

lex_string-quote_example :
    (t : Scanned) × (lex_string quoted ≡ ok t)
    × (t.kind ≡ tok_string)
    × (t.value ≡ str_val (codes "a\"b\n"))
    × (t.after.rest ≡ codes " x")
lex_string-quote_example =
    lex_string-quote (codes "a\"b\n") (codes " x") quoted (omega arith) quoted_rest

list_push-room_example :
    (0 < (list_push no_tokens (token tok_fn 0 2 1 1 0)).capacity)
    × ((list_push no_tokens (token tok_fn 0 2 1 1 0)).capacity < 2147483648)
    × ((list_push no_tokens (token tok_fn 0 2 1 1 0)).tokens ≡ token tok_fn 0 2 1 1 0 ∷ [])
    × (length (list_push no_tokens (token tok_fn 0 2 1 1 0)).tokens
        ≤ (list_push no_tokens (token tok_fn 0 2 1 1 0)).capacity)
list_push-room_example =
    list_push-room no_tokens (token tok_fn 0 2 1 1 0) (omega arith) (omega arith) (omega arith)
