-- ===== src/Lexer/Scan.antt =====
-- compiler/src/lexer/lexer.c, lines 157-384: one round of the loop of `lexer_tokenize`, and the
-- loop. A round consumes a byte at least, so the source's length is enough fuel.
pub mod Progress
pub mod Total
use apex_forge_night_script.Base.{
  ℕ, zero, suc, ◌+◌, ◌-◌, ◌&&◌, ◌||◌, none, some, Bytes, ◌==◌, if◌then◌else◌, case_option, length,
}
use apex_forge_night_script.Token.{
  TokenKind, kind_number, Payload, Token, int_val, float_val, str_val, tok_dotdot, tok_eof,
}
use apex_forge_night_script.Lexer.Cursor.{
  Lexer, peek, peek_next, advance, advance_while, is_at_end, start_of, TokenList, no_tokens,
  list_push,
}
use apex_forge_night_script.Lexer.Literals.{
  Scanned, is_word, is_alpha, is_digit, lex_word, lex_number, lex_hex, lex_decimal, lex_fraction,
  lex_exponent, digits_loop, hex_digit,
}
use apex_forge_night_script.Lexer.Result.{Result, ok, err, out_of_fuel, ◌>>=◌, unexpected_character}
use apex_forge_night_script.Lexer.Skip.{
  skip_whitespace_and_comments, skip_spaces, skip_line, skip_block, is_space, block_comment,
}
use apex_forge_night_script.Lexer.Strings.{
  text_length, lex_string, lex_char, string_loop, lex_escape, escaped, put, lex_char_body,
}
use apex_forge_night_script.Lexer.Tables.{two_byte_kind, one_byte_kind, ident_or_keyword}

-- A token that starts at `l` and reaches to `m`.
abbrev pub spanning : Lexer → TokenKind → Payload → Lexer → Token × Lexer
spanning l k v m = (
  record { kind = k; start = l.pos; len = m.pos - l.pos; line = l.line; col = l.col; value = v },
  m,
)

-- A token whose pointer is set back `n` bytes from the end of what was read.
abbrev pub set_back : Lexer → ℕ → Scanned → Token × Lexer
set_back l n s = (
  record {
    kind = s.kind;
    start = s.after.pos - n;
    len = n;
    line = l.line;
    col = l.col;
    value = s.value;
  },
  s.after,
)

abbrev pub scanned : Lexer → Scanned → Token × Lexer
scanned l s = spanning l s.kind s.value s.after

unfoldable pub one_byte_token : Lexer → Result (Token × Lexer)
one_byte_token l =
    if peek l == b'.' && peek_next l == b'.'
    then ok (spanning l tok_dotdot (int_val 0) (advance (advance l)))
    else case_option (one_byte_kind (peek l)) (err (unexpected_character (peek l)) l.line l.col)
        λ k. ok (spanning l k (int_val 0) (advance l))

unfoldable pub literal_token : Lexer → Result (Token × Lexer)
literal_token l =
    if is_alpha (peek l) || peek l == b'_'
    then ok (scanned l (lex_word l))
    else if is_digit (peek l)
    then ok (scanned l (lex_number l))
    else if peek l == b'"'
    then (lex_string l >>= λ s. ok (set_back l (text_length s.value + 2) s))
    else if peek l == b'\''
    then (lex_char l >>= λ s. ok (set_back l 3 s))
    else one_byte_token l

unfoldable pub next_token : Lexer → Result (Token × Lexer)
next_token l =
    case_option (two_byte_kind (peek l) (peek_next l)) (literal_token l)
      λ k. ok (spanning l k (int_val 0) (advance (advance l)))

abbrev pub eof_at : Lexer → Token
eof_at l = record {
  kind = tok_eof;
  start = l.pos;
  len = 0;
  line = l.line;
  col = l.col;
  value = int_val 0;
}

unfoldable pub skip_blank : Lexer → Result Lexer
skip_blank l =
    case_option (skip_whitespace_and_comments (length l.rest + 1) l) out_of_fuel λ m. ok m

unfoldable pub tokenize_loop : ℕ → Lexer → TokenList → Result TokenList
tokenize_loop zero l out = out_of_fuel
tokenize_loop (suc fuel) l out = skip_blank l >>= λ m.
    let more = next_token m >>= λ (t, n). tokenize_loop fuel n (list_push out t) in
    if is_at_end m then ok (list_push out (eof_at m)) else more

unfoldable pub lexer_tokenize : Bytes → Result TokenList
unfolding kind_number tokenize_loop list_push advance advance_while skip_blank
    skip_whitespace_and_comments skip_spaces skip_line skip_block is_space block_comment next_token
    two_byte_kind literal_token one_byte_token one_byte_kind lex_word is_word is_alpha is_digit
    ident_or_keyword lex_number lex_hex lex_decimal lex_fraction lex_exponent digits_loop hex_digit
    lex_string string_loop lex_escape escaped put lex_char lex_char_body
lexer_tokenize src = tokenize_loop (length src + 1) (start_of src) no_tokens
