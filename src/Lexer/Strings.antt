-- ===== src/Lexer/Strings.antt =====
-- compiler/src/lexer/lexer.c, lines 138-153 and 263-324: escapes, string and character literals.
pub mod Progress
use apex_forge_night_script.Base.{
  ℕ, Option, none, some, [], ◌∷◌, ◌++◌, Bytes, ◌==◌, ltb, if◌then◌else◌, case_option, length,
}
use apex_forge_night_script.Token.{Payload, int_val, float_val, str_val, tok_string, tok_char}
use apex_forge_night_script.Lexer.Cursor.{Lexer, peek, advance, is_at_end}
use apex_forge_night_script.Lexer.Literals.{Scanned}
use apex_forge_night_script.Lexer.Result.{
  Result, ok, err, ◌>>=◌, unknown_escape, unterminated_string, unterminated_character,
  not_one_character,
}

-- The `switch` of `lex_escape`: the byte that stands for `c` behind a backslash.
unfoldable pub escaped : ℕ → Option ℕ
escaped c =
    if c == b'n'
    then some b'\n'
    else if c == b'r'
    then some b'\r'
    else if c == b't'
    then some b'\t'
    else if c == b'0'
    then some 0
    else if c == b'\\'
    then some b'\\'
    else if c == b'"'
    then some b'"'
    else if c == b'\''
    then some b'\''
    else none

-- The error is reported at the position behind the escape.
unfoldable pub lex_escape : Lexer → Result (ℕ × Lexer)
lex_escape l =
    let m = advance l in
    case_option (escaped (peek l)) (err (unknown_escape (peek l)) m.line m.col) λ ch. ok (ch, m)

-- `char buf[4096]`: what is read past the 4095th byte is dropped.
abbrev pub buffer_limit : ℕ
buffer_limit = 4095

unfoldable pub put : Bytes → ℕ → Bytes
put buf ch = if ltb (length buf) buffer_limit then buf ++ ch ∷ [] else buf

-- The loop over the bytes behind the opening quote, and the test behind the loop; `at` is the state
-- before the quote, whose position the errors carry.
unfoldable pub string_loop : Lexer → Bytes → Bytes → Lexer → Result (Bytes × Lexer)
string_loop at [] buf l = err unterminated_string at.line at.col
string_loop at (c ∷ []) buf l =
    if c == 0
    then err unterminated_string at.line at.col
    else if c == b'"'
    then ok (buf, advance l)
    else if c == b'\n'
    then err unterminated_string at.line at.col
    else if c == b'\\'
    then (lex_escape (advance l) >>= λ _. err unterminated_string at.line at.col)
    else err unterminated_string at.line at.col
string_loop at (c ∷ d ∷ cs) buf l =
    let escape = lex_escape (advance l) >>= λ (ch, m). string_loop at cs (put buf ch) m in
    let plain = string_loop at (d ∷ cs) (put buf c) (advance l) in
    if c == 0
    then err unterminated_string at.line at.col
    else if c == b'"'
    then ok (buf, advance l)
    else if c == b'\n'
    then err unterminated_string at.line at.col
    else if c == b'\\'
    then escape
    else plain

-- The `blen` of a string token's value.
abbrev pub text_length : Payload → ℕ
text_length (int_val n) = 0
text_length (float_val s) = 0
text_length (str_val s) = length s

unfoldable pub lex_string : Lexer → Result Scanned
lex_string l =
    let m = advance l in
    string_loop l m.rest [] m >>= λ (buf, after).
    ok (record { kind = tok_string; value = str_val buf; after = after })

-- One character, escaped or not.
unfoldable pub lex_char_body : Lexer → Result (ℕ × Lexer)
lex_char_body l = if peek l == b'\\' then lex_escape (advance l) else ok (peek l, advance l)

unfoldable pub lex_char : Lexer → Result Scanned
lex_char l =
    let m = advance l in
    if is_at_end m
    then err unterminated_character l.line l.col
    else lex_char_body m >>= λ (ch, n).
        if peek n == b'\''
        then ok (record { kind = tok_char; value = int_val ch; after = advance n })
        else err not_one_character n.line n.col
