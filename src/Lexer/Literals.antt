-- ===== src/Lexer/Literals.antt =====
-- compiler/src/lexer/lexer.c, lines 131-153 and 196-324: words, numbers, strings and characters.
-- A `long long` is its 64-bit pattern, so its wrap-around is `% 2 ^ 64`. Each `lex_…` returns the
-- kind and value that the code stores in the token, and the state behind the literal.
pub mod Progress
use apex_forge_night_script.Base.{
  ℕ, ◌+◌, ◌-◌, ◌*◌, ◌%◌, ◌^◌, Bool, true, false, ◌&&◌, ◌||◌, Option, none, some, [], ◌∷◌, Bytes,
  ◌==◌, leb, if◌then◌else◌, take,
}
use apex_forge_night_script.Token.{
  TokenKind, Payload, int_val, float_val, tok_int, tok_float, tok_true, kind_eq,
}
use apex_forge_night_script.Lexer.Cursor.{Lexer, peek, peek_next, advance, advance_while}
use apex_forge_night_script.Lexer.Tables.{ident_or_keyword}

unfoldable pub is_digit : ℕ → Bool
is_digit c = leb b'0' c && leb c b'9'

unfoldable pub is_alpha : ℕ → Bool
is_alpha c = (leb b'a' c && leb c b'z') || (leb b'A' c && leb c b'Z')

unfoldable pub is_word : ℕ → Bool
unfolding is_alpha is_digit
is_word c = is_alpha c || is_digit c || c == b'_'

-- What the lexer hands on of one literal.
pub record Scanned : Type 0 where
  pub kind : TokenKind
  pub value : Payload
  pub after : Lexer

-- The bytes between two states, `[start, src + pos)`.
abbrev pub between : Lexer → Lexer → Bytes
between l m = take (m.pos - l.pos) l.rest

unfoldable pub lex_word : Lexer → Scanned
lex_word l =
    let m = advance_while is_word l.rest l in
    let k = ident_or_keyword (between l m) in
    record { kind = k; value = int_val (if kind_eq k tok_true then 1 else 0); after = m }

-- `none` for -1.
unfoldable pub hex_digit : ℕ → Option ℕ
hex_digit c =
    if leb b'0' c && leb c b'9'
    then some (c - b'0')
    else if leb b'a' c && leb c b'f'
    then some (c - b'a' + 10)
    else if leb b'A' c && leb c b'F'
    then some (c - b'A' + 10)
    else none

abbrev pub digit_or : Option ℕ → ℕ
digit_or none = 0
digit_or (some d) = d

abbrev pub is_hex : ℕ → Bool
is_hex c = elim (hex_digit c) [ none ↦ false | some d ↦ true ]

abbrev pub word64 : ℕ
word64 = 2 ^ 64

-- `while (digit(peek) || peek == '_') { ch = advance; if (ch != '_') val = val * base + digit; }`
unfoldable pub digits_loop : ℕ → (ℕ → Bool) → (ℕ → ℕ) → Bytes → ℕ → Lexer → ℕ × Lexer
digits_loop base test value [] acc l = (acc, l)
digits_loop base test value (c ∷ cs) acc l =
    if test c || c == b'_'
    then digits_loop base test value cs (if c == b'_' then acc else (acc * base + value c) % word64)
        (advance l)
    else (acc, l)

abbrev pub hex_value : ℕ → ℕ
hex_value c = digit_or (hex_digit c)

unfoldable pub lex_hex : Lexer → Scanned
lex_hex l =
    let m = advance (advance l) in
    let (v, after) = digits_loop 16 is_hex hex_value m.rest 0 m in
    record { kind = tok_int; value = int_val v; after = after }

-- `.` and a digit behind it: the digits of a fraction.
unfoldable pub lex_fraction : Lexer → Bool × Lexer
lex_fraction l =
    if peek l == b'.' && is_digit (peek_next l)
    then (true, (let m = advance l in advance_while (λ c. is_digit c || c == b'_') m.rest m))
    else (false, l)

unfoldable pub lex_exponent : Lexer → Bool × Lexer
lex_exponent l =
    let m = advance l in
    let s = if peek m == b'+' || peek m == b'-' then advance m else m in
    if peek l == b'e' || peek l == b'E' then (true, advance_while is_digit s.rest s) else (false, l)

unfoldable pub lex_decimal : Lexer → Scanned
lex_decimal l =
    let (v, m) = digits_loop 10 is_digit (λ c. c - b'0') l.rest 0 l in
    let (dotted, n) = lex_fraction m in
    let (scaled, after) = lex_exponent n in
    if dotted || scaled
    then record { kind = tok_float; value = float_val (take 63 (between l after)); after = after }
    else record { kind = tok_int; value = int_val v; after = after }

unfoldable pub lex_number : Lexer → Scanned
lex_number l =
    if peek l == b'0' && (peek_next l == b'x' || peek_next l == b'X')
    then lex_hex l
    else lex_decimal l
