-- ===== src/Lexer/Tables.antt =====
-- The tables of compiler/src/lexer/lexer.c: keywords, the two-byte symbols in the order in which the
-- code tries them, and the one-byte symbols of its last `switch`.
pub mod Names
use apex_forge_night_script.Base.{
  ℕ, String, ◌&&◌, Option, none, some, List, [], ◌∷◌, Bytes, codes, beq, ◌==◌, if◌then◌else◌,
}
use apex_forge_night_script.Token.{
  TokenKind, tok_amp, tok_andand, tok_android, tok_app, tok_arrow, tok_as, tok_at, tok_bang,
  tok_break, tok_caret, tok_colon, tok_comma, tok_comptime, tok_const, tok_continue, tok_defer,
  tok_dot, tok_driver, tok_else, tok_enum, tok_eq, tok_eqeq, tok_extern, tok_false, tok_fat_arrow,
  tok_fn, tok_for, tok_ge, tok_gt, tok_ident, tok_if, tok_impl, tok_import, tok_interface,
  tok_kernel, tok_lbrace, tok_lbracket, tok_le, tok_let, tok_loop, tok_lparen, tok_lshift, tok_lt,
  tok_match, tok_minus, tok_minus_eq, tok_minusminus, tok_module, tok_native, tok_ne, tok_null,
  tok_oror, tok_package, tok_packed, tok_percent, tok_percent_eq, tok_pipe, tok_plus, tok_plus_eq,
  tok_plusplus, tok_pub, tok_question, tok_rbrace, tok_rbracket, tok_return, tok_rparen, tok_rshift,
  tok_self, tok_semicolon, tok_slash, tok_slash_eq, tok_star, tok_star_eq, tok_struct, tok_tilde,
  tok_true, tok_ui, tok_underscore, tok_union, tok_unsafe, tok_while,
}

pub record Keyword : Type 0 where
  pub word : Bytes
  pub kind : TokenKind

abbrev keyword : String → TokenKind → Keyword
keyword s k = record { word = codes s; kind = k }

unfoldable pub keywords : List Keyword
keywords =
    keyword "package" tok_package
    ∷ keyword "import" tok_import
    ∷ keyword "pub" tok_pub
    ∷ keyword "fn" tok_fn
    ∷ keyword "let" tok_let
    ∷ keyword "const" tok_const
    ∷ keyword "return" tok_return
    ∷ keyword "if" tok_if
    ∷ keyword "else" tok_else
    ∷ keyword "while" tok_while
    ∷ keyword "loop" tok_loop
    ∷ keyword "for" tok_for
    ∷ keyword "break" tok_break
    ∷ keyword "continue" tok_continue
    ∷ keyword "struct" tok_struct
    ∷ keyword "enum" tok_enum
    ∷ keyword "union" tok_union
    ∷ keyword "interface" tok_interface
    ∷ keyword "impl" tok_impl
    ∷ keyword "unsafe" tok_unsafe
    ∷ keyword "extern" tok_extern
    ∷ keyword "as" tok_as
    ∷ keyword "match" tok_match
    ∷ keyword "kernel" tok_kernel
    ∷ keyword "native" tok_native
    ∷ keyword "ui" tok_ui
    ∷ keyword "android" tok_android
    ∷ keyword "driver" tok_driver
    ∷ keyword "app" tok_app
    ∷ keyword "module" tok_module
    ∷ keyword "defer" tok_defer
    ∷ keyword "comptime" tok_comptime
    ∷ keyword "packed" tok_packed
    ∷ keyword "true" tok_true
    ∷ keyword "false" tok_false
    ∷ keyword "null" tok_null
    ∷ keyword "Self" tok_self
    ∷ keyword "_" tok_underscore
    ∷ []

unfoldable pub find_keyword : List Keyword → Bytes → TokenKind
find_keyword [] w = tok_ident
find_keyword (k ∷ ks) w = if beq k.word w then k.kind else find_keyword ks w

unfoldable pub ident_or_keyword : Bytes → TokenKind
unfolding find_keyword keywords
ident_or_keyword = find_keyword keywords

pub record Symbol2 : Type 0 where
  pub first : ℕ
  pub second : ℕ
  pub kind : TokenKind

abbrev symbol2 : ℕ → ℕ → TokenKind → Symbol2
symbol2 a b k = record { first = a; second = b; kind = k }

unfoldable pub two_byte_symbols : List Symbol2
two_byte_symbols =
    symbol2 b'-' b'>' tok_arrow
    ∷ symbol2 b'=' b'>' tok_fat_arrow
    ∷ symbol2 b'=' b'=' tok_eqeq
    ∷ symbol2 b'!' b'=' tok_ne
    ∷ symbol2 b'<' b'=' tok_le
    ∷ symbol2 b'>' b'=' tok_ge
    ∷ symbol2 b'&' b'&' tok_andand
    ∷ symbol2 b'|' b'|' tok_oror
    ∷ symbol2 b'+' b'+' tok_plusplus
    ∷ symbol2 b'-' b'-' tok_minusminus
    ∷ symbol2 b'+' b'=' tok_plus_eq
    ∷ symbol2 b'-' b'=' tok_minus_eq
    ∷ symbol2 b'*' b'=' tok_star_eq
    ∷ symbol2 b'/' b'=' tok_slash_eq
    ∷ symbol2 b'%' b'=' tok_percent_eq
    ∷ symbol2 b'<' b'<' tok_lshift
    ∷ symbol2 b'>' b'>' tok_rshift
    ∷ []

-- The kind of the first symbol of the list that the two bytes spell.
unfoldable pub find_symbol2 : List Symbol2 → ℕ → ℕ → Option TokenKind
find_symbol2 [] c n = none
find_symbol2 (s ∷ ss) c n =
    if c == s.first && n == s.second then some s.kind else find_symbol2 ss c n

unfoldable pub two_byte_kind : ℕ → ℕ → Option TokenKind
unfolding find_symbol2 two_byte_symbols
two_byte_kind = find_symbol2 two_byte_symbols

pub record Symbol1 : Type 0 where
  pub byte : ℕ
  pub kind : TokenKind

abbrev symbol1 : ℕ → TokenKind → Symbol1
symbol1 a k = record { byte = a; kind = k }

-- The cases of the last `switch`.
unfoldable pub one_byte_symbols : List Symbol1
one_byte_symbols =
    symbol1 b'{' tok_lbrace
    ∷ symbol1 b'}' tok_rbrace
    ∷ symbol1 b'(' tok_lparen
    ∷ symbol1 b')' tok_rparen
    ∷ symbol1 b'[' tok_lbracket
    ∷ symbol1 b']' tok_rbracket
    ∷ symbol1 b';' tok_semicolon
    ∷ symbol1 b':' tok_colon
    ∷ symbol1 b',' tok_comma
    ∷ symbol1 b'.' tok_dot
    ∷ symbol1 b'=' tok_eq
    ∷ symbol1 b'+' tok_plus
    ∷ symbol1 b'-' tok_minus
    ∷ symbol1 b'*' tok_star
    ∷ symbol1 b'/' tok_slash
    ∷ symbol1 b'%' tok_percent
    ∷ symbol1 b'&' tok_amp
    ∷ symbol1 b'|' tok_pipe
    ∷ symbol1 b'^' tok_caret
    ∷ symbol1 b'~' tok_tilde
    ∷ symbol1 b'!' tok_bang
    ∷ symbol1 b'<' tok_lt
    ∷ symbol1 b'>' tok_gt
    ∷ symbol1 b'?' tok_question
    ∷ symbol1 b'@' tok_at
    ∷ []

unfoldable pub find_symbol1 : List Symbol1 → ℕ → Option TokenKind
find_symbol1 [] c = none
find_symbol1 (s ∷ ss) c = if c == s.byte then some s.kind else find_symbol1 ss c

unfoldable pub one_byte_kind : ℕ → Option TokenKind
unfolding find_symbol1 one_byte_symbols
one_byte_kind = find_symbol1 one_byte_symbols
