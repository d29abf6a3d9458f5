-- ===== src/Token.antt =====
-- Tokens: compiler/src/lexer/token.h and token.c. A kind is a constructor; `TOK_COUNT`, which no
-- token carries, and the branch of `token_kind_name` for numbers outside the enumeration have no
-- counterpart. The union of a token's value is `Payload`: `float_val` keeps the text that the lexer
-- hands to `atof`, and a zeroed token is `int_val 0`.
use apex_forge_night_script.Base.{ℕ, Bytes, codes, Bool, ◌==◌, take, drop}

pub data TokenKind : Type 0 where
  tok_package tok_import tok_pub tok_fn tok_let tok_const tok_return : TokenKind
  tok_if tok_else tok_while tok_loop tok_for tok_break tok_continue : TokenKind
  tok_struct tok_enum tok_union tok_interface tok_impl tok_unsafe tok_extern : TokenKind
  tok_as tok_match tok_kernel tok_native tok_ui tok_android tok_driver : TokenKind
  tok_app tok_module tok_defer tok_comptime tok_packed tok_true tok_false : TokenKind
  tok_null tok_self tok_underscore tok_ident tok_int tok_float tok_string : TokenKind
  tok_char tok_lbrace tok_rbrace tok_lparen tok_rparen tok_lbracket tok_rbracket : TokenKind
  tok_semicolon tok_colon tok_comma tok_dot tok_dotdot tok_arrow tok_fat_arrow : TokenKind
  tok_eq tok_eqeq tok_ne tok_lt tok_le tok_gt tok_ge : TokenKind
  tok_plus tok_minus tok_star tok_slash tok_percent tok_amp tok_andand : TokenKind
  tok_pipe tok_oror tok_caret tok_tilde tok_bang tok_question tok_at : TokenKind
  tok_lshift tok_rshift tok_plusplus tok_minusminus tok_plus_eq tok_minus_eq tok_star_eq : TokenKind
  tok_slash_eq tok_percent_eq tok_eof : TokenKind

-- The enumerator's number, by which C compares two kinds.
unfoldable pub kind_number : TokenKind → ℕ
kind_number tok_package = 0
kind_number tok_import = 1
kind_number tok_pub = 2
kind_number tok_fn = 3
kind_number tok_let = 4
kind_number tok_const = 5
kind_number tok_return = 6
kind_number tok_if = 7
kind_number tok_else = 8
kind_number tok_while = 9
kind_number tok_loop = 10
kind_number tok_for = 11
kind_number tok_break = 12
kind_number tok_continue = 13
kind_number tok_struct = 14
kind_number tok_enum = 15
kind_number tok_union = 16
kind_number tok_interface = 17
kind_number tok_impl = 18
kind_number tok_unsafe = 19
kind_number tok_extern = 20
kind_number tok_as = 21
kind_number tok_match = 22
kind_number tok_kernel = 23
kind_number tok_native = 24
kind_number tok_ui = 25
kind_number tok_android = 26
kind_number tok_driver = 27
kind_number tok_app = 28
kind_number tok_module = 29
kind_number tok_defer = 30
kind_number tok_comptime = 31
kind_number tok_packed = 32
kind_number tok_true = 33
kind_number tok_false = 34
kind_number tok_null = 35
kind_number tok_self = 36
kind_number tok_underscore = 37
kind_number tok_ident = 38
kind_number tok_int = 39
kind_number tok_float = 40
kind_number tok_string = 41
kind_number tok_char = 42
kind_number tok_lbrace = 43
kind_number tok_rbrace = 44
kind_number tok_lparen = 45
kind_number tok_rparen = 46
kind_number tok_lbracket = 47
kind_number tok_rbracket = 48
kind_number tok_semicolon = 49
kind_number tok_colon = 50
kind_number tok_comma = 51
kind_number tok_dot = 52
kind_number tok_dotdot = 53
kind_number tok_arrow = 54
kind_number tok_fat_arrow = 55
kind_number tok_eq = 56
kind_number tok_eqeq = 57
kind_number tok_ne = 58
kind_number tok_lt = 59
kind_number tok_le = 60
kind_number tok_gt = 61
kind_number tok_ge = 62
kind_number tok_plus = 63
kind_number tok_minus = 64
kind_number tok_star = 65
kind_number tok_slash = 66
kind_number tok_percent = 67
kind_number tok_amp = 68
kind_number tok_andand = 69
kind_number tok_pipe = 70
kind_number tok_oror = 71
kind_number tok_caret = 72
kind_number tok_tilde = 73
kind_number tok_bang = 74
kind_number tok_question = 75
kind_number tok_at = 76
kind_number tok_lshift = 77
kind_number tok_rshift = 78
kind_number tok_plusplus = 79
kind_number tok_minusminus = 80
kind_number tok_plus_eq = 81
kind_number tok_minus_eq = 82
kind_number tok_star_eq = 83
kind_number tok_slash_eq = 84
kind_number tok_percent_eq = 85
kind_number tok_eof = 86

-- `a == b` on kinds.
abbrev pub kind_eq : TokenKind → TokenKind → Bool
kind_eq a b = kind_number a == kind_number b

unfoldable pub token_kind_name : TokenKind → Bytes
token_kind_name tok_package = codes "package"
token_kind_name tok_import = codes "import"
token_kind_name tok_pub = codes "pub"
token_kind_name tok_fn = codes "fn"
token_kind_name tok_let = codes "let"
token_kind_name tok_const = codes "const"
token_kind_name tok_return = codes "return"
token_kind_name tok_if = codes "if"
token_kind_name tok_else = codes "else"
token_kind_name tok_while = codes "while"
token_kind_name tok_loop = codes "loop"
token_kind_name tok_for = codes "for"
token_kind_name tok_break = codes "break"
token_kind_name tok_continue = codes "continue"
token_kind_name tok_struct = codes "struct"
token_kind_name tok_enum = codes "enum"
token_kind_name tok_union = codes "union"
token_kind_name tok_interface = codes "interface"
token_kind_name tok_impl = codes "impl"
token_kind_name tok_unsafe = codes "unsafe"
token_kind_name tok_extern = codes "extern"
token_kind_name tok_as = codes "as"
token_kind_name tok_match = codes "match"
token_kind_name tok_kernel = codes "kernel"
token_kind_name tok_native = codes "native"
token_kind_name tok_ui = codes "ui"
token_kind_name tok_android = codes "android"
token_kind_name tok_driver = codes "driver"
token_kind_name tok_app = codes "app"
token_kind_name tok_module = codes "module"
token_kind_name tok_defer = codes "defer"
token_kind_name tok_comptime = codes "comptime"
token_kind_name tok_packed = codes "packed"
token_kind_name tok_true = codes "true"
token_kind_name tok_false = codes "false"
token_kind_name tok_null = codes "null"
token_kind_name tok_self = codes "Self"
token_kind_name tok_underscore = codes "_"
token_kind_name tok_ident = codes "IDENT"
token_kind_name tok_int = codes "INT"
token_kind_name tok_float = codes "FLOAT"
token_kind_name tok_string = codes "STRING"
token_kind_name tok_char = codes "CHAR"
token_kind_name tok_lbrace = codes "{"
token_kind_name tok_rbrace = codes "}"
token_kind_name tok_lparen = codes "("
token_kind_name tok_rparen = codes ")"
token_kind_name tok_lbracket = codes "["
token_kind_name tok_rbracket = codes "]"
token_kind_name tok_semicolon = codes ";"
token_kind_name tok_colon = codes ":"
token_kind_name tok_comma = codes ","
token_kind_name tok_dot = codes "."
token_kind_name tok_dotdot = codes ".."
token_kind_name tok_arrow = codes "->"
token_kind_name tok_fat_arrow = codes "=>"
token_kind_name tok_eq = codes "="
token_kind_name tok_eqeq = codes "=="
token_kind_name tok_ne = codes "!="
token_kind_name tok_lt = codes "<"
token_kind_name tok_le = codes "<="
token_kind_name tok_gt = codes ">"
token_kind_name tok_ge = codes ">="
token_kind_name tok_plus = codes "+"
token_kind_name tok_minus = codes "-"
token_kind_name tok_star = codes "*"
token_kind_name tok_slash = codes "/"
token_kind_name tok_percent = codes "%"
token_kind_name tok_amp = codes "&"
token_kind_name tok_andand = codes "&&"
token_kind_name tok_pipe = codes "|"
token_kind_name tok_oror = codes "||"
token_kind_name tok_caret = codes "^"
token_kind_name tok_tilde = codes "~"
token_kind_name tok_bang = codes "!"
token_kind_name tok_question = codes "?"
token_kind_name tok_at = codes "@"
token_kind_name tok_lshift = codes "<<"
token_kind_name tok_rshift = codes ">>"
token_kind_name tok_plusplus = codes "++"
token_kind_name tok_minusminus = codes "--"
token_kind_name tok_plus_eq = codes "+="
token_kind_name tok_minus_eq = codes "-="
token_kind_name tok_star_eq = codes "*="
token_kind_name tok_slash_eq = codes "/="
token_kind_name tok_percent_eq = codes "%="
token_kind_name tok_eof = codes "EOF"

pub data Payload : Type 0 where
  int_val : ℕ → Payload
  float_val : Bytes → Payload
  str_val : Bytes → Payload

pub record Token : Type 0 where
  pub kind : TokenKind
  -- the offset in the source buffer that the pointer `start` stands for
  pub start : ℕ
  pub len : ℕ
  pub line : ℕ
  pub col : ℕ
  pub value : Payload

-- The bytes that `start` and `len` name.
unfoldable pub lexeme : Bytes → Token → Bytes
lexeme src t = take t.len (drop t.start src)
