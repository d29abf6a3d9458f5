-- ===== src/Lexer/Skip.antt =====
-- compiler/src/lexer/lexer.c, lines 96-120: white space, line comments and nested block comments.
-- `isspace` is that of the C locale. Each loop over bytes recurs on the bytes that the lexer stands
-- before; the outer `for (;;)` takes fuel, and `none` means that the fuel ran out.
pub mod Total
use apex_forge_night_script.Base.{
  ℕ, zero, suc, ◌+◌, ◌-◌, Bool, ◌&&◌, ◌||◌, not, Option, none, some, List, [], ◌∷◌, Bytes, ◌==◌,
  leb, if◌then◌else◌,
}
use apex_forge_night_script.Lexer.Cursor.{
  Lexer, peek, peek_next, advance, is_at_end, first, advance_while,
}

unfoldable pub is_space : ℕ → Bool
is_space c = c == b' ' || (leb 9 c && leb c 13)

-- The loop inside a block comment, at nesting `depth`.
unfoldable pub block_comment : Bytes → ℕ → Lexer → Lexer
block_comment [] depth l = l
block_comment (c ∷ []) depth l = if c == 0 || depth == 0 then l else advance l
block_comment (c ∷ d ∷ cs) depth l =
    let opened = block_comment cs (depth + 1) (advance (advance l)) in
    let closed = block_comment cs (depth - 1) (advance (advance l)) in
    let inside = block_comment (d ∷ cs) depth (advance l) in
    if c == 0 || depth == 0
    then l
    else if c == b'/' && d == b'*'
    then opened
    else if c == b'*' && d == b'/'
    then closed
    else inside

unfoldable pub skip_spaces : Lexer → Lexer
skip_spaces l = advance_while is_space l.rest l

unfoldable pub skip_line : Lexer → Lexer
skip_line l = advance_while (λ c. not (c == b'\n')) l.rest l

unfoldable pub skip_block : Lexer → Lexer
skip_block l = let m = advance (advance l) in block_comment m.rest 1 m

unfoldable pub skip_whitespace_and_comments : ℕ → Lexer → Option Lexer
skip_whitespace_and_comments zero l = none
skip_whitespace_and_comments (suc fuel) l =
    let m = skip_spaces l in
    let after_line = skip_whitespace_and_comments fuel (skip_line m) in
    let after_block = skip_whitespace_and_comments fuel (skip_block m) in
    if peek m == b'/' && peek_next m == b'/'
    then after_line
    else if peek m == b'/' && peek_next m == b'*'
    then after_block
    else some m
