-- ===== src/Lexer/Cursor.antt =====
-- compiler/src/lexer/lexer.c, lines 56-82 and 84-92: the lexer's state, its one-byte steps and the
-- token list. The pointer `src + pos` is kept as the bytes from there to the terminator, `rest`; a
-- read at the end is the terminator, 0. Position, line and column, `int` in the code, have no bound
-- here. `advance` here gives the state alone: the byte that the code's `advance` returns is `peek` of
-- the state before it.
use apex_forge_night_script.Base.{
  ℕ, ◌+◌, ◌*◌, ◌%◌, Bool, ◌&&◌, not, List, [], ◌∷◌, ◌++◌, Bytes, ◌==◌, if◌then◌else◌, length,
}
use apex_forge_night_script.Token.{Token}

pub record Lexer : Type 0 where
  pub rest : Bytes
  pub pos : ℕ
  pub line : ℕ
  pub col : ℕ

-- The byte that a pointer at these bytes reads.
abbrev pub first : Bytes → ℕ
first [] = 0
first (c ∷ cs) = c

abbrev pub behind : Bytes → Bytes
behind [] = []
behind (c ∷ cs) = cs

abbrev pub peek : Lexer → ℕ
peek l = first l.rest

abbrev pub peek_next : Lexer → ℕ
peek_next l = if peek l == 0 then 0 else first (behind l.rest)

unfoldable pub advance : Lexer → Lexer
advance l = record {
  rest = behind l.rest;
  pos = l.pos + 1;
  line = if peek l == b'\n' then l.line + 1 else l.line;
  col = if peek l == b'\n' then 1 else l.col + 1;
}

abbrev pub is_at_end : Lexer → Bool
is_at_end l = peek l == 0

abbrev pub start_of : Bytes → Lexer
start_of src = record { rest = src; pos = 0; line = 1; col = 1 }

-- `while (!is_at_end(l) && p(peek(l))) advance(l)`, on the bytes that `l` stands before.
unfoldable pub advance_while : (ℕ → Bool) → Bytes → Lexer → Lexer
advance_while p [] l = l
advance_while p (c ∷ cs) l = if not (c == 0) && p c then advance_while p cs (advance l) else l

-- The token list: `count` is the number of tokens, `capacity` that of the slots allocated. Both are
-- `int` in the code, kept here as their patterns of 32 bits: a count or a doubling from 2 ^ 31 on, which
-- C leaves undefined, wraps around. The slots' bytes stand in `tokens`.
pub record TokenList : Type 0 where
  pub tokens : List Token
  pub capacity : ℕ

abbrev pub no_tokens : TokenList
no_tokens = record { tokens = []; capacity = 0 }

abbrev pub word32 : ℕ
word32 = 4294967296

abbrev pub count : TokenList → ℕ
count tl = length tl.tokens % word32

unfoldable pub list_push : TokenList → Token → TokenList
list_push tl t = record {
  tokens = tl.tokens ++ t ∷ [];
  capacity =
      if count tl == tl.capacity
      then if tl.capacity == 0 then 64 else tl.capacity * 2 % word32
      else tl.capacity;
}
