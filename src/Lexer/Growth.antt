-- ===== src/Lexer/Growth.antt =====
-- The array behind a token list: compiler/src/lexer/lexer.c, lines 84-92.
use apex_forge_night_script.Base.{
  ℕ, ◌≤◌, ◌<◌, ◌≡◌, refl, [], ◌∷◌, ◌++◌, length, length-append, arith,
}
use apex_forge_night_script.Token.{Token}
use apex_forge_night_script.Lexer.Cursor.{TokenList, list_push}

-- The most tokens that are spoken of: up to them, doubling the slots stays below 2 ^ 31.
abbrev pub most_tokens : ℕ
most_tokens = 1073741824

-- Where fewer than 2 ^ 30 tokens fit in the slots allocated, a push has a slot for the new token, the
-- slots are fewer than 2 ^ 31 again, so that their number fits in an `int`, the tokens that are there
-- are kept in order, and all fit again.
pub list_push-room :
    (tl : TokenList) (t : Token)
    → length tl.tokens < most_tokens
    → length tl.tokens ≤ tl.capacity
    → tl.capacity < 2147483648
    → (length tl.tokens < (list_push tl t).capacity)
      × ((list_push tl t).capacity < 2147483648)
      × ((list_push tl t).tokens ≡ tl.tokens ++ t ∷ [])
      × (length (list_push tl t).tokens ≤ (list_push tl t).capacity)
unfolding list_push
list_push-room tl t m h k = (
  ground (arith, m, h, k),
  ground (arith, m, h, k),
  refl,
  ground (arith, m, h, k, length-append tl.tokens (t ∷ [])),
)
