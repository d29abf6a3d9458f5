-- ===== src/Lexer/Comments.antt =====
-- Nested block comments, and comments that are never closed.
use apex_forge_night_script.Base.{
  ℕ, zero, suc, ◌+◌, ◌-◌, ◌≡◌, refl, sym, subst, ap, ◌∙◌, Bool, true, false, not, ◌&&◌, ◌||◌, [],
  ◌∷◌, ◌++◌, Bytes, ◌==◌, ◌<◌, arith, length, map, some,
}
use apex_forge_night_script.Token.{Token, tok_eof}
use apex_forge_night_script.Lexer.Result.{ok}
use apex_forge_night_script.Lexer.Scan.{eof_at, skip_blank, tokenize_loop, lexer_tokenize}
use apex_forge_night_script.Lexer.Cursor.{
  advance_while, start_of, TokenList, no_tokens, list_push, Lexer, advance, first,
}
use apex_forge_night_script.Lexer.Moves.{advance-rest}
use apex_forge_night_script.Lexer.Skip.{
  is_space, block_comment, skip_spaces, skip_block, skip_whitespace_and_comments,
}

-- Bytes that close `depth` comments with their last byte, and no sooner.
pub data Closes : ℕ → Bytes → Type 0 where
  done : Closes 0 []
  opens : {d : ℕ} {bs : Bytes} → Closes (suc (suc d)) bs → Closes (suc d) (b'/' ∷ b'*' ∷ bs)
  closes : {d : ℕ} {bs : Bytes} → Closes d bs → Closes (suc d) (b'*' ∷ b'/' ∷ bs)
  inside :
      {d c e : ℕ} {bs : Bytes}
      → (c == 0) ≡ false
      → (c == b'/' && e == b'*') ≡ false
      → (c == b'*' && e == b'/') ≡ false
      → Closes (suc d) (e ∷ bs)
      → Closes (suc d) (c ∷ e ∷ bs)

-- At depth 0 the loop has ended.
block_comment-zero : (bs : Bytes) (l : Lexer) → block_comment bs 0 l ≡ l
unfolding block_comment
block_comment-zero [] l = refl
block_comment-zero (c ∷ []) l = ground arith
block_comment-zero (c ∷ d ∷ cs) l = ground arith

advance_twice :
    {c d : ℕ} {cs : Bytes} (l : Lexer) → l.rest ≡ c ∷ d ∷ cs → (advance (advance l)).rest ≡ cs
advance_twice l e = advance-rest (advance l) (advance-rest l e)

-- The loop inside a block comment stops right behind the bytes that close it.
pub block_comment-Closes :
    {depth : ℕ} {bs : Bytes} (rest : Bytes) (l : Lexer)
    → Closes depth bs
    → l.rest ≡ bs ++ rest
    → (block_comment (bs ++ rest) depth l).rest ≡ rest
unfolding block_comment
block_comment-Closes rest l done e = rw (block_comment-zero rest l) e
block_comment-Closes rest l (opens {d} {bs} k) e =
    let deeper : suc d + 1 ≡ suc (suc d) = omega arith in
    let ih = block_comment-Closes rest (advance (advance l)) k (advance_twice l e) in
    rw deeper (ground (arith, ih))
block_comment-Closes rest l (closes {d} {bs} k) e =
    let shallower : suc d - 1 ≡ d = omega arith in
    let ih = block_comment-Closes rest (advance (advance l)) k (advance_twice l e) in
    rw shallower (ground (arith, ih))
block_comment-Closes rest l (inside {d} {c} {e = f} {bs} hc ho hk k) e =
    let ih = block_comment-Closes rest (advance l) k (advance-rest l e) in
    rw (hc, ho, hk) (ground (arith, ih))

-- Bytes in which comments nested `depth` deep are not all closed: the bytes end inside one.
pub data Unclosed : ℕ → Bytes → Type 0 where
  ends : {d : ℕ} → Unclosed (suc d) []
  ends_behind : {d c : ℕ} → (c == 0) ≡ false → Unclosed (suc d) (c ∷ [])
  opens : {d : ℕ} {bs : Bytes} → Unclosed (suc (suc d)) bs → Unclosed (suc d) (b'/' ∷ b'*' ∷ bs)
  closes : {d : ℕ} {bs : Bytes} → Unclosed (suc d) bs → Unclosed (suc (suc d)) (b'*' ∷ b'/' ∷ bs)
  inside :
      {d c e : ℕ} {bs : Bytes}
      → (c == 0) ≡ false
      → (c == b'/' && e == b'*') ≡ false
      → (c == b'*' && e == b'/') ≡ false
      → Unclosed (suc d) (e ∷ bs)
      → Unclosed (suc d) (c ∷ e ∷ bs)

-- A comment that is never closed runs to the end of the source.
pub block_comment-Unclosed :
    {depth : ℕ} {bs : Bytes} (l : Lexer)
    → Unclosed depth bs
    → l.rest ≡ bs
    → (block_comment bs depth l).rest ≡ []
unfolding block_comment
block_comment-Unclosed l ends e = e
block_comment-Unclosed l (ends_behind h) e = rw h (ground (arith, advance-rest l e))
block_comment-Unclosed l (opens {d} {bs} k) e =
    let deeper : suc d + 1 ≡ suc (suc d) = omega arith in
    let ih = block_comment-Unclosed (advance (advance l)) k (advance_twice l e) in
    rw deeper (ground (arith, ih))
block_comment-Unclosed l (closes {d} {bs} k) e =
    let shallower : suc (suc d) - 1 ≡ suc d = omega arith in
    let ih = block_comment-Unclosed (advance (advance l)) k (advance_twice l e) in
    rw shallower (ground (arith, ih))
block_comment-Unclosed l (inside {d} {c} {e = f} {bs} hc ho hk k) e =
    let ih = block_comment-Unclosed (advance l) k (advance-rest l e) in
    rw (hc, ho, hk) (ground (arith, ih))

-- What `/*` and `*/` between them enclose, nested comments included, is skipped, and nothing else.
pub skip_block-Closes :
    (bs rest : Bytes) (l : Lexer)
    → Closes 1 bs
    → l.rest ≡ b'/' ∷ b'*' ∷ (bs ++ rest)
    → (skip_block l).rest ≡ rest
unfolding skip_block
skip_block-Closes bs rest l k e =
    let behind_open = advance_twice l e in
    subst (λ r. (block_comment r 1 (advance (advance l))).rest ≡ rest) (sym behind_open)
      (block_comment-Closes rest (advance (advance l)) k behind_open)

-- Where no white space stands, none is skipped.
advance_while-none :
    (p : ℕ → Bool) (bs : Bytes) (l : Lexer)
    → (first bs == 0 || not (p (first bs))) ≡ true
    → advance_while p bs l ≡ l
unfolding advance_while
advance_while-none p [] l h = refl
advance_while-none p (c ∷ cs) l h = ground arith

skip-end : (fuel : ℕ) (l : Lexer) → l.rest ≡ [] → skip_whitespace_and_comments (suc fuel) l ≡ some l
unfolding skip_whitespace_and_comments skip_spaces
skip-end fuel l e =
    let stays : skip_spaces l ≡ l = advance_while-none is_space l.rest l (rw e refl) in
    rw (stays, e) refl

skip-block :
    (fuel : ℕ) (bs : Bytes) (l : Lexer)
    → l.rest ≡ b'/' ∷ b'*' ∷ bs
    → skip_whitespace_and_comments (suc fuel) l ≡ skip_whitespace_and_comments fuel (skip_block l)
unfolding skip_whitespace_and_comments skip_spaces is_space
skip-block fuel bs l e =
    let stays : skip_spaces l ≡ l = advance_while-none is_space l.rest l (rw e refl) in
    rw (stays, e) refl

skip_block-open :
    (bs : Bytes) (l : Lexer) → Unclosed 1 bs → l.rest ≡ b'/' ∷ b'*' ∷ bs → (skip_block l).rest ≡ []
unfolding skip_block
skip_block-open bs l h e =
    let behind_open = advance_twice l e in
    subst (λ r. (block_comment r 1 (advance (advance l))).rest ≡ []) (sym behind_open)
      (block_comment-Unclosed (advance (advance l)) h behind_open)

skip-open :
    (fuel : ℕ) (bs : Bytes) (l : Lexer)
    → 1 < fuel
    → Unclosed 1 bs
    → l.rest ≡ b'/' ∷ b'*' ∷ bs
    → skip_whitespace_and_comments fuel l ≡ some (skip_block l)
skip-open zero bs l f h e = absurd (omega arith)
skip-open (suc zero) bs l f h e = absurd (omega arith)
skip-open (suc (suc fuel)) bs l f h e =
    skip-block (suc fuel) bs l e ∙ skip-end fuel (skip_block l) (skip_block-open bs l h e)

tokenize_loop-end :
    (fuel : ℕ) (l m : Lexer)
    → skip_blank l ≡ ok m
    → m.rest ≡ []
    → tokenize_loop (suc fuel) l no_tokens ≡ ok (list_push no_tokens (eof_at m))
unfolding tokenize_loop
tokenize_loop-end fuel l m s e = rw s (ground arith)

skip_blank-open :
    (bs : Bytes) (l : Lexer)
    → Unclosed 1 bs
    → l.rest ≡ b'/' ∷ b'*' ∷ bs
    → skip_blank l ≡ ok (skip_block l)
unfolding skip_blank
skip_blank-open bs l h e = rw (skip-open (length l.rest + 1) bs l (omega (arith, ap length e)) h e)

pushed : (t : Token) → map (λ (t : Token). t.kind) (list_push no_tokens t).tokens ≡ t.kind ∷ []
unfolding list_push
pushed t = refl

lexer_tokenize-loop :
    (src : Bytes) (fuel : ℕ)
    → length src ≡ fuel
    → lexer_tokenize src ≡ tokenize_loop (suc fuel) (start_of src) no_tokens
unfolding lexer_tokenize
lexer_tokenize-loop src fuel e =
    let more : length src + 1 ≡ suc fuel = omega arith in
    ap (λ n. tokenize_loop n (start_of src) no_tokens) more

-- A source without a NUL byte that begins with a block comment, inside which it ends, nested comments
-- counted, is no error: its tokens are the end alone.
pub lexer_tokenize-open_comment :
    (bs : Bytes)
    → Unclosed 1 bs
    → (tl : TokenList) × (lexer_tokenize (b'/' ∷ b'*' ∷ bs) ≡ ok tl)
      × (map (λ t. t.kind) tl.tokens ≡ tok_eof ∷ [])
lexer_tokenize-open_comment bs h =
    let start = start_of (b'/' ∷ b'*' ∷ bs) in
    let m = skip_block start in
    let opened : lexer_tokenize (b'/' ∷ b'*' ∷ bs)
        ≡ tokenize_loop (suc (length bs + 2)) start no_tokens =
      lexer_tokenize-loop (b'/' ∷ b'*' ∷ bs) (length bs + 2) (omega arith) in
    (
      list_push no_tokens (eof_at m),
      opened
          ∙ tokenize_loop-end (length bs + 2) start m (skip_blank-open bs start h refl)
              (skip_block-open bs start h refl),
      pushed (eof_at m),
    )
