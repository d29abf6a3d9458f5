-- ===== src/Lexer/Skip/Total.antt =====
-- `skip_whitespace_and_comments` ends, and stops at a token or at the end of the source.
use apex_forge_night_script.Base.{
  ℕ, zero, suc, ◌+◌, ◌-◌, ◌<◌, ◌≡◌, refl, inl, inr, Bool, false, not, ◌&&◌, ◌||◌, some, [], ◌∷◌,
  Bytes, ◌==◌, length, arith, Bool-cases,
}
use apex_forge_night_script.Lexer.Cursor.{
  Lexer, peek, peek_next, advance, is_at_end, advance_while, behind,
}
use apex_forge_night_script.Lexer.Moves.{
  Moves, here, Moves-trans, Moves-cons, Moves-shrinks, advance-rest, not-at_end,
  advance_while-Moves, advance_while-first,
}
use apex_forge_night_script.Lexer.Skip.{
  is_space, block_comment, skip_spaces, skip_line, skip_block, skip_whitespace_and_comments,
}

two_steps :
    {c d : ℕ} {cs : Bytes} (l : Lexer) {m : Lexer}
    → l.rest ≡ c ∷ d ∷ cs
    → (c == 0) ≡ false
    → (d == 0) ≡ false
    → Moves (advance (advance l)) m
    → Moves l m
two_steps l e hc hd p =
    Moves-cons (not-at_end l e hc) (Moves-cons (not-at_end (advance l) (advance-rest l e) hd) p)

pub block_comment-Moves :
    (bs : Bytes) (depth : ℕ) (l : Lexer) → l.rest ≡ bs → Moves l (block_comment bs depth l)
unfolding block_comment
block_comment-Moves [] depth l e = here
block_comment-Moves (c ∷ []) depth l e = elim (Bool-cases (c == 0 || depth == 0)) [
  | inl t ↦ rw t here
  | inr t ↦ rw t (Moves-cons (ground arith) here)
]
block_comment-Moves (c ∷ d ∷ cs) depth l e =
    let rest : (advance (advance l)).rest ≡ cs = advance-rest (advance l) (advance-rest l e) in
    elim (Bool-cases (c == 0 || depth == 0)) [
      | inl t ↦ rw t here
      | inr t ↦ rw t (elim (Bool-cases (c == b'/' && d == b'*')) [
        | inl o ↦ rw o (
            two_steps l e (ground arith) (ground arith)
              (block_comment-Moves cs (depth + 1) (advance (advance l)) rest))
        | inr o ↦ rw o (elim (Bool-cases (c == b'*' && d == b'/')) [
          | inl k ↦ rw k (
              two_steps l e (ground arith) (ground arith)
                (block_comment-Moves cs (depth - 1) (advance (advance l)) rest))
          | inr k ↦ rw k (
              Moves-cons (ground arith)
                (block_comment-Moves (d ∷ cs) depth (advance l) (advance-rest l e)))
        ])
      ])
    ]

pub skip_spaces-Moves : (l : Lexer) → Moves l (skip_spaces l)
unfolding skip_spaces
skip_spaces-Moves l = advance_while-Moves is_space l.rest l refl

-- A comment's first byte is consumed.
skip_line-Moves : (l : Lexer) → peek l ≡ b'/' → Moves (advance l) (skip_line l)
unfolding skip_line advance
skip_line-Moves l h =
    rw (advance_while-first (λ c. not (c == b'\n')) l.rest l refl (rw h refl))
      (advance_while-Moves (λ c. not (c == b'\n')) (behind l.rest) (advance l) refl)

skip_block-Moves : (l : Lexer) → peek_next l ≡ b'*' → Moves (advance l) (skip_block l)
unfolding skip_block advance
skip_block-Moves l k =
    let m = advance (advance l) in Moves-cons (ground arith) (block_comment-Moves m.rest 1 m refl)

advance_while-stops :
    (p : ℕ → Bool) (bs : Bytes) (l : Lexer)
    → l.rest ≡ bs
    → is_at_end (advance_while p bs l) ≡ false
    → p (peek (advance_while p bs l)) ≡ false
unfolding advance_while
advance_while-stops p [] l e h = ground arith
advance_while-stops p (c ∷ cs) l e h = elim (Bool-cases (not (c == 0) && p c)) [
  | inl t ↦ rw t (advance_while-stops p cs (advance l) (advance-rest l e) (rw t at h))
  | inr t ↦
      let first_is : peek l ≡ c = ground arith in
      let more : is_at_end l ≡ false = rw t at h in rw (t, first_is) (ground arith)
]

skip_spaces-stops :
    (l : Lexer) → is_at_end (skip_spaces l) ≡ false → is_space (peek (skip_spaces l)) ≡ false
unfolding skip_spaces
skip_spaces-stops l = advance_while-stops is_space l.rest l refl

-- Where the skipping stops: at a byte that starts no white space and no comment.
pub record IsToken (l : Lexer) : Type 0 where
  pub no_space : is_at_end l ≡ false → is_space (peek l) ≡ false
  pub no_line : (peek l == b'/' && peek_next l == b'/') ≡ false
  pub no_block : (peek l == b'/' && peek_next l == b'*') ≡ false

pub record Skipped (fuel : ℕ) (l : Lexer) : Type 0 where
  pub after : Lexer
  pub skips : skip_whitespace_and_comments fuel l ≡ some after
  pub moves : Moves l after
  pub stops : IsToken after

-- With fuel above the bytes left, the skipping returns a state that the lexer can move to, and
-- there neither white space nor a comment begins.
pub skip-total : (fuel : ℕ) (l : Lexer) → length l.rest < fuel → Skipped fuel l
unfolding skip_whitespace_and_comments
skip-total zero l h = absurd (omega arith)
skip-total (suc fuel) l h =
    let m = skip_spaces l in
    let to_m = skip_spaces-Moves l in
    elim (Bool-cases (peek m == b'/' && peek_next m == b'/')) [
      | inl t ↦
          let n = skip_line m in
          let entered : is_at_end m ≡ false = ground arith in
          let to_n = Moves-trans to_m (Moves-cons entered (skip_line-Moves m (ground arith))) in
          let r =
            skip-total fuel n
              (omega (arith, Moves-shrinks to_m entered (skip_line-Moves m (ground arith)))) in
          record {
            after = r.after;
            skips = rw t r.skips;
            moves = Moves-trans to_n r.moves;
            stops = r.stops;
          }
      | inr t ↦ elim (Bool-cases (peek m == b'/' && peek_next m == b'*')) [
        | inl b ↦
            let n = skip_block m in
            let entered : is_at_end m ≡ false = ground arith in
            let to_n = Moves-trans to_m (Moves-cons entered (skip_block-Moves m (ground arith))) in
            let r =
              skip-total fuel n
                (omega (arith, Moves-shrinks to_m entered (skip_block-Moves m (ground arith)))) in
            record {
              after = r.after;
              skips = rw (t, b) r.skips;
              moves = Moves-trans to_n r.moves;
              stops = r.stops;
            }
        | inr b ↦ record {
          after = m;
          skips = rw (t, b);
          moves = to_m;
          stops = record { no_space = skip_spaces-stops l; no_line = t; no_block = b };
        }
      ]
    ]
