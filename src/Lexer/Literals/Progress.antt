-- ===== src/Lexer/Literals/Progress.antt =====
-- A word or a number consumes a byte at least, and moves by single steps.
use apex_forge_night_script.Base.{
  ℕ, zero, suc, ◌+◌, ◌-◌, ◌*◌, ◌%◌, ◌≡◌, refl, Bool, true, false, ◌&&◌, ◌||◌, [], ◌∷◌, Bytes, ◌==◌,
  if◌then◌else◌, arith, Bool-cases, inl, inr, sym, ap, ◌∙◌,
}
use mathlib.Core.Bool.{false≢true}
use apex_forge_night_script.Lexer.Cursor.{Lexer, peek, peek_next, advance, is_at_end, behind, first}
use apex_forge_night_script.Lexer.Literals.{
  is_digit, is_alpha, is_word, hex_digit, is_hex, digits_loop, word64, hex_value, lex_word, lex_hex,
  lex_fraction, lex_exponent, lex_decimal, lex_number,
}
use apex_forge_night_script.Lexer.Moves.{
  Moves, here, Moves-trans, Moves-cons, next-not-at_end, not-at_end, advance-rest,
  advance_while-Moves, advance_while-first,
}

module _ (base : ℕ) (test : ℕ → Bool) (value : ℕ → ℕ) (stop : test 0 ≡ false) where
  stays_before_end : (c : ℕ) → (test c || c == b'_') ≡ true → (c == 0) ≡ false
  stays_before_end zero t = ground arith
  stays_before_end (suc c) t = ground arith

  digits_loop-Moves :
      (bs : Bytes) (acc : ℕ) (l : Lexer)
      → l.rest ≡ bs
      → Moves l (digits_loop base test value bs acc l).1
  unfolding digits_loop
  digits_loop-Moves [] acc l e = here
  digits_loop-Moves (c ∷ cs) acc l e = elim (Bool-cases (test c || c == b'_')) [
    | inl t ↦ rw t (
        Moves-cons (not-at_end l e (stays_before_end c t)) (
          digits_loop-Moves cs (if c == b'_' then acc else (acc * base + value c) % word64)
            (advance l) (advance-rest l e)))
    | inr t ↦ rw t here
  ]

  digits_loop-enters :
      (bs : Bytes) (acc : ℕ) (l : Lexer)
      → l.rest ≡ bs
      → test (peek l) ≡ true
      → Moves (advance l) (digits_loop base test value bs acc l).1
  unfolding digits_loop
  digits_loop-enters [] acc l e h = absurd (false≢true (sym stop ∙ (rw (ap first e) at h)))
  digits_loop-enters (c ∷ cs) acc l e h =
      let t : test c ≡ true = rw (ap first e) at h in
      rw t (
        digits_loop-Moves cs (if c == b'_' then acc else (acc * base + value c) % word64)
          (advance l) (advance-rest l e))

pub lex_word-enters :
    (l : Lexer)
    → (is_alpha (peek l) || peek l == b'_') ≡ true
    → Moves (advance l) (lex_word l).after
unfolding lex_word advance is_word is_alpha is_digit
lex_word-enters l h =
    rw (advance_while-first is_word l.rest l refl (ground arith))
      (advance_while-Moves is_word (behind l.rest) (advance l) refl)

lex_fraction-Moves : (l : Lexer) → Moves l (lex_fraction l).1
unfolding lex_fraction is_digit
lex_fraction-Moves l = elim (Bool-cases (peek l == b'.' && is_digit (peek_next l))) [
  | inl t ↦ rw t (
      Moves-cons (ground arith)
        (advance_while-Moves (λ c. is_digit c || c == b'_') (advance l).rest (advance l) refl))
  | inr t ↦ rw t here
]

sign : Lexer → Lexer
sign m = if peek m == b'+' || peek m == b'-' then advance m else m

sign-Moves : (m : Lexer) → Moves m (sign m)
unfolding sign
sign-Moves m = elim (Bool-cases (peek m == b'+' || peek m == b'-')) [
  | inl t ↦ rw t (Moves-cons (ground arith) here)
  | inr t ↦ rw t here
]

lex_exponent-Moves : (l : Lexer) → Moves l (lex_exponent l).1
unfolding lex_exponent sign
lex_exponent-Moves l =
    let s = sign (advance l) in
    elim (Bool-cases (peek l == b'e' || peek l == b'E')) [
      | inl t ↦ rw t (
          Moves-cons (ground arith)
            (Moves-trans (sign-Moves (advance l)) (advance_while-Moves is_digit s.rest s refl)))
      | inr t ↦ rw t here
    ]

lex_hex-enters : (l : Lexer) → is_at_end (advance l) ≡ false → Moves (advance l) (lex_hex l).after
unfolding lex_hex hex_digit
lex_hex-enters l h =
    let m = advance (advance l) in
    Moves-cons h (digits_loop-Moves 16 is_hex hex_value refl m.rest 0 m refl)

lex_decimal-enters :
    (l : Lexer) → is_digit (peek l) ≡ true → Moves (advance l) (lex_decimal l).after
unfolding lex_decimal is_digit
lex_decimal-enters l h =
    let m = (digits_loop 10 is_digit (λ c. c - b'0') l.rest 0 l).1 in
    let n = (lex_fraction m).1 in
    let run : Moves (advance l) (lex_exponent n).1 =
      Moves-trans (digits_loop-enters 10 is_digit (λ c. c - b'0') refl l.rest 0 l refl h)
        (Moves-trans (lex_fraction-Moves m) (lex_exponent-Moves n)) in
    elim (Bool-cases ((lex_fraction m).0 || (lex_exponent n).0)) [
      | inl t ↦ rw t run
      | inr t ↦ rw t run
    ]

-- A number consumes a byte at least.
pub lex_number-enters :
    (l : Lexer) → is_digit (peek l) ≡ true → Moves (advance l) (lex_number l).after
unfolding lex_number
lex_number-enters l h =
    elim (Bool-cases (peek l == b'0' && (peek_next l == b'x' || peek_next l == b'X'))) [
      | inl t ↦ rw t (lex_hex-enters l (next-not-at_end l (ground arith)))
      | inr t ↦ rw t (lex_decimal-enters l h)
    ]
