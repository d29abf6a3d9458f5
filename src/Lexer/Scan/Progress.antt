-- ===== src/Lexer/Scan/Progress.antt =====
-- One round of the loop: the token covers what is consumed, from the state that it starts at.
use apex_forge_night_script.Base.{
  ℕ, ◌+◌, ◌≤◌, ◌<◌, ◌≡◌, ◌≢◌, refl, Bool, true, false, ◌&&◌, ◌||◌, some, List, [], ◌∷◌, Bytes, ◌==◌,
  arith, Bool-cases, inl, inr, ◌⊎◌, All, every, every-All, not, beq, subst,
}
use apex_forge_night_script.Token.{
  TokenKind, kind_eq, kind_number, Payload, Token, int_val, tok_string, tok_char, tok_eof,
  tok_dotdot,
}
use apex_forge_night_script.Lexer.Cursor.{Lexer, peek, peek_next, advance, is_at_end}
use apex_forge_night_script.Lexer.Literals.{
  Scanned, lex_word, lex_number, lex_hex, lex_decimal, is_alpha, is_digit,
}
use apex_forge_night_script.Lexer.Literals.Progress.{lex_word-enters, lex_number-enters}
use apex_forge_night_script.Lexer.Moves.{Moves, here, Moves-cons, Moves-length, next-not-at_end}
use apex_forge_night_script.Lexer.Result.{
  Yields, value, error, Yields-if, Yields-option, Yields-bind,
}
use apex_forge_night_script.Lexer.Scan.{
  spanning, set_back, one_byte_token, literal_token, next_token,
}
use apex_forge_night_script.Lexer.Strings.{text_length}
use apex_forge_night_script.Lexer.Strings.Progress.{lex_string-Yields, lex_char-Yields}
use apex_forge_night_script.Lexer.Tables.{
  Keyword, keywords, find_keyword, ident_or_keyword, Symbol2, two_byte_symbols, find_symbol2,
  Symbol1, one_byte_symbols, find_symbol1, two_byte_kind, one_byte_kind,
}

-- A token scanned from `l`: it carries the position of `l`, and its bytes end where the lexer then
-- stands. Its bytes begin at `l`, but for a string or a character, where they begin there or later.
pub record Scans (l : Lexer) (r : Token × Lexer) : Type 0 where
  pub moves : Moves (advance l) r.1
  pub line_is : r.0.line ≡ l.line
  pub col_is : r.0.col ≡ l.col
  pub ends : r.0.start + r.0.len ≡ r.1.pos
  pub begins : l.pos ≤ r.0.start
  pub exact : r.0.kind ≢ tok_string → r.0.kind ≢ tok_char → r.0.start ≡ l.pos
  pub no_eof : r.0.kind ≢ tok_eof

pos-after : (l : Lexer) {m : Lexer} → Moves (advance l) m → l.pos < m.pos
unfolding advance
pos-after l p = omega (arith, Moves-length p)

spanning-Scans :
    (l : Lexer) (k : TokenKind) (v : Payload) (m : Lexer)
    → k ≢ tok_eof
    → Moves (advance l) m
    → Scans l (spanning l k v m)
spanning-Scans l k v m h p = record {
  moves = p;
  line_is = refl;
  col_is = refl;
  ends = omega (arith, pos-after l p);
  begins = omega arith;
  exact = λ _ _. refl;
  no_eof = h;
}

-- No table holds the end of the source.
abbrev not_eof : TokenKind → Bool
not_eof k = not (kind_eq k tok_eof)

not_eof→ne : {k : TokenKind} → not_eof k ≡ true → k ≢ tok_eof
unfolding kind_number
not_eof→ne h e = cc (rw e at h)

find_keyword-ne :
    (ks : List Keyword) (w : Bytes)
    → All (λ (k : Keyword). not_eof k.kind ≡ true) ks
    → not_eof (find_keyword ks w) ≡ true
unfolding find_keyword kind_number
find_keyword-ne [] w h = refl
find_keyword-ne (k ∷ ks) w h = elim (Bool-cases (beq k.word w)) [
  | inl t ↦ rw t h.0
  | inr t ↦ rw t (find_keyword-ne ks w h.1)
]

ident_or_keyword-ne : (w : Bytes) → ident_or_keyword w ≢ tok_eof
unfolding ident_or_keyword kind_number every
ident_or_keyword-ne w =
    not_eof→ne
      (find_keyword-ne keywords w (every-All (λ (k : Keyword). not_eof k.kind) keywords refl))

find_symbol2-found :
    (p : Symbol2 → Bool) (ss : List Symbol2) (c n : ℕ) {k : TokenKind}
    → All (λ s. p s ≡ true) ss
    → find_symbol2 ss c n ≡ some k
    → (s : Symbol2) × (p s ≡ true) × (c ≡ s.first) × (n ≡ s.second) × (k ≡ s.kind)
unfolding find_symbol2
find_symbol2-found p [] c n h e = cc
find_symbol2-found p (s ∷ ss) c n h e = elim (Bool-cases (c == s.first && n == s.second)) [
  | inl t ↦ (s, h.0, ground arith, ground arith, cc (rw t at e))
  | inr t ↦ find_symbol2-found p ss c n h.1 (rw t at e)
]

-- No symbol holds a terminator, so one that is found lies before the end.
abbrev is_inner : Symbol2 → Bool
is_inner s = not (s.first == 0) && not (s.second == 0) && not_eof s.kind

is_inner-parts :
    (a b : ℕ) (k : Bool)
    → (not (a == 0) && not (b == 0) && k) ≡ true
    → ((b == 0) ≡ false) × (k ≡ true)
is_inner-parts a b k h = ground arith

two_byte_kind-found :
    (c n : ℕ) {k : TokenKind} → two_byte_kind c n ≡ some k → ((n == 0) ≡ false) × (k ≢ tok_eof)
unfolding two_byte_kind every kind_number two_byte_symbols
two_byte_kind-found c n e =
    let (s, h, p, q, r) =
      find_symbol2-found is_inner two_byte_symbols c n (every-All is_inner two_byte_symbols refl)
        e in
    let x = is_inner-parts s.first s.second (not_eof s.kind) h in (rw q x.0, rw r (not_eof→ne x.1))

find_symbol1-ne :
    (ss : List Symbol1) (c : ℕ) {k : TokenKind}
    → All (λ (s : Symbol1). not_eof s.kind ≡ true) ss
    → find_symbol1 ss c ≡ some k
    → k ≢ tok_eof
unfolding find_symbol1
find_symbol1-ne [] c h e = cc
find_symbol1-ne (s ∷ ss) c h e = elim (Bool-cases (c == s.byte)) [
  | inl t ↦ subst (λ k. k ≢ tok_eof) (cc (rw t at e)) (not_eof→ne h.0)
  | inr t ↦ find_symbol1-ne ss c h.1 (rw t at e)
]

one_byte_kind-ne : (c : ℕ) {k : TokenKind} → one_byte_kind c ≡ some k → k ≢ tok_eof
unfolding one_byte_kind every kind_number one_byte_symbols
one_byte_kind-ne c =
    find_symbol1-ne one_byte_symbols c
      (every-All (λ (s : Symbol1). not_eof s.kind) one_byte_symbols refl)

dotdot-ne : tok_dotdot ≢ tok_eof
dotdot-ne = cc

one_byte_token-Yields : (l : Lexer) → is_at_end l ≡ false → Yields (Scans l) (one_byte_token l)
unfolding one_byte_token
one_byte_token-Yields l h =
    Yields-if (peek l == b'.' && peek_next l == b'.')
      (λ t. value (
        spanning-Scans l tok_dotdot (int_val 0) (advance (advance l)) dotdot-ne
          (Moves-cons (next-not-at_end l (ground arith)) here)))
      λ t.
        Yields-option (one_byte_kind (peek l)) (λ n. error)
          λ k e.
            value (spanning-Scans l k (int_val 0) (advance l) (one_byte_kind-ne (peek l) e) here)

word-ne : (l : Lexer) → (lex_word l).kind ≢ tok_eof
unfolding lex_word
word-ne l = ident_or_keyword-ne _

hex-ne : (l : Lexer) → (lex_hex l).kind ≢ tok_eof
unfolding lex_hex
hex-ne l = cc

decimal-ne : (l : Lexer) → (lex_decimal l).kind ≢ tok_eof
unfolding lex_decimal
decimal-ne l e = ground arith

number-ne : (l : Lexer) → (lex_number l).kind ≢ tok_eof
unfolding lex_number
number-ne l = elim (Bool-cases (peek l == b'0' && (peek_next l == b'x' || peek_next l == b'X'))) [
  | inl t ↦ rw t (hex-ne l)
  | inr t ↦ rw t (decimal-ne l)
]

set_back-Scans :
    (l : Lexer) (n : ℕ) (s : Scanned)
    → (s.kind ≡ tok_string) ⊎ (s.kind ≡ tok_char)
    → Moves (advance l) s.after
    → l.pos + n ≤ s.after.pos
    → Scans l (set_back l n s)
set_back-Scans l n s k p room = record {
  moves = p;
  line_is = refl;
  col_is = refl;
  ends = omega arith;
  begins = omega arith;
  exact = λ a b. elim k [ inl e ↦ absurd (a e) | inr e ↦ absurd (b e) ];
  no_eof = λ e. elim k [ inl q ↦ cc | inr q ↦ cc ];
}

literal_token-Yields : (l : Lexer) → is_at_end l ≡ false → Yields (Scans l) (literal_token l)
unfolding literal_token
literal_token-Yields l h =
    Yields-if (is_alpha (peek l) || peek l == b'_')
      (λ t. value (spanning-Scans l _ _ _ (word-ne l) (lex_word-enters l t)))
      λ _.
        Yields-if (is_digit (peek l))
          (λ t. value (spanning-Scans l _ _ _ (number-ne l) (lex_number-enters l t)))
          λ _.
            Yields-if (peek l == b'"')
              (λ _. Yields-bind (lex_string-Yields l) λ s x. value (
                set_back-Scans l (text_length s.value + 2) s (inl x.kind_is) x.moves
                  (omega (arith, x.room))))
              λ _.
                Yields-if (peek l == b'\'')
                  (λ _.
                    Yields-bind (lex_char-Yields l)
                      λ s x. value (set_back-Scans l 3 s (inr x.kind_is) x.moves x.room))
                  λ _. one_byte_token-Yields l h

-- A round returns a token of what it consumed, or an error.
pub next_token-Yields : (l : Lexer) → is_at_end l ≡ false → Yields (Scans l) (next_token l)
unfolding next_token
next_token-Yields l h =
    Yields-option (two_byte_kind (peek l) (peek_next l)) (λ n. literal_token-Yields l h)
      λ k e.
        let found = two_byte_kind-found (peek l) (peek_next l) e in
        value (
          spanning-Scans l k (int_val 0) (advance (advance l)) found.1
            (Moves-cons (next-not-at_end l found.0) here))
