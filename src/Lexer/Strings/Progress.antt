-- ===== src/Lexer/Strings/Progress.antt =====
-- A string or a character consumes its two quotes and a byte for each byte of its value.
use apex_forge_night_script.Base.{
  ℕ, ◌+◌, ◌≤◌, ◌<◌, ◌≡◌, refl, false, some, [], ◌∷◌, Bytes, ◌==◌, arith, length, length-append,
}
use apex_forge_night_script.Token.{tok_string, tok_char}
use apex_forge_night_script.Lexer.Cursor.{Lexer, peek, advance, is_at_end}
use apex_forge_night_script.Lexer.Literals.{Scanned}
use apex_forge_night_script.Lexer.Moves.{
  Moves, here, step, Moves-trans, Moves-cons, not-at_end, advance-rest,
}
use apex_forge_night_script.Lexer.Result.{
  Result, Yields, value, error, Yields-if, Yields-map, Yields-option, Yields-bind,
}
use apex_forge_night_script.Lexer.Strings.{
  escaped, lex_escape, put, string_loop, text_length, lex_string, lex_char_body, lex_char,
}

-- An accepted escape is one byte, which is not the terminator.
pub record Escape (l : Lexer) (r : ℕ × Lexer) : Type 0 where
  pub after_is : r.1 ≡ advance l
  pub stands_for : escaped (peek l) ≡ some r.0
  pub inside : is_at_end l ≡ false

escaped-ne-zero : (c : ℕ) {ch : ℕ} → escaped c ≡ some ch → (c == 0) ≡ false
unfolding escaped
escaped-ne-zero c h = ground arith

pub lex_escape-Yields : (l : Lexer) → Yields (Escape l) (lex_escape l)
unfolding lex_escape
lex_escape-Yields l =
    Yields-option (escaped (peek l)) (λ n. error)
      λ ch e.
        value (record { after_is = refl; stands_for = e; inside = escaped-ne-zero (peek l) e })

length-put : (buf : Bytes) (ch : ℕ) → length (put buf ch) ≤ length buf + 1
unfolding put
length-put buf ch = ground (arith, length-append buf (ch ∷ []))

pos-advance : (l : Lexer) → (advance l).pos ≡ l.pos + 1
unfolding advance
pos-advance l = refl

-- The value grows by less than what is consumed.
record Run (l : Lexer) (buf : Bytes) (r : Bytes × Lexer) : Type 0 where
  moves : Moves l r.1
  room : length r.0 + l.pos + 1 ≤ length buf + r.1.pos

Run-step :
    {l k : Lexer} {buf more : Bytes} {r : Bytes × Lexer}
    → Moves l k
    → length more + l.pos ≤ length buf + k.pos
    → Run k more r
    → Run l buf r
Run-step p h r = record { moves = Moves-trans p r.moves; room = omega (arith, r.room) }

Yields-step :
    {l k : Lexer} {buf more : Bytes} (r : Result (Bytes × Lexer))
    → Moves l k
    → length more + l.pos ≤ length buf + k.pos
    → Yields (Run k more) r
    → Yields (Run l buf) r
Yields-step _ p h (value r) = value (Run-step p h r)
Yields-step _ p h error = error

Run-close : {l : Lexer} (buf : Bytes) → is_at_end l ≡ false → Run l buf (buf, advance l)
Run-close {l} buf h = record { moves = Moves-cons h here; room = omega (arith, pos-advance l) }

-- What stands behind an accepted escape.
Escape-Moves :
    (l : Lexer) (r : ℕ × Lexer) → is_at_end l ≡ false → Escape (advance l) r → Moves l r.1
Escape-Moves l r h x = rw x.after_is (Moves-cons h (Moves-cons x.inside here))

Escape-room :
    (l : Lexer) (buf : Bytes) (r : ℕ × Lexer)
    → Escape (advance l) r
    → length (put buf r.0) + l.pos ≤ length buf + r.1.pos
Escape-room l buf r x =
    rw x.after_is (omega (arith, length-put buf r.0, pos-advance l, pos-advance (advance l)))

Escape-pos : (l : Lexer) (r : ℕ × Lexer) → Escape (advance l) r → l.pos < r.1.pos
Escape-pos l r x = rw x.after_is (omega (arith, pos-advance l, pos-advance (advance l)))

string_loop-Yields :
    (at : Lexer) (bs : Bytes) (buf : Bytes) (l : Lexer)
    → l.rest ≡ bs
    → Yields (Run l buf) (string_loop at bs buf l)
unfolding string_loop
string_loop-Yields at [] buf l e = error
string_loop-Yields at (c ∷ []) buf l e =
    Yields-if (c == 0) (λ z. error)
      λ z.
        Yields-if (c == b'"') (λ q. value (Run-close buf (not-at_end l e z)))
          λ q.
            Yields-if (c == b'\n') (λ n. error)
              λ n.
                Yields-if (c == b'\\')
                  (λ b. Yields-bind (lex_escape-Yields (advance l)) λ r x. error) λ b. error
string_loop-Yields at (c ∷ d ∷ cs) buf l e =
    Yields-if (c == 0) (λ z. error)
      λ z.
        let more = not-at_end l e z in
        Yields-if (c == b'"') (λ q. value (Run-close buf more))
          λ q.
            Yields-if (c == b'\n') (λ n. error)
              λ n.
                Yields-if (c == b'\\')
                  (λ b. Yields-bind (lex_escape-Yields (advance l)) λ (ch, k) x.
                    Yields-step _ (Escape-Moves l (ch, k) more x) (Escape-room l buf (ch, k) x) (
                      string_loop-Yields at cs (put buf ch) k
                        (rw x.after_is (advance-rest (advance l) (advance-rest l e)))))
                  λ b.
                    Yields-step _ (Moves-cons more here)
                      (omega (arith, length-put buf c, pos-advance l))
                      (string_loop-Yields at (d ∷ cs) (put buf c) (advance l) (advance-rest l e))

-- A literal: what it moves over, and the bytes that its pointer is set back by.
pub record StringLiteral (l : Lexer) (s : Scanned) : Type 0 where
  pub kind_is : s.kind ≡ tok_string
  pub moves : Moves (advance l) s.after
  pub room : l.pos + text_length s.value + 2 ≤ s.after.pos

pub lex_string-Yields : (l : Lexer) → Yields (StringLiteral l) (lex_string l)
unfolding lex_string
lex_string-Yields l =
    let m = advance l in
    Yields-bind (string_loop-Yields l m.rest [] m refl) λ (buf, after) r.
      value
        (record { kind_is = refl; moves = r.moves; room = omega (arith, r.room, pos-advance l) })

pub record CharLiteral (l : Lexer) (s : Scanned) : Type 0 where
  pub kind_is : s.kind ≡ tok_char
  pub moves : Moves (advance l) s.after
  pub room : l.pos + 3 ≤ s.after.pos

lex_char_body-Yields :
    (l : Lexer)
    → is_at_end l ≡ false
    → Yields (λ r. Moves l r.1 × (l.pos < r.1.pos)) (lex_char_body l)
unfolding lex_char_body
lex_char_body-Yields l h =
    Yields-if (peek l == b'\\')
      (λ b.
        Yields-map (λ r x. (Escape-Moves l r h x, Escape-pos l r x))
          (lex_escape-Yields (advance l)))
      λ b. value (Moves-cons h here, omega (arith, pos-advance l))

pub lex_char-Yields : (l : Lexer) → Yields (CharLiteral l) (lex_char l)
unfolding lex_char
lex_char-Yields l =
    let m = advance l in
    Yields-if (is_at_end m) (λ t. error)
      λ t. Yields-bind (lex_char_body-Yields m t) λ (ch, n) x.
        Yields-if (peek n == b'\'')
          (λ q. value (record {
            kind_is = refl;
            moves = step x.0 (ground arith);
            room = omega (arith, x.1, pos-advance l, pos-advance n);
          }))
          λ q. error
