-- ===== src/Lexer/Quoting.antt =====
-- A string literal against the text that it is written from.
use apex_forge_night_script.Base.{
  ℕ, ◌+◌, ◌≤◌, ◌<◌, ◌≡◌, refl, ◌∙◌, sym, ap, false, Option, Option-cases, ◌≢◌, none, some, [], ◌∷◌,
  ◌++◌, Bytes, ◌==◌, if◌then◌else◌, length, length-append, append_assoc, append-nil, arith, inl,
  inr, subst,
}
use apex_forge_night_script.Token.{tok_string, str_val}
use apex_forge_night_script.Lexer.Cursor.{Lexer, peek, advance}
use apex_forge_night_script.Lexer.Literals.{Scanned}
use apex_forge_night_script.Lexer.Moves.{advance-rest}
use apex_forge_night_script.Lexer.Result.{ok}
use apex_forge_night_script.Lexer.Strings.{
  escaped, lex_escape, put, buffer_limit, string_loop, lex_string,
}

-- The letter that a byte is written with behind a backslash, if it cannot stand for itself.
unfoldable pub escape_letter : ℕ → Option ℕ
escape_letter c =
    if c == 0
    then some b'0'
    else if c == b'\n'
    then some b'n'
    else if c == b'"'
    then some b'"'
    else if c == b'\\'
    then some b'\\'
    else none

abbrev quote_byte : ℕ → Option ℕ → Bytes
quote_byte c none = c ∷ []
quote_byte c (some e) = b'\\' ∷ e ∷ []

-- The inside of a literal for these bytes.
unfoldable pub quote : Bytes → Bytes
quote [] = []
quote (c ∷ cs) = quote_byte c (escape_letter c) ++ quote cs

quoted_back : (c : ℕ) {e : ℕ} → escape_letter c ≡ some e → escaped e ≡ some c
unfolding escape_letter escaped
quoted_back c h = ground arith

put-room : (buf : Bytes) (c : ℕ) → length buf < buffer_limit → put buf c ≡ buf ++ c ∷ []
unfolding put
put-room buf c h = ground arith

plain :
    (c : ℕ)
    → escape_letter c ≡ none
    → ((c == 0) ≡ false) × ((c == b'"') ≡ false) × ((c == b'\n') ≡ false) × ((c == b'\\') ≡ false)
unfolding escape_letter
plain c h = ground arith

lex_escape-some : (l : Lexer) {c : ℕ} → escaped (peek l) ≡ some c → lex_escape l ≡ ok (c, advance l)
unfolding lex_escape
lex_escape-some l e = rw e

string_loop-plain :
    (at : Lexer) (c : ℕ) (cs buf : Bytes) (l : Lexer)
    → cs ≢ []
    → escape_letter c ≡ none
    → string_loop at (c ∷ cs) buf l ≡ string_loop at cs (put buf c) (advance l)
unfolding string_loop
string_loop-plain at c [] buf l ne h = absurd (ne refl)
string_loop-plain at c (d ∷ cs) buf l ne h = let (z, q, n, b) = plain c h in rw (z, q, n, b)

string_loop-escape :
    (at : Lexer) (e c : ℕ) (cs buf : Bytes) (l : Lexer)
    → l.rest ≡ b'\\' ∷ e ∷ cs
    → escaped e ≡ some c
    → string_loop at (b'\\' ∷ e ∷ cs) buf l ≡ string_loop at cs (put buf c) (advance (advance l))
unfolding string_loop
string_loop-escape at e c cs buf l h x =
    let accepted : escaped (peek (advance l)) ≡ some c = rw (advance-rest l h) x in
    rw (lex_escape-some (advance l) accepted)

string_loop-close :
    (at : Lexer) (rest buf : Bytes) (l : Lexer)
    → string_loop at (b'"' ∷ rest) buf l ≡ ok (buf, advance l)
unfolding string_loop
string_loop-close at [] buf l = refl
string_loop-close at (c ∷ cs) buf l = refl

append-cons-ne : (xs : Bytes) (y : ℕ) (ys : Bytes) → xs ++ y ∷ ys ≢ []
append-cons-ne [] y ys = cc
append-cons-ne (x ∷ xs) y ys = cc

-- The loop reads `s` off the front of its input, and stops with the input `rest`.
record Reads (at : Lexer) (input buf : Bytes) (l : Lexer) (s rest : Bytes) : Type 0 where
  last : Lexer
  run : string_loop at input buf l ≡ ok (buf ++ s, last)
  left : last.rest ≡ rest

Reads-cons :
    (at : Lexer) (input more buf : Bytes) (l k : Lexer) (c : ℕ) (cs rest : Bytes)
    → length buf < buffer_limit
    → string_loop at input buf l ≡ string_loop at more (put buf c) k
    → Reads at more (buf ++ c ∷ []) k cs rest
    → Reads at input buf l (c ∷ cs) rest
Reads-cons at input more buf l k c cs rest h e r = record {
  last = r.last;
  run =
      e
      ∙ (ap (λ b. string_loop at more b k) (put-room buf c h)
          ∙ (r.run ∙ ap (λ b. ok (b, r.last)) (append_assoc buf (c ∷ []) cs)));
  left = r.left;
}

-- The loop reads the quoted bytes into the buffer, and stops behind the closing quote.
string_loop-quote :
    (at : Lexer) (s rest buf : Bytes) (l : Lexer)
    → l.rest ≡ quote s ++ b'"' ∷ rest
    → length buf + length s ≤ buffer_limit
    → Reads at (quote s ++ b'"' ∷ rest) buf l s rest
unfolding quote
string_loop-quote at [] rest buf l e h = record {
  last = advance l;
  run = string_loop-close at rest buf l ∙ ap (λ b. ok (b, advance l)) (sym (append-nil buf));
  left = advance-rest l e;
}
string_loop-quote at (c ∷ cs) rest buf l e h =
    let room : length (buf ++ c ∷ []) + length cs ≤ buffer_limit =
      omega (arith, length-append buf (c ∷ [])) in
    let tail = quote cs ++ b'"' ∷ rest in
    elim (Option-cases (escape_letter c)) [
      | inl n ↦
          let here : l.rest ≡ c ∷ tail = rw (n, quote) at e in
          rw n (
            Reads-cons at (c ∷ tail) tail buf l (advance l) c cs rest (omega arith)
              (string_loop-plain at c tail buf l (append-cons-ne (quote cs) b'"' rest) n)
              (string_loop-quote at cs rest (buf ++ c ∷ []) (advance l) (advance-rest l here) room))
      | inr (x, n) ↦
          let here : l.rest ≡ b'\\' ∷ x ∷ tail = rw (n, quote) at e in
          let k = advance (advance l) in
          rw n (
            Reads-cons at (b'\\' ∷ x ∷ tail) tail buf l k c cs rest (omega arith)
              (string_loop-escape at x c tail buf l here (quoted_back c n))
              (string_loop-quote at cs rest (buf ++ c ∷ []) k
                (advance-rest (advance l) (advance-rest l here)) room))
    ]

-- A string literal that is written by quoting at most 4095 bytes has these bytes for its value, and
-- the lexer stands right behind it.
pub lex_string-quote :
    (s rest : Bytes) (l : Lexer)
    → length s ≤ buffer_limit
    → l.rest ≡ b'"' ∷ (quote s ++ b'"' ∷ rest)
    → (t : Scanned) × (lex_string l ≡ ok t)
      × (t.kind ≡ tok_string)
      × (t.value ≡ str_val s)
      × (t.after.rest ≡ rest)
unfolding lex_string
lex_string-quote s rest l h e =
    let inside = advance-rest l e in
    let r = string_loop-quote l s rest [] (advance l) inside (omega arith) in
    let run : string_loop l (advance l).rest [] (advance l) ≡ ok (s, r.last) =
      subst (λ i. string_loop l i [] (advance l) ≡ ok (s, r.last)) (sym inside) r.run in
    (record { kind = tok_string; value = str_val s; after = r.last }, rw run, refl, refl, r.left)
