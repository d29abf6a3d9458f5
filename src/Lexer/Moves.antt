-- ===== src/Lexer/Moves.antt =====
-- Every part of the lexer moves by `advance` alone, and never past the terminator: `Moves l m`.
use apex_forge_night_script.Base.{
  ℕ, ◌+◌, ◌≤◌, ◌<◌, ◌≡◌, ap, Bool, true, false, not, ◌&&◌, [], ◌∷◌, Bytes, ◌==◌, length, arith,
  Bool-cases, inl, inr,
}
use apex_forge_night_script.Lexer.Cursor.{
  Lexer, peek, peek_next, advance, is_at_end, advance_while, behind,
}

pub data Moves (l : Lexer) : Lexer → Type 0 where
  here : Moves l l
  step : {m : Lexer} → Moves l m → is_at_end m ≡ false → Moves l (advance m)

pub Moves-trans : {l m n : Lexer} → Moves l m → Moves m n → Moves l n
Moves-trans p here = p
Moves-trans p (step q h) = step (Moves-trans p q) h

pub Moves-cons : {l m : Lexer} → is_at_end l ≡ false → Moves (advance l) m → Moves l m
Moves-cons h = Moves-trans (step here h)

-- What is read has gone from what is left.
pub Moves-length :
    {l m : Lexer} → Moves l m → (m.pos + length m.rest ≡ l.pos + length l.rest) × (l.pos ≤ m.pos)
unfolding advance
Moves-length here = omega arith
Moves-length (step {m} p h) = ground (arith, Moves-length p)

pub advance-rest : {c : ℕ} {cs : Bytes} (l : Lexer) → l.rest ≡ c ∷ cs → (advance l).rest ≡ cs
unfolding advance
advance-rest l e = ap behind e

pub not-at_end :
    {c : ℕ} {cs : Bytes} (l : Lexer) → l.rest ≡ c ∷ cs → (c == 0) ≡ false → is_at_end l ≡ false
not-at_end l e h = ground arith

pub advance_while-Moves :
    (p : ℕ → Bool) (bs : Bytes) (l : Lexer) → l.rest ≡ bs → Moves l (advance_while p bs l)
unfolding advance_while
advance_while-Moves p [] l e = here
advance_while-Moves p (c ∷ cs) l e = elim (Bool-cases (not (c == 0) && p c)) [
  | inl t ↦
      rw t (Moves-cons (ground arith) (advance_while-Moves p cs (advance l) (advance-rest l e)))
  | inr t ↦ rw t here
]

-- A run that consumes a byte leaves fewer.
pub Moves-shrinks :
    {l m n : Lexer}
    → Moves l m
    → is_at_end m ≡ false
    → Moves (advance m) n
    → (l.pos < n.pos) × (length n.rest < length l.rest)
unfolding advance
Moves-shrinks {l} {m} {n} p h q =
    omega (arith, Moves-length p, Moves-length (step p h), Moves-length q)

-- A loop whose test passes on the first byte consumes that byte.
pub advance_while-first :
    (p : ℕ → Bool) (bs : Bytes) (l : Lexer)
    → l.rest ≡ bs
    → (not (peek l == 0) && p (peek l)) ≡ true
    → advance_while p bs l ≡ advance_while p (behind bs) (advance l)
unfolding advance_while
advance_while-first p [] l e h = ground arith
advance_while-first p (c ∷ cs) l e h =
    let first_is : peek l ≡ c = ground arith in
    let t : (not (c == 0) && p c) ≡ true = rw first_is at h in rw t

pub peek-advance : (l : Lexer) → is_at_end l ≡ false → peek (advance l) ≡ peek_next l
unfolding advance
peek-advance l h = ground arith

-- A second byte that is read is no terminator.
pub next-not-at_end : (l : Lexer) → (peek_next l == 0) ≡ false → is_at_end (advance l) ≡ false
unfolding advance
next-not-at_end l h = ground arith
