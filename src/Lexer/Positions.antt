-- ===== src/Lexer/Positions.antt =====
-- What a position of the lexer means in the source: the line is one more than the newlines before
-- it, and the column one more than the bytes since the last of them.
use apex_forge_night_script.Base.{
  ℕ, suc, ◌+◌, ◌≡◌, refl, sym, ap, ◌∙◌, false, [], ◌∷◌, ◌++◌, Bytes, ◌==◌, if◌then◌else◌, length,
  length-append, append_assoc, arith,
}
use apex_forge_night_script.Lexer.Cursor.{Lexer, peek, advance, is_at_end, start_of, behind, first}
use apex_forge_night_script.Lexer.Moves.{Moves, here, step}

abbrev pub newlines : Bytes → ℕ
newlines [] = 0
newlines (c ∷ cs) = (if c == b'\n' then 1 else 0) + newlines cs

-- What stands behind the last newline.
abbrev pub last_line : Bytes → Bytes
last_line [] = []
last_line (c ∷ cs) = if newlines cs == 0 then if c == b'\n' then cs else c ∷ cs else last_line cs

newlines-concat : (xs : Bytes) (c : ℕ) → newlines (xs ++ c ∷ []) ≡ newlines xs + newlines (c ∷ [])
newlines-concat [] c = omega arith
newlines-concat (x ∷ xs) c = omega (arith, newlines-concat xs c)

length-last_line :
    (xs : Bytes) (c : ℕ)
    → length (last_line (xs ++ c ∷ [])) ≡ (if c == b'\n' then 0 else suc (length (last_line xs)))
length-last_line [] c = ground arith
length-last_line (x ∷ xs) c =
    ground (arith, length-last_line xs c, newlines-concat xs c, length-append {0} xs (c ∷ []))

-- `l` is the state that has read `read`, and stands before the rest of the source.
pub record At (src : Bytes) (l : Lexer) : Type 0 where
  pub read : Bytes
  pub splits : src ≡ read ++ l.rest
  pub pos_is : l.pos ≡ length read
  pub line_is : l.line ≡ newlines read + 1
  pub col_is : l.col ≡ length (last_line read) + 1

pub At-start : (src : Bytes) → At src (start_of src)
At-start src = record { read = []; splits = refl; pos_is = refl; line_is = refl; col_is = refl }

first-behind : (bs : Bytes) → (first bs == 0) ≡ false → bs ≡ first bs ∷ behind bs
first-behind [] h = cc
first-behind (c ∷ cs) h = refl

At-advance : (src : Bytes) (l : Lexer) → is_at_end l ≡ false → At src l → At src (advance l)
unfolding advance
At-advance src l h a = record {
  read = a.read ++ peek l ∷ [];
  splits =
      a.splits
      ∙ (ap (◌++◌ a.read) (first-behind l.rest h)
          ∙ sym (append_assoc a.read (peek l ∷ []) (behind l.rest)));
  pos_is = omega (arith, a.pos_is, length-append a.read (peek l ∷ []));
  line_is = ground (arith, a.line_is, newlines-concat a.read (peek l));
  col_is = ground (arith, a.col_is, length-last_line a.read (peek l));
}

pub Moves-At : {src : Bytes} {l m : Lexer} → At src l → Moves l m → At src m
Moves-At a here = a
Moves-At {src} a (step {m} p h) = At-advance src m h (Moves-At a p)
