-- ===== src/Lexer/Tables/Names.antt =====
-- Keywords against the names of compiler/src/lexer/token.c.
use apex_forge_night_script.Base.{
  ◌≡◌, ◌≢◌, refl, Bool, true, List, [], ◌∷◌, Bytes, beq, beq→eq, All, every, every-All, Bool-cases,
  inl, inr,
}
use apex_forge_night_script.Token.{tok_ident, token_kind_name}
use apex_forge_night_script.Lexer.Tables.{Keyword, keywords, find_keyword, ident_or_keyword}

abbrev is_named : Keyword → Bool
is_named k = beq (token_kind_name k.kind) k.word

find_keyword-named :
    (ks : List Keyword) (w : Bytes)
    → All (λ k. is_named k ≡ true) ks
    → find_keyword ks w ≢ tok_ident
    → token_kind_name (find_keyword ks w) ≡ w
unfolding find_keyword
find_keyword-named [] w h n = absurd (n refl)
find_keyword-named (k ∷ ks) w h n = elim (Bool-cases (beq k.word w)) [
  | inl t ↦ rw t (cc (beq→eq k.word w t, beq→eq (token_kind_name k.kind) k.word h.0))
  | inr t ↦ rw t (find_keyword-named ks w h.1 (rw t at n))
]

-- A word that the lexer does not take for an identifier has a kind whose name is the word.
pub token_kind_name-ident_or_keyword :
    (w : Bytes) → ident_or_keyword w ≢ tok_ident → token_kind_name (ident_or_keyword w) ≡ w
unfolding ident_or_keyword keywords every token_kind_name
token_kind_name-ident_or_keyword w =
    find_keyword-named keywords w (every-All is_named keywords refl)
