-- ===== src/Parser/Reads/Loops.antt =====
-- How far the loops of the parser move: compiler/src/parser/parser.c.
use apex_forge_night_script.Base.{
  ℕ, zero, suc, ◌≤◌, Bool, true, false, none, some, List, [], ◌∷◌, String, arith,
}
use apex_forge_night_script.Token.{TokenKind, tok_ident}
use apex_forge_night_script.Parser.State.{
  Parse, if_match_any, match_kind, after, unless, expect_path_token, is_path_token, until_loop,
  until_closed, separated_loop, separated,
}
use apex_forge_night_script.Parser.Reads.Core.{
  Reads, Reads-bind, Reads-then, Reads-le, Reads-pure, Reads-if, Reads-rounds,
}
use apex_forge_night_script.Parser.Reads.Tokens.{Reads-cur, Reads-skip_token, Reads-check}
use apex_forge_night_script.Parser.Reads.Passing.{
  Enters, Reads-expect, Enters-le, Reads-if_match, Reads-if_match_strict, Reads-unless_closed,
  Enters-bind_strict,
}

module _ {ℓ} {A : Type ℓ} where
  pub Reads-if_match_any :
      {n d : ℕ} (ks : List TokenKind) {x y : Parse A}
      → d ≤ 1
      → Reads n 0 x
      → Reads (suc n) d y
      → Reads (suc n) d (if_match_any ks x y)
  unfolding if_match_any
  Reads-if_match_any [] b h g = g
  Reads-if_match_any (k ∷ ks) b h g = Reads-if_match_strict k b h (Reads-if_match_any ks b h g)

  pub Reads-if_match_any_pass :
      {n : ℕ} (ks : List TokenKind) {x y : Parse A}
      → Reads n 0 x
      → Reads (suc n) 1 y
      → Reads (suc n) 1 (if_match_any ks x y)
  Reads-if_match_any_pass ks h g = Reads-if_match_any ks (omega arith) h g

  pub Reads-if_match_any_drop :
      {n : ℕ} (ks : List TokenKind) {x y : Parse A}
      → Reads n 0 x
      → Reads (suc n) 0 y
      → Reads (suc n) 0 (if_match_any ks x y)
  Reads-if_match_any_drop ks h g = Reads-if_match_any ks (omega arith) h g

  pub Reads-after : {n : ℕ} (k : TokenKind) {m : Parse A} → Reads n 0 m → Reads n 0 (after k m)
  unfolding after
  Reads-after k h = Reads-if_match k (Reads-bind _ _ h λ a. Reads-pure (some a)) (Reads-pure none)

  pub Reads-unless : {n : ℕ} (k : TokenKind) {m : Parse A} → Reads n 0 m → Reads n 0 (unless k m)
  unfolding unless
  Reads-unless k h =
      Reads-bind _ _ (Reads-check k)
        λ closed. Reads-if closed (Reads-pure none) (Reads-bind _ _ h λ a. Reads-pure (some a))

pub Reads-match_kind : {n : ℕ} (k : TokenKind) → Reads n 0 (match_kind k)
unfolding match_kind
Reads-match_kind k = Reads-if_match k (Reads-pure true) (Reads-pure false)

module _ {ℓ} {A : Type ℓ} where
  until_loop-Reads :
      (i n : ℕ) (k : TokenKind) (m : Parse A) → i ≤ n → Enters n m → Reads i 0 (until_loop i k m)
  unfolding until_loop
  until_loop-Reads zero n k m h e = record { at = λ p l. absurd (omega (arith, l)) }
  until_loop-Reads (suc i) n k m h e =
      let more = until_loop-Reads i n k m (omega (arith, h)) e in
      Reads-unless_closed k
        (Enters-bind_strict m _ (Enters-le h e) λ x. Reads-bind _ _ more λ xs. Reads-pure (x ∷ xs))
        (Reads-pure [])

  pub Reads-until_closed :
      {n : ℕ} (k : TokenKind) {m : Parse A} → Enters n m → Reads n 0 (until_closed k m)
  unfolding until_closed
  Reads-until_closed {n} k {m} h = Reads-rounds _ λ i e. until_loop-Reads i n k m e h

  separated_loop-Reads :
      (i n : ℕ) (k : TokenKind) (m : Parse A)
      → i ≤ n
      → Reads n 0 m
      → Reads i 0 (separated_loop i k m)
  unfolding separated_loop
  separated_loop-Reads zero n k m h e = record { at = λ p l. absurd (omega (arith, l)) }
  separated_loop-Reads (suc i) n k m h e =
      let more = separated_loop-Reads i n k m (omega (arith, h)) e in
      Reads-bind m _ (Reads-le h e) λ x.
        Reads-if_match_strict k (omega arith) (Reads-bind _ _ more λ xs. Reads-pure (x ∷ xs))
          (Reads-pure (x ∷ []))

  pub Reads-separated :
      {n : ℕ} (k : TokenKind) {m : Parse A} → Reads n 0 m → Reads n 0 (separated k m)
  unfolding separated
  Reads-separated {n} k {m} h = Reads-rounds _ λ i e. separated_loop-Reads i n k m e h

pub Reads-expect_path_token :
    {n : ℕ} (msg : String) (b : Bool) → Reads n 0 (expect_path_token msg b)
unfolding expect_path_token
Reads-expect_path_token msg b = Reads-bind _ _ Reads-cur λ t.
    Reads-if (is_path_token t.kind b) (Reads-then (Reads-skip_token (omega arith)) (Reads-pure t))
      (Reads-expect tok_ident msg)
