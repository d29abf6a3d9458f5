-- ===== src/Parser/Reads/Passing.antt =====
-- Steps that pass a token wherever the end token is not there: compiler/src/parser/parser.c, lines 34-46.
use apex_forge_night_script.Base.{
  ℕ, suc, ◌+◌, ◌≤◌, ◌<◌, ◌≡◌, ◌||◌, Bool, false, String, arith, case_list,
}
use apex_forge_night_script.Token.{TokenKind, kind_eq, kind_number, tok_eof}
use apex_forge_night_script.Parser.State.{
  Parser, Parse, left, ◌>>=◌, ◌>>◌, next_pos, if_match, expect, expected, with_error, unless_closed,
}
use apex_forge_night_script.Parser.Reads.Core.{
  Ends, ends, faults, Reads, Ends-map, Ends-list, Ends-if, continue-Ends,
}
use apex_forge_night_script.Parser.Reads.Tokens.{length-next}

-- Whether the end token is the current one.
abbrev pub at_eof : Parser → Bool
unfolding kind_number
at_eof p = case_list p.rest false λ t ts. kind_eq t.kind tok_eof

-- The same, with a token passed wherever the end token is not the current one.
pub record Enters {ℓ} {A : Type ℓ} (n : ℕ) (m : Parse A) : Type ℓ where
  pub at : (p : Parser) → left p < n → at_eof p ≡ false → Ends (λ q. left q + 1 ≤ left p) (m p)

pub Reads-expect : {n : ℕ} (k : TokenKind) (msg : String) → Reads n 0 (expect k msg)
unfolding expect
Reads-expect k msg = record {
  at = λ p l.
      Ends-list p.rest (λ e. faults)
        λ t ts e.
          let k' = length-next p e in
          let k'' = length-next (with_error p t (expected msg t.kind)) e in
          Ends-if (kind_eq t.kind k) (λ h. ends (omega (arith, k')))
            λ h.
              Ends-if (kind_eq t.kind tok_eof) (λ g. ends (omega arith))
                λ g. ends (omega (arith, k''));
}

pub Enters-expect : {n : ℕ} (k : TokenKind) (msg : String) → Enters n (expect k msg)
unfolding expect at_eof
Enters-expect k msg = record {
  at = λ p l not_eof.
      Ends-list p.rest (λ e. faults)
        λ t ts e.
          let k' = length-next p e in
          let k'' = length-next (with_error p t (expected msg t.kind)) e in
          let other : kind_eq t.kind tok_eof ≡ false = rw e at not_eof in
          Ends-if (kind_eq t.kind k) (λ h. ends (omega (arith, k')))
            λ h. Ends-if (kind_eq t.kind tok_eof) (λ g. cc) λ g. ends (omega (arith, k''));
}

module _ {ℓ} {A : Type ℓ} where
  pub Enters-Reads : {n : ℕ} {m : Parse A} → Reads n 1 m → Enters n m
  Enters-Reads h = record { at = λ p l e. h.at p l }

  pub Enters-le : {i n : ℕ} {m : Parse A} → i ≤ n → Enters n m → Enters i m
  Enters-le h k = record { at = λ p l e. k.at p (omega (arith, l, h)) e }

  pub Reads-if_match :
      {n d : ℕ} (k : TokenKind) {x y : Parse A}
      → Reads n d x
      → Reads n d y
      → Reads n d (if_match k x y)
  unfolding if_match
  Reads-if_match k h g = record {
    at = λ p l.
        Ends-list p.rest (λ e. faults)
          λ t ts e.
            let k' = length-next p e in
            Ends-if (kind_eq t.kind k)
              (λ i.
                Ends-map (λ q j. omega (arith, j, k')) (h.at (next_pos p) (omega (arith, k', l))))
              (λ i. g.at p l);
  }

  pub Reads-if_match_strict :
      {n d : ℕ} (k : TokenKind) {x y : Parse A}
      → d ≤ 1
      → Reads n 0 x
      → Reads (suc n) d y
      → Reads (suc n) d (if_match k x y)
  unfolding if_match
  Reads-if_match_strict k b h g = record {
    at = λ p l.
        Ends-list p.rest (λ e. faults)
          λ t ts e.
            let k' = length-next p e in
            Ends-if (kind_eq t.kind k)
              (λ i.
                Ends-map (λ q j. omega (arith, j, k', b))
                  (h.at (next_pos p) (omega (arith, k', l))))
              (λ i. g.at p l);
  }

  pub Reads-if_match_pass :
      {n : ℕ} (k : TokenKind) {x y : Parse A}
      → Reads n 0 x
      → Reads (suc n) 1 y
      → Reads (suc n) 1 (if_match k x y)
  Reads-if_match_pass k h g = Reads-if_match_strict k (omega arith) h g

  pub Reads-if_match_drop :
      {n : ℕ} (k : TokenKind) {x y : Parse A}
      → Reads n 0 x
      → Reads (suc n) 0 y
      → Reads (suc n) 0 (if_match k x y)
  Reads-if_match_drop k h g = Reads-if_match_strict k (omega arith) h g

  pub Enters-if_match :
      {n : ℕ} (k : TokenKind) {x y : Parse A} → Reads n 0 x → Enters n y → Enters n (if_match k x y)
  unfolding if_match
  Enters-if_match k h g = record {
    at = λ p l z.
        Ends-list p.rest (λ e. faults)
          λ t ts e.
            let k' = length-next p e in
            Ends-if (kind_eq t.kind k)
              (λ i.
                Ends-map (λ q j. omega (arith, j, k')) (h.at (next_pos p) (omega (arith, k', l))))
              (λ i. g.at p l z);
  }

  pub Reads-unless_closed :
      {n : ℕ} (k : TokenKind) {x y : Parse A}
      → Enters n x
      → Reads n 0 y
      → Reads n 0 (unless_closed k x y)
  unfolding unless_closed at_eof
  Reads-unless_closed k h g = record {
    at = λ p l.
        Ends-list p.rest (λ e. faults)
          λ t ts e.
            Ends-if (kind_eq t.kind k || kind_eq t.kind tok_eof) (λ i. g.at p l)
              λ i. Ends-map (λ q j. omega (arith, j)) (h.at p l (rw e (ground (arith, i))));
  }

module _ {ℓ κ} {A : Type ℓ} {B : Type κ} where
  pub Enters-bind :
      {n : ℕ} (m : Parse A) (f : A → Parse B)
      → Enters n m
      → ((a : A) → Reads n 0 (f a))
      → Enters n (m >>= f)
  unfolding ◌>>=◌
  Enters-bind m f h k = record {
    at = λ p l z.
        continue-Ends f (h.at p l z)
          λ a q e. Ends-map (λ r g. omega (arith, e, g)) ((k a).at q (omega (arith, e, l)));
  }

  pub Enters-bind_strict :
      {n : ℕ} (m : Parse A) (f : A → Parse B)
      → Enters (suc n) m
      → ((a : A) → Reads n 0 (f a))
      → Enters (suc n) (m >>= f)
  unfolding ◌>>=◌
  Enters-bind_strict m f h k = record {
    at = λ p l z.
        continue-Ends f (h.at p l z)
          λ a q e. Ends-map (λ r g. omega (arith, e, g)) ((k a).at q (omega (arith, e, l)));
  }

  pub Enters-then :
      {n : ℕ} {m : Parse A} {x : Parse B} → Enters n m → Reads n 0 x → Enters n (m >> x)
  unfolding ◌>>◌
  Enters-then h k = Enters-bind _ _ h λ _. k
