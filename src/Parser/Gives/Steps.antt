-- ===== src/Parser/Gives/Steps.antt =====
-- The one-token steps and the loops keep to their source: compiler/src/parser/parser.c, lines 21-105.
use apex_forge_night_script.Base.{
  ℕ, zero, suc, Bool, true, false, none, some, [], ◌∷◌, Bytes, String,
}
use apex_forge_night_script.Token.{TokenKind, Token, kind_eq, tok_eof, tok_ident}
use apex_forge_night_script.Parser.State.{
  Parse, cur, prev, skip_token, in_array, ahead, check, match_kind, unless, report, expect, intern,
  expect_path_token, is_path_token, ParseMessage, until_loop, until_closed, separated_loop,
  separated,
}
use apex_forge_night_script.Parser.Gives.{holds, faults, Holds-list, Holds-if, Holds-option}
use apex_forge_night_script.Parser.Gives.Rules.{
  Gives, Keeps, Keeps-pure, Gives-no_fuel, Gives-bad_read, Gives-rounds, Gives-if, Gives-option,
  Gives-if_match, Gives-if_match_any, Gives-unless_closed, Gives-after, Gives-then,
}

module _ {s : Bytes} where
  pub Keeps-cur : Keeps s cur
  unfolding cur
  Keeps-cur = record { at = λ p e. Holds-list p.rest (λ _. faults) λ t ts _. holds (tt, e) }

  pub Keeps-prev : Keeps s prev
  unfolding prev
  Keeps-prev = record { at = λ p e. Holds-option p.last faults λ t. holds (tt, e) }

  pub Keeps-skip_token : Keeps s skip_token
  unfolding skip_token
  Keeps-skip_token = record { at = λ p e. Holds-list p.rest (λ _. faults) λ t ts _. holds (tt, e) }

  pub Keeps-in_array : Keeps s in_array
  unfolding in_array
  Keeps-in_array = record {
    at = λ p e. Holds-list p.rest (λ _. holds (tt, e)) λ t ts _. holds (tt, e);
  }

  pub Keeps-ahead : Keeps s ahead
  unfolding ahead
  Keeps-ahead = record { at = λ p e. holds (tt, e) }

  pub Keeps-check : (k : TokenKind) → Keeps s (check k)
  unfolding check
  Keeps-check k = record { at = λ p e. Holds-list p.rest (λ _. faults) λ t ts _. holds (tt, e) }

  pub Keeps-report : (t : Token) (m : ParseMessage) → Keeps s (report t m)
  unfolding report
  Keeps-report t m = record { at = λ p e. holds (tt, e) }

  pub Keeps-intern : (t : Token) → Keeps s (intern t)
  unfolding intern
  Keeps-intern t = record { at = λ p e. holds (tt, e) }

  pub Keeps-expect : (k : TokenKind) (msg : String) → Keeps s (expect k msg)
  unfolding expect
  Keeps-expect k msg = record {
    at = λ p e.
        Holds-list p.rest (λ _. faults)
          λ t ts _.
            Holds-if (kind_eq t.kind k) (λ _. holds (tt, e))
              λ _. Holds-if (kind_eq t.kind tok_eof) (λ _. holds (tt, e)) λ _. holds (tt, e);
  }

  pub Keeps-expect_path_token : (msg : String) (b : Bool) → Keeps s (expect_path_token msg b)
  unfolding expect_path_token
  Keeps-expect_path_token msg b = Gives-after _ _ Keeps-cur λ t.
      Gives-if (is_path_token t.kind b) (Gives-then Keeps-skip_token (Keeps-pure t))
        (Keeps-expect tok_ident msg)

  pub Keeps-match_kind : (k : TokenKind) → Keeps s (match_kind k)
  unfolding match_kind
  Keeps-match_kind k = Gives-if_match k (Keeps-pure true) (Keeps-pure false)

module _ {ℓ} {A : Type ℓ} {s : Bytes} where
  pub Keeps-unless : (k : TokenKind) {m : Parse A} → Keeps s m → Keeps s (unless k m)
  unfolding unless
  Keeps-unless k h =
      Gives-after _ _ (Keeps-check k)
        λ closed. Gives-if closed (Keeps-pure none) (Gives-after _ _ h λ a. Keeps-pure (some a))

  until_loop-Keeps : (i : ℕ) (k : TokenKind) (m : Parse A) → Keeps s m → Keeps s (until_loop i k m)
  unfolding until_loop
  until_loop-Keeps zero k m h = Gives-no_fuel
  until_loop-Keeps (suc i) k m h =
      Gives-unless_closed k
        (Gives-after _ _ h
          λ x. Gives-after _ _ (until_loop-Keeps i k m h) λ xs. Keeps-pure (x ∷ xs))
        (Keeps-pure [])

  pub Keeps-until_closed : (k : TokenKind) {m : Parse A} → Keeps s m → Keeps s (until_closed k m)
  unfolding until_closed
  Keeps-until_closed k {m} h = Gives-rounds _ λ i. until_loop-Keeps i k m h

  separated_loop-Keeps :
      (i : ℕ) (k : TokenKind) (m : Parse A) → Keeps s m → Keeps s (separated_loop i k m)
  unfolding separated_loop
  separated_loop-Keeps zero k m h = Gives-no_fuel
  separated_loop-Keeps (suc i) k m h = Gives-after _ _ h λ x.
      Gives-if_match k (Gives-after _ _ (separated_loop-Keeps i k m h) λ xs. Keeps-pure (x ∷ xs))
        (Keeps-pure (x ∷ []))

  pub Keeps-separated : (k : TokenKind) {m : Parse A} → Keeps s m → Keeps s (separated k m)
  unfolding separated
  Keeps-separated k {m} h = Gives-rounds _ λ i. separated_loop-Keeps i k m h

-- The rules that `search` walks a block with.
pub ruleset keeps_rules = (
  Gives-after, Gives-then, Keeps-pure, Gives-no_fuel, Gives-bad_read, Gives-rounds, Gives-if,
  Gives-option, Gives-if_match, Gives-if_match_any, Gives-unless_closed, Keeps-cur, Keeps-prev,
  Keeps-skip_token, Keeps-in_array, Keeps-ahead, Keeps-check, Keeps-report, Keeps-intern,
  Keeps-expect, Keeps-expect_path_token, Keeps-match_kind, Keeps-unless, Keeps-until_closed,
  Keeps-separated,
)
