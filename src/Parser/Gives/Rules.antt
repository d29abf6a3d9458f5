-- ===== src/Parser/Gives/Rules.antt =====
-- What a parse of the source `s` gives: a value with `P`, and a state that is still on `s`.
use apex_forge_night_script.Base.{
  ℕ, ◌≡◌, Bool, true, false, Option, none, some, List, [], ◌∷◌, Bytes, if◌then◌else◌, case_option,
}
use apex_forge_night_script.Token.{TokenKind, kind_eq}
use apex_forge_night_script.Parser.State.{
  Parser, Parse, pure, no_fuel, bad_read, rounds, ◌>>=◌, ◌>>◌, next_pos, if_match, if_match_any,
  unless_closed,
}
use apex_forge_night_script.Parser.Gives.{
  Holds, holds, faults, exhausts, Holds-list, Holds-if, Holds-map, continue-Holds,
}

pub record Gives {ℓ} {A : Type ℓ} (s : Bytes) (P : A → Type 0) (m : Parse A) : Type ℓ where
  pub at : (p : Parser) → p.src ≡ s → Holds (λ a q. P a × (q.src ≡ s)) (m p)

-- The parse keeps to its source, whatever it gives.
abbrev pub Keeps {ℓ} : {A : Type ℓ} → Bytes → Parse A → Type ℓ
Keeps s m = Gives s (λ a. Unit {0}) m

module _ {ℓ} {A : Type ℓ} {s : Bytes} where
  pub Gives-map :
      {P Q : A → Type 0} {m : Parse A} → ((a : A) → P a → Q a) → Gives s P m → Gives s Q m
  Gives-map f h = record { at = λ p e. Holds-map (λ a q g. (f a g.0, g.1)) (h.at p e) }

  pub Gives-pure : {P : A → Type 0} (a : A) → P a → Gives s P (pure a)
  unfolding pure
  Gives-pure a h = record { at = λ p e. holds (h, e) }

  pub Keeps-pure : (a : A) → Keeps s (pure a)
  Keeps-pure a = Gives-pure a tt

  pub Gives-no_fuel : {P : A → Type 0} → Gives s P (no_fuel {A = A})
  unfolding no_fuel
  Gives-no_fuel = record { at = λ p e. exhausts }

  pub Gives-bad_read : {P : A → Type 0} → Gives s P (bad_read {A = A})
  unfolding bad_read
  Gives-bad_read = record { at = λ p e. faults }

  pub Gives-rounds :
      {P : A → Type 0} (m : ℕ → Parse A) → ((i : ℕ) → Gives s P (m i)) → Gives s P (rounds m)
  unfolding rounds
  Gives-rounds m h = record { at = λ p e. (h _).at p e }

  module _ {P : A → Type 0} where
    pub Gives-if :
        (b : Bool) {x y : Parse A} → Gives s P x → Gives s P y → Gives s P (if b then x else y)
    Gives-if true h k = h
    Gives-if false h k = k

    pub Gives-option {κ} :
        {B : Type κ} (o : Option B) {x : Parse A} {f : B → Parse A}
        → Gives s P x
        → ((b : B) → Gives s P (f b))
        → Gives s P (case_option o x f)
    Gives-option none h k = h
    Gives-option (some b) h k = k b

    pub Gives-if_match :
        (k : TokenKind) {x y : Parse A} → Gives s P x → Gives s P y → Gives s P (if_match k x y)
    unfolding if_match
    Gives-if_match k h g = record {
      at = λ p e.
          Holds-list p.rest (λ _. faults)
            λ t ts i. Holds-if (kind_eq t.kind k) (λ _. h.at (next_pos p) e) λ _. g.at p e;
    }

    pub Gives-if_match_any :
        (ks : List TokenKind) {x y : Parse A}
        → Gives s P x
        → Gives s P y
        → Gives s P (if_match_any ks x y)
    unfolding if_match_any
    Gives-if_match_any [] h g = g
    Gives-if_match_any (k ∷ ks) h g = Gives-if_match k h (Gives-if_match_any ks h g)

    pub Gives-unless_closed :
        (k : TokenKind) {x y : Parse A}
        → Gives s P x
        → Gives s P y
        → Gives s P (unless_closed k x y)
    unfolding unless_closed
    Gives-unless_closed k h g = record {
      at =
          λ p e. Holds-list p.rest (λ _. faults) λ t ts i. Holds-if _ (λ _. g.at p e) λ _. h.at p e;
    }

module _ {ℓ κ} {A : Type ℓ} {B : Type κ} {s : Bytes} where
  pub Gives-bind :
      {P : A → Type 0} {Q : B → Type 0} (m : Parse A) (f : A → Parse B)
      → Gives s P m
      → ((a : A) → P a → Gives s Q (f a))
      → Gives s Q (m >>= f)
  unfolding ◌>>=◌
  Gives-bind m f h k = record {
    at = λ p e. continue-Holds f (h.at p e) λ a q g. (k a g.0).at q g.1;
  }

  pub Gives-after :
      {Q : B → Type 0} (m : Parse A) (f : A → Parse B)
      → Keeps s m
      → ((a : A) → Gives s Q (f a))
      → Gives s Q (m >>= f)
  Gives-after m f h k = Gives-bind m f h λ a _. k a

  pub Gives-then :
      {Q : B → Type 0} {m : Parse A} {x : Parse B} → Keeps s m → Gives s Q x → Gives s Q (m >> x)
  unfolding ◌>>◌
  Gives-then h k = Gives-after _ _ h λ _. k
