-- ===== src/Parser/Gives.antt =====
-- What holds of the result of a parse, where it gives one.
pub mod Rules
pub mod Steps
use apex_forge_night_script.Base.{
  ℕ, zero, suc, ◌≡◌, refl, subst, Bool, true, false, ◌||◌, Option, none, some, case_option, List,
  [], ◌∷◌, if◌then◌else◌, case_list,
}
use apex_forge_night_script.Token.{TokenKind, kind_eq, kind_number, tok_eof}
use apex_forge_night_script.Parser.State.{
  Parser, Outcome, Parse, done, fault, out_of_fuel, continue, pure, no_fuel, ◌>>=◌, unless_closed,
  until_loop, until_closed, rounds,
}

done-injective {ℓ} : {A : Type ℓ} {a b : A} {p q : Parser} → done a p ≡ done b q → (a ≡ b) × (p ≡ q)
done-injective e = (cc, cc)

pub data Holds {ℓ} {A : Type ℓ} (Q : A → Parser → Type 0) : Outcome A → Type ℓ where
  holds : {a : A} {p : Parser} → Q a p → Holds Q (done a p)
  faults : Holds Q fault
  exhausts : Holds Q out_of_fuel

module _ {ℓ} {A : Type ℓ} {Q : A → Parser → Type 0} where
  pub Holds-done : {r : Outcome A} {a : A} {p : Parser} → Holds Q r → r ≡ done a p → Q a p
  Holds-done {p = r} (holds {a = b} {p = q} h) e =
      let same = done-injective e in subst (λ c. Q c r) same.0 (subst (Q b) same.1 h)
  Holds-done faults e = cc
  Holds-done exhausts e = cc

  pub Holds-list {κ} :
      {B : Type κ} (xs : List B) {r : Outcome A} {f : B → List B → Outcome A}
      → (xs ≡ [] → Holds Q r)
      → ((x : B) (ys : List B) → xs ≡ x ∷ ys → Holds Q (f x ys))
      → Holds Q (case_list xs r f)
  Holds-list [] h k = h refl
  Holds-list (x ∷ xs) h k = k x xs refl

  pub Holds-option {κ} :
      {B : Type κ} (o : Option B) {r : Outcome A} {f : B → Outcome A}
      → Holds Q r
      → ((x : B) → Holds Q (f x))
      → Holds Q (case_option o r f)
  Holds-option none h k = h
  Holds-option (some x) h k = k x

  pub Holds-if :
      (b : Bool) {r t : Outcome A}
      → (b ≡ true → Holds Q r)
      → (b ≡ false → Holds Q t)
      → Holds Q (if b then r else t)
  Holds-if true h k = h refl
  Holds-if false h k = k refl

pub Holds-any {ℓ} : {A : Type ℓ} (r : Outcome A) → Holds (λ a q. Unit) r
Holds-any (done a p) = holds tt
Holds-any fault = faults
Holds-any out_of_fuel = exhausts

module _ {ℓ} {A : Type ℓ} {P Q : A → Parser → Type 0} where
  pub Holds-map : {r : Outcome A} → ((a : A) (p : Parser) → P a p → Q a p) → Holds P r → Holds Q r
  Holds-map f (holds {a} {p} h) = holds (f a p h)
  Holds-map f faults = faults
  Holds-map f exhausts = exhausts

module _ {ℓ κ} {A : Type ℓ} {B : Type κ} {P : A → Parser → Type 0} {Q : B → Parser → Type 0} where
  pub continue-Holds :
      {r : Outcome A} (f : A → Parse B)
      → Holds P r
      → ((a : A) (q : Parser) → P a q → Holds Q (f a q))
      → Holds Q (continue r f)
  continue-Holds f (holds {a} {p} h) k = k a p h
  continue-Holds f faults k = faults
  continue-Holds f exhausts k = exhausts

pub bind-Holds {ℓ κ} :
    {A : Type ℓ} {B : Type κ} {Q : B → Parser → Type 0} (m : Parse A) (f : A → Parse B) (p : Parser)
    → ((a : A) (q : Parser) → Holds Q (f a q))
    → Holds Q ((m >>= f) p)
unfolding ◌>>=◌
bind-Holds m f p k = continue-Holds f (Holds-any (m p)) λ a q _. k a q

-- The loops end in front of the closing token or the end token.
abbrev pub closed_by : TokenKind → Parser → Bool
unfolding kind_number
closed_by k p = case_list p.rest false λ t ts. kind_eq t.kind k || kind_eq t.kind tok_eof

module _ {ℓ} {A : Type ℓ} where
  until_loop-closed :
      (fuel : ℕ) (k : TokenKind) (m : Parse A) (p : Parser)
      → Holds (λ xs q. closed_by k q ≡ true) (until_loop fuel k m p)
  unfolding until_loop unless_closed no_fuel pure ◌>>=◌
  until_loop-closed zero k m p = exhausts
  until_loop-closed (suc fuel) k m p =
      Holds-list p.rest (λ e. faults)
        λ t ts e.
          Holds-if (kind_eq t.kind k || kind_eq t.kind tok_eof) (λ h. holds (rw e h))
            λ h.
              continue-Holds _ (Holds-any (m p))
                λ x q g. continue-Holds _ (until_loop-closed fuel k m q) λ xs r c. holds c

  pub until_closed-closed :
      (k : TokenKind) (m : Parse A) (p : Parser)
      → Holds (λ xs q. closed_by k q ≡ true) (until_closed k m p)
  unfolding until_closed rounds
  until_closed-closed k m p = until_loop-closed _ k m p
