-- ===== src/Parser/Reads/Core.antt =====
-- How far a parse moves, and the rules for its composition. `Reads n d m`: from any state with fewer
-- than `n` tokens left, `m` keeps within its fuel and leaves a state with at least `d` tokens fewer, if
-- it leaves one.
use apex_forge_night_script.Base.{
  ℕ, suc, ◌+◌, ◌≤◌, ◌<◌, ◌≡◌, ◌≢◌, refl, Bool, true, false, Option, none, some, List, [], ◌∷◌,
  if◌then◌else◌, arith, case_list, case_option,
}
use apex_forge_night_script.Parser.State.{
  Parser, Outcome, Parse, done, fault, out_of_fuel, left, continue, pure, bad_read, rounds, ◌>>=◌,
  ◌>>◌,
}

pub data Ends {ℓ} {A : Type ℓ} (P : Parser → Type 0) : Outcome A → Type ℓ where
  ends : {a : A} {p : Parser} → P p → Ends P (done a p)
  faults : Ends P fault

pub record Reads {ℓ} {A : Type ℓ} (n d : ℕ) (m : Parse A) : Type ℓ where
  pub at : (p : Parser) → left p < n → Ends (λ q. left q + d ≤ left p) (m p)

module _ {ℓ} {A : Type ℓ} {P : Parser → Type 0} where
  pub Ends-map :
      {Q : Parser → Type 0} {r : Outcome A} → ((p : Parser) → P p → Q p) → Ends P r → Ends Q r
  Ends-map f (ends {p} h) = ends (f p h)
  Ends-map f faults = faults

  pub Ends-out_of_fuel : {r : Outcome A} → Ends P r → r ≢ out_of_fuel
  Ends-out_of_fuel (ends h) = cc
  Ends-out_of_fuel faults = cc

module _ {ℓ} {A : Type ℓ} {P : Parser → Type 0} where
  pub Ends-list {κ} :
      {B : Type κ} (xs : List B) {r : Outcome A} {f : B → List B → Outcome A}
      → (xs ≡ [] → Ends P r)
      → ((x : B) (ys : List B) → xs ≡ x ∷ ys → Ends P (f x ys))
      → Ends P (case_list xs r f)
  Ends-list [] h k = h refl
  Ends-list (x ∷ xs) h k = k x xs refl

  pub Ends-option {κ} :
      {B : Type κ} (o : Option B) {r : Outcome A} {f : B → Outcome A}
      → Ends P r
      → ((x : B) → Ends P (f x))
      → Ends P (case_option o r f)
  Ends-option none h k = h
  Ends-option (some x) h k = k x

  pub Ends-if :
      (b : Bool) {r t : Outcome A}
      → (b ≡ true → Ends P r)
      → (b ≡ false → Ends P t)
      → Ends P (if b then r else t)
  Ends-if true h k = h refl
  Ends-if false h k = k refl

module _ {ℓ κ} {A : Type ℓ} {B : Type κ} {P Q : Parser → Type 0} where
  pub continue-Ends :
      {r : Outcome A} (f : A → Parse B)
      → Ends P r
      → ((a : A) (q : Parser) → P q → Ends Q (f a q))
      → Ends Q (continue r f)
  continue-Ends f (ends {a} {p} h) k = k a p h
  continue-Ends f faults k = faults

module _ {ℓ} {A : Type ℓ} where
  pub Reads-weaken : {n : ℕ} {m : Parse A} → Reads n 1 m → Reads n 0 m
  Reads-weaken h = record { at = λ p l. Ends-map (λ q e. omega (arith, e)) (h.at p l) }

module _ {ℓ κ} {A : Type ℓ} {B : Type κ} where
  pub Reads-bind :
      {n d : ℕ} (m : Parse A) (f : A → Parse B)
      → Reads n 0 m
      → ((a : A) → Reads n d (f a))
      → Reads n d (m >>= f)
  unfolding ◌>>=◌
  Reads-bind m f h k = record {
    at = λ p l.
        continue-Ends f (h.at p l)
          λ a q e. Ends-map (λ r g. omega (arith, e, g)) ((k a).at q (omega (arith, e, l)));
  }

  pub Reads-bind_strict :
      {n : ℕ} (m : Parse A) (f : A → Parse B)
      → Reads (suc n) 1 m
      → ((a : A) → Reads n 0 (f a))
      → Reads (suc n) 1 (m >>= f)
  unfolding ◌>>=◌
  Reads-bind_strict m f h k = record {
    at = λ p l.
        continue-Ends f (h.at p l)
          λ a q e. Ends-map (λ r g. omega (arith, e, g)) ((k a).at q (omega (arith, e, l)));
  }

  pub Reads-bind_drop :
      {n : ℕ} (m : Parse A) (f : A → Parse B)
      → Reads (suc n) 1 m
      → ((a : A) → Reads n 0 (f a))
      → Reads (suc n) 0 (m >>= f)
  Reads-bind_drop m f h k = Reads-weaken (Reads-bind_strict m f h k)

  pub Reads-then :
      {n d : ℕ} {m : Parse A} {x : Parse B} → Reads n 0 m → Reads n d x → Reads n d (m >> x)
  unfolding ◌>>◌
  Reads-then h k = Reads-bind _ _ h λ _. k

  pub Reads-then_strict :
      {n : ℕ} {m : Parse A} {x : Parse B}
      → Reads (suc n) 1 m
      → Reads n 0 x
      → Reads (suc n) 1 (m >> x)
  unfolding ◌>>◌
  Reads-then_strict h k = Reads-bind_strict _ _ h λ _. k

  pub Reads-then_drop :
      {n : ℕ} {m : Parse A} {x : Parse B}
      → Reads (suc n) 1 m
      → Reads n 0 x
      → Reads (suc n) 0 (m >> x)
  Reads-then_drop h k = Reads-weaken (Reads-then_strict h k)

module _ {ℓ} {A : Type ℓ} where
  pub Reads-le : {i n d : ℕ} {m : Parse A} → i ≤ n → Reads n d m → Reads i d m
  Reads-le e h = record { at = λ p l. h.at p (omega (arith, e, l)) }

  pub Reads-pure : {n : ℕ} (a : A) → Reads n 0 (pure a)
  unfolding pure
  Reads-pure a = record { at = λ p l. ends (omega arith) }

  pub Reads-bad_read : {n d : ℕ} → Reads n d (bad_read {A = A})
  unfolding bad_read
  Reads-bad_read = record { at = λ p l. faults }

  pub Reads-if :
      {n d : ℕ} (b : Bool) {x y : Parse A}
      → Reads n d x
      → Reads n d y
      → Reads n d (if b then x else y)
  Reads-if true h k = h
  Reads-if false h k = k

  pub Reads-option {κ} :
      {B : Type κ} {n d : ℕ} (o : Option B) {x : Parse A} {f : B → Parse A}
      → Reads n d x
      → ((b : B) → Reads n d (f b))
      → Reads n d (case_option o x f)
  Reads-option none h k = h
  Reads-option (some b) h k = k b

  pub Reads-rounds :
      {n : ℕ} (m : ℕ → Parse A) → ((i : ℕ) → i ≤ n → Reads i 0 (m i)) → Reads n 0 (rounds m)
  unfolding rounds
  Reads-rounds m h = record { at = λ p l. (h (left p + 1) (omega (arith, l))).at p (omega arith) }

module _ {ℓ κ} {A : Type ℓ} {B : Type κ} where
  pub Reads-bind_first :
      {n : ℕ} (m : Parse A) (f : A → Parse B)
      → Reads n 1 m
      → ((a : A) → Reads n 0 (f a))
      → Reads n 1 (m >>= f)
  unfolding ◌>>=◌
  Reads-bind_first m f h k = record {
    at = λ p l.
        continue-Ends f (h.at p l)
          λ a q e. Ends-map (λ r g. omega (arith, e, g)) ((k a).at q (omega (arith, e, l)));
  }

  pub Reads-then_first :
      {n : ℕ} {m : Parse A} {x : Parse B} → Reads n 1 m → Reads n 0 x → Reads n 1 (m >> x)
  unfolding ◌>>◌
  Reads-then_first h k = Reads-bind_first _ _ h λ _. k
