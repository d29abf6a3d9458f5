-- ===== src/Typeck/Check/Answers.antt =====
-- What an answer of a composed check says of its parts.
use apex_forge_night_script.Base.{◌≡◌, refl, ap, List}
use apex_forge_night_script.Typeck.Check.{
  TypeError, CheckRun, ran, exhausted, Check, answer, ◌>>=◌, go_on,
}

module _ {ℓ} {A : Type ℓ} where
  pub ran-injective : {a b : A} {es fs : List TypeError} → ran a es ≡ ran b fs → (a ≡ b) × (es ≡ fs)
  ran-injective h = (cc, cc)

  pub answer-ran : {a b : A} {es fs : List TypeError} → answer a es ≡ ran b fs → (a ≡ b) × (es ≡ fs)
  unfolding answer
  answer-ran h = ran-injective h

-- The first part answers, and the second goes on from there.
pub record Steps {ℓ κ} {A : Type ℓ} {B : Type κ} (r : CheckRun A) (f : A → Check B) (s : CheckRun B)
    : Type (ℓ ⊔ κ) where
  pub value : A
  pub errors : List TypeError
  pub first : r ≡ ran value errors
  pub second : f value errors ≡ s

module _ {ℓ κ} {A : Type ℓ} {B : Type κ} where
  go_on-ran :
      (r : CheckRun A) (f : A → Check B) {b : B} {es : List TypeError}
      → go_on r f ≡ ran b es
      → Steps r f (ran b es)
  go_on-ran (ran a fs) f h = record { value = a; errors = fs; first = refl; second = h }
  go_on-ran exhausted f h = cc

  pub bind-ran :
      (m : Check A) (f : A → Check B) {es : List TypeError} {b : B} {fs : List TypeError}
      → (m >>= f) es ≡ ran b fs
      → Steps (m es) f (ran b fs)
  unfolding ◌>>=◌
  bind-ran m f h = go_on-ran (m _) f h

  pub bind-answer :
      (m : Check A) (f : A → Check B) {es fs : List TypeError} {a : A}
      → m es ≡ ran a fs
      → (m >>= f) es ≡ f a fs
  unfolding ◌>>=◌
  bind-answer m f {fs} {a} h = ap (λ r. go_on r f) h
