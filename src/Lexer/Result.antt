-- ===== src/Lexer/Result.antt =====
-- What a run of the lexer returns: a value, one of the errors that compiler/src/lexer/lexer.c
-- prints with its line and column, or `out_of_fuel`, which the code has no counterpart of.
use apex_forge_night_script.Base.{
  ℕ, ◌≡◌, ◌≢◌, refl, subst, case_option, Option, none, some, Bool, true, false, if◌then◌else◌,
}

pub data LexError : Type 0 where
  unknown_escape : ℕ → LexError
  unterminated_string : LexError
  unterminated_character : LexError
  not_one_character : LexError
  unexpected_character : ℕ → LexError

pub data Result {ℓ} (A : Type ℓ) : Type ℓ where
  ok : A → Result A
  err : LexError → ℕ → ℕ → Result A
  out_of_fuel : Result A

infixl 5 ◌>>=◌
abbrev pub ◌>>=◌ {ℓ κ} : {A : Type ℓ} {B : Type κ} → Result A → (A → Result B) → Result B
ok a >>= f = f a
err e l c >>= f = err e l c
out_of_fuel >>= f = out_of_fuel

-- The run kept within its fuel, and `P` holds of what it returned, if it returned a value.
pub data Yields {ℓ κ} {A : Type ℓ} (P : A → Type κ) : Result A → Type (ℓ ⊔ κ) where
  value : {a : A} → P a → Yields P (ok a)
  error : {e : LexError} {l c : ℕ} → Yields P (err e l c)

module _ {ℓ κ} {A : Type ℓ} {P : A → Type κ} where
  pub Yields-ok : {r : Result A} {a : A} → Yields P r → r ≡ ok a → P a
  Yields-ok (value h) e = subst P (cc e) h
  Yields-ok error e = cc

  pub Yields-out_of_fuel : {r : Result A} → Yields P r → r ≢ out_of_fuel
  Yields-out_of_fuel (value h) = cc
  Yields-out_of_fuel error = cc

  pub Yields-if :
      (b : Bool) {x y : Result A}
      → (b ≡ true → Yields P x)
      → (b ≡ false → Yields P y)
      → Yields P (if b then x else y)
  Yields-if true hx hy = hx refl
  Yields-if false hx hy = hy refl

  pub Yields-option {ℓ'} :
      {B : Type ℓ'} (o : Option B) {x : Result A} {f : B → Result A}
      → (o ≡ none → Yields P x)
      → ((b : B) → o ≡ some b → Yields P (f b))
      → Yields P (case_option o x f)
  Yields-option none hx hf = hx refl
  Yields-option (some b) hx hf = hf b refl

  pub Yields-bind {ℓ' κ'} :
      {B : Type ℓ'} {Q : B → Type κ'} {r : Result A} {f : A → Result B}
      → Yields P r
      → ((a : A) → P a → Yields Q (f a))
      → Yields Q (r >>= f)
  Yields-bind (value {a} h) k = k a h
  Yields-bind error k = error

  pub Yields-map {κ'} :
      {Q : A → Type κ'} {r : Result A} → ((a : A) → P a → Q a) → Yields P r → Yields Q r
  Yields-map k (value {a} h) = value (k a h)
  Yields-map k error = error
