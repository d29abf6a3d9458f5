-- ===== src/Lexer/Numbers.antt =====
-- The value of a number: its digits in the base, without the underscores, modulo 2 ^ 64.
use apex_forge_night_script.Base.{
  ℕ, ◌+◌, ◌*◌, ◌/◌, ◌-◌, ◌%◌, ◌<◌, ◌≡◌, refl, ◌∙◌, sym, ap, Bool, true, false, ◌||◌, [], ◌∷◌, Bytes,
  ◌==◌, Option, none, some, case_option, codes, subst, if◌then◌else◌, Bool-cases, inl, inr, arith,
}
use native.Mathlib.Nat.{mod-eq_of_lt, mod-mod, div-add-mod, add-mul-mod_self_right}
use apex_forge_night_script.Token.{int_val, tok_int}
use apex_forge_night_script.Lexer.Cursor.{Lexer, advance}
use apex_forge_night_script.Lexer.Literals.{
  digits_loop, word64, lex_hex, lex_decimal, lex_fraction, lex_exponent, is_digit, is_hex,
  hex_value, hex_digit, digit_or,
}

-- The longest prefix of digits and underscores.
abbrev pub digit_run : (ℕ → Bool) → Bytes → Bytes
digit_run test [] = []
digit_run test (c ∷ cs) = if test c || c == b'_' then c ∷ digit_run test cs else []

-- The number that the digits spell from the left, at any size.
abbrev pub numeral : ℕ → (ℕ → ℕ) → Bytes → ℕ → ℕ
numeral base value [] acc = acc
numeral base value (c ∷ cs) acc =
    numeral base value cs (if c == b'_' then acc else acc * base + value c)

mod-drop : (q r base d m : ℕ) → ((m * q + r) * base + d) % m ≡ (r * base + d) % m
mod-drop q r base d m =
    let e : (m * q + r) * base + d ≡ r * base + d + q * base * m = omega arith in
    rw e (add-mul-mod_self_right (r * base + d) (q * base) m)

mod-mul-add : (a base d m : ℕ) → (a * base + d) % m ≡ (a % m * base + d) % m
mod-mul-add a base d m =
    ap (λ (t : ℕ). (t * base + d) % m) (sym (div-add-mod a m)) ∙ mod-drop (a / m) (a % m) base d m

mod-step : (a b base d m : ℕ) → a % m ≡ b % m → (a * base + d) % m ≡ (b * base + d) % m
mod-step a b base d m h =
    mod-mul-add a base d m ∙ (ap (λ (t : ℕ). (t * base + d) % m) h ∙ sym (mod-mul-add b base d m))

-- Reducing on the way changes nothing modulo `m`.
numeral-mod :
    (base : ℕ) (value : ℕ → ℕ) (m : ℕ) (cs : Bytes) (a b : ℕ)
    → a % m ≡ b % m
    → numeral base value cs a % m ≡ numeral base value cs b % m
numeral-mod base value m [] a b h = h
numeral-mod base value m (c ∷ cs) a b h = elim (Bool-cases (c == b'_')) [
  | inl t ↦ rw t (numeral-mod base value m cs a b h)
  | inr t ↦ rw t (
      numeral-mod base value m cs (a * base + value c) (b * base + value c)
        (mod-step a b base (value c) m h))
]

step_lt : (b : Bool) (acc x : ℕ) → acc < word64 → (if b then acc else x % word64) < word64
step_lt true acc x h = h
step_lt false acc x h = omega arith

step-mod :
    (b : Bool) (acc x : ℕ)
    → (if b then acc else x % word64) % word64 ≡ (if b then acc else x) % word64
step-mod true acc x = refl
step-mod false acc x = mod-mod x word64

-- The loop's value is that of the run of digits, modulo 2 ^ 64; so it is exact for a number that
-- fits in 64 bits.
pub digits_loop-numeral :
    (base : ℕ) (test : ℕ → Bool) (value : ℕ → ℕ) (bs : Bytes) (acc : ℕ) (l : Lexer)
    → acc < word64
    → (digits_loop base test value bs acc l).0 ≡ numeral base value (digit_run test bs) acc % word64
unfolding digits_loop
digits_loop-numeral base test value [] acc l h = sym (mod-eq_of_lt h)
digits_loop-numeral base test value (c ∷ cs) acc l h = elim (Bool-cases (test c || c == b'_')) [
  | inr t ↦ rw t (sym (mod-eq_of_lt h))
  | inl t ↦
      let x = acc * base + value c in
      let next = if c == b'_' then acc else x % word64 in
      rw t (
        digits_loop-numeral base test value cs next (advance l) (step_lt (c == b'_') acc x h)
        ∙ numeral-mod base value word64 (digit_run test cs) next (if c == b'_' then acc else x)
            (step-mod (c == b'_') acc x))
]

-- The first place at which a byte stands in an alphabet.
abbrev pub place : Bytes → ℕ → ℕ → Option ℕ
place [] n c = none
place (d ∷ ds) n c = let rest = place ds (n + 1) c in if c == d then some n else rest

-- The place of a hexadecimal digit among the sixteen, in either spelling.
abbrev pub hex_place : ℕ → Option ℕ
hex_place c =
    case_option (place (codes "0123456789abcdef") 0 c) (place (codes "0123456789ABCDEF") 0 c) some

abbrev pub is_place : Option ℕ → Bool
is_place none = false
is_place (some d) = true

hex_digit-place : (c : ℕ) → hex_digit c ≡ hex_place c
unfolding hex_digit
hex_digit-place c = ground arith

is_hex-place : (c : ℕ) → is_hex c ≡ is_place (hex_place c)
is_hex-place c = is_some (hex_digit c) ∙ ap is_place (hex_digit-place c)
  where
    is_some : (o : Option ℕ) → elim o [ none ↦ false | some d ↦ true ] ≡ is_place o
    is_some none = refl
    is_some (some d) = refl

hex_value-place : (c : ℕ) → hex_value c ≡ digit_or (hex_place c)
hex_value-place c = ap digit_or (hex_digit-place c)

-- The token of `0x…` holds the value of the run of hexadecimal digits and underscores behind `0x`, modulo
-- 2 ^ 64. A hexadecimal digit is a byte of "0123456789abcdef" or of "0123456789ABCDEF", and its value is
-- its place there.
pub lex_hex-numeral :
    (l : Lexer)
    → (lex_hex l).value
      ≡ int_val (
          numeral 16
            (λ c. digit_or (hex_place c))
            (digit_run (λ c. is_place (hex_place c)) (advance (advance l)).rest)
            0
          % word64)
unfolding lex_hex
lex_hex-numeral l =
    let m = advance (advance l) in
    subst
      (λ test.
        (lex_hex l).value
        ≡ int_val (numeral 16 (λ c. digit_or (hex_place c)) (digit_run test m.rest) 0 % word64))
      (λ i c. is_hex-place c i)
      (subst
        (λ value.
          (lex_hex l).value ≡ int_val (numeral 16 value (digit_run is_hex m.rest) 0 % word64))
        (λ i c. hex_value-place c i)
        (ap int_val (digits_loop-numeral 16 is_hex hex_value m.rest 0 m (omega arith))))

-- A number with no fraction and no exponent holds the value of its run of digits, modulo 2 ^ 64.
pub lex_decimal-numeral :
    (l : Lexer)
    → (lex_decimal l).kind ≡ tok_int
    → (lex_decimal l).value
      ≡ int_val (numeral 10 (λ c. c - b'0') (digit_run is_digit l.rest) 0 % word64)
unfolding lex_decimal
lex_decimal-numeral l h =
    let loop = digits_loop 10 is_digit (λ c. c - b'0') l.rest 0 l in
    let fraction = lex_fraction loop.1 in
    elim (Bool-cases (fraction.0 || (lex_exponent fraction.1).0)) [
      | inl t ↦ cc (rw (t, lex_decimal) at h)
      | inr t ↦
          rw t
            (ap int_val (digits_loop-numeral 10 is_digit (λ c. c - b'0') l.rest 0 l (omega arith)))
    ]
