-- ===== src/Typeck/Types/Names.antt =====
-- The names of types.
use apex_forge_night_script.Base.{
  zero, suc, ◌+◌, ◌/◌, ◌%◌, ◌≤◌, ltb, ℕ, ◌≡◌, refl, ◌<◌, some, List, [], ◌∷◌, Bytes, codes, beq,
  beq→eq, arith, length, length-take, Bool-cases, Option-cases, inl, inr, ◌-◌, case_option,
  if◌then◌else◌, ◌++◌, All,
}
use apex_forge_night_script.Typeck.Types.{
  decimal, Ty, PlainKind, plain, named, pointer, array, function, builtin_name, builtin_types,
  BuiltinType, find_builtin, type_from_name_text, format_type, fit, array_prefix, inner_size,
}

-- A row of the table whose name is the name of its kind.
abbrev Named : BuiltinType → Type 0
Named b = builtin_name b.kind ≡ some b.name

builtin_types-Named : All Named builtin_types
unfolding builtin_types builtin_name
builtin_types-Named = (
  refl,
  (
    refl,
    (
      refl,
      (
        refl,
        (
          refl,
          (
            refl,
            (
              refl,
              (refl, (refl, (refl, (refl, (refl, (refl, (refl, (refl, (refl, (refl, tt)))))))))),
            ),
          ),
        ),
      ),
    ),
  ),
)

find_builtin-Named :
    (bs : List BuiltinType) (name : Bytes) {k : PlainKind}
    → All Named bs
    → find_builtin bs name ≡ some k
    → builtin_name k ≡ some name
unfolding find_builtin
find_builtin-Named [] name a h = cc
find_builtin-Named (b ∷ bs) name {k} (p, ps) h = elim (Bool-cases (beq name b.name)) [
  | inl e ↦ let f = beq→eq name b.name e in cc
  | inr e ↦ find_builtin-Named bs name ps (rw e at h)
]

-- The type that a name stands for is printed as the name, cut to the buffer.
pub format_type-type_from_name_text :
    (name : Bytes) (n : ℕ) → format_type (type_from_name_text name) n ≡ fit n name
unfolding format_type type_from_name_text
format_type-type_from_name_text name n = elim (Option-cases (find_builtin builtin_types name)) [
  | inl e ↦ rw e refl
  | inr (k, e) ↦
      let f = find_builtin-Named builtin_types name builtin_types-Named e in rw (e, f) refl
]

-- A printed type and its terminator fit in a buffer that is not empty.
pub format_type-length : (t : Ty) (n : ℕ) → 0 < n → length (format_type t n) < n
unfolding format_type
format_type-length (plain k) n h =
    let e = length-take (n - 1) (case_option (builtin_name k) (codes "<type>") λ s. s) in
    omega (arith, e, h)
format_type-length (named s) n h = omega (arith, length-take (n - 1) s, h)
format_type-length (pointer t c m) n h =
    let e =
      length-take (n - 1) (format_type t inner_size ++ (if c then codes "*const" else codes "*")) in
    omega (arith, e, h)
format_type-length (array t m) n h =
    let e = length-take (n - 1) (array_prefix m ++ format_type t inner_size) in omega (arith, e, h)
format_type-length (function d) n h =
    let e = length-take (n - 1) (codes "<function>") in omega (arith, e, h)

-- The digits of a number do not depend on the fuel, if it is above the number.
pub decimal-fuel : (f g n : ℕ) (acc : Bytes) → n < f → n < g → decimal f n acc ≡ decimal g n acc
unfolding decimal
decimal-fuel zero g n acc h k = absurd (omega (arith, h))
decimal-fuel (suc f) zero n acc h k = absurd (omega (arith, k))
decimal-fuel (suc f) (suc g) n acc h k = elim (Bool-cases (ltb n 10)) [
  | inl e ↦ rw e refl
  | inr e ↦
      let big : 10 ≤ n = ground (arith, e) in
      rw e (
        decimal-fuel f g (n / 10) ((b'0' + n % 10) ∷ acc) (omega (arith, h, big))
          (omega (arith, k, big)))
]
