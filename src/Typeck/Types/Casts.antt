-- ===== src/Typeck/Types/Casts.antt =====
-- Assignment and casts between types.
use apex_forge_night_script.Base.{
  ◌≡◌, refl, ◌↔◌, Bool, true, false, ◌&&◌, ◌||◌, Option, none, some, arith, &&-eq-true,
}
use apex_forge_night_script.Typeck.Types.{
  Ty, plain, named, pointer, array, function, is_plain, is_pointer, is_integer_kind, is_float_kind,
  is_numeric_type, type_equals, is_assignable, is_castable, widen_literal, plain_number, error,
  char, str, cstr, int_literal, float_literal, string_literal, null_type,
}
use apex_forge_night_script.Typeck.Types.Equality.{
  Same, type_equals_iff, type_equals_comm, type_equals_self,
}

-- When a value of type `actual` may be stored where `expected` is wanted.
pub data Assignable (expected actual : Ty) : Type 0 where
  from_error : is_plain error expected ≡ true → Assignable expected actual
  of_error : is_plain error actual ≡ true → Assignable expected actual
  same : Same expected actual → Assignable expected actual
  integer :
      is_plain int_literal actual ≡ true
      → is_integer_kind expected ≡ true
      → Assignable expected actual
  float :
      is_plain float_literal actual ≡ true
      → is_float_kind expected ≡ true
      → Assignable expected actual
  text :
      is_plain string_literal actual ≡ true
      → is_plain str expected ≡ true
      → Assignable expected actual
  c_text :
      is_plain string_literal actual ≡ true
      → is_plain cstr expected ≡ true
      → Assignable expected actual
  null_pointer :
      is_plain null_type actual ≡ true → is_pointer expected ≡ true → Assignable expected actual

-- A proof by the two sides of a disjunction of tests.
either {ℓ} : {C : Type ℓ} (a b : Bool) → (a ≡ true → C) → (b ≡ true → C) → (a || b) ≡ true → C
either true b f g h = f refl
either false b f g h = g h

-- A character is an integer kind, so that its own test adds nothing.
char-is_integer_kind : (t : Ty) → is_plain char t ≡ true → is_integer_kind t ≡ true
unfolding is_integer_kind
char-is_integer_kind t h = ground (arith, h)

is_assignable→Assignable : (e a : Ty) → is_assignable (some e) (some a) ≡ true → Assignable e a
unfolding is_assignable
is_assignable→Assignable e a =
    either _ (is_plain null_type a && is_pointer e)
      (either _ (is_plain string_literal a && (is_plain str e || is_plain cstr e))
        (either _ (is_plain float_literal a && is_float_kind e)
          (either _ (is_plain int_literal a && (is_integer_kind e || is_plain char e))
            (either _ (type_equals e a)
              (either (is_plain error e) (is_plain error a) from_error of_error)
              (λ h. same ((type_equals_iff e a).0 h)))
            (λ h.
              let (p, q) = &&-eq-true (is_plain int_literal a) _ h in
              integer p
                (either (is_integer_kind e) (is_plain char e) (λ i. i) (char-is_integer_kind e) q)))
          (λ h. let (p, q) = &&-eq-true (is_plain float_literal a) _ h in float p q))
        (λ h.
          let (p, q) = &&-eq-true (is_plain string_literal a) _ h in
          either (is_plain str e) (is_plain cstr e) (text p) (c_text p) q))
      (λ h. let (p, q) = &&-eq-true (is_plain null_type a) _ h in null_pointer p q)

accepted-Assignable : (e a : Ty) → Assignable e a → is_assignable (some e) (some a) ≡ true
unfolding is_assignable
accepted-Assignable e a (from_error h) = rw h refl
accepted-Assignable e a (of_error h) = ground (arith, h)
accepted-Assignable e a (same s) = let h = (type_equals_iff e a).1 s in ground (arith, h)
accepted-Assignable e a (integer h k) = ground (arith, h, k)
accepted-Assignable e a (float h k) = ground (arith, h, k)
accepted-Assignable e a (text h k) = ground (arith, h, k)
accepted-Assignable e a (c_text h k) = ground (arith, h, k)
accepted-Assignable e a (null_pointer h k) = ground (arith, h, k)

-- A value is accepted where a type is expected exactly when one of the types is the error type, the
-- types are the same, or the value is an integer literal and the type an integer kind, a float
-- literal and a float kind, a string literal and `str` or `cstr`, or `null` and a pointer.
pub is_assignable_iff : (e a : Ty) → (is_assignable (some e) (some a) ≡ true) ↔ Assignable e a
is_assignable_iff e a = (is_assignable→Assignable e a, accepted-Assignable e a)

-- A cast is accepted in both directions or in neither.
pub is_castable_comm : (a b : Option Ty) → is_castable a b ≡ is_castable b a
unfolding is_castable
is_castable_comm none none = refl
is_castable_comm none (some b) = refl
is_castable_comm (some a) none = refl
is_castable_comm (some a) (some b) = let e = type_equals_comm a b in rw e (ground arith)

unfoldable pub is_literal : Ty → Bool
is_literal t = is_plain int_literal t || is_plain float_literal t || is_plain string_literal t

-- The type that a variable takes from a value without an annotation accepts the value, and is not the
-- type of a literal.
pub widen_literal_lem :
    (t : Ty)
    → (is_assignable (some (widen_literal (some t))) (some t) ≡ true)
      × (is_literal (widen_literal (some t)) ≡ false)
unfolding widen_literal is_assignable is_literal is_float_kind is_integer_kind type_equals
    plain_number
widen_literal_lem (plain error) = (refl, refl)
widen_literal_lem (plain _) = (refl, refl)
widen_literal_lem (named n) = let e = type_equals_self (named n) in (ground (arith, e), refl)
widen_literal_lem (pointer t c n) =
    let e = type_equals_self (pointer t c n) in (ground (arith, e), refl)
widen_literal_lem (array t n) = let e = type_equals_self (array t n) in (ground (arith, e), refl)
widen_literal_lem (function d) = let e = type_equals_self (function d) in (ground (arith, e), refl)

integer-is_numeric_type : (t : Ty) → is_integer_kind t ≡ true → is_numeric_type t ≡ true
unfolding is_numeric_type
integer-is_numeric_type t h = ground (arith, h)

float-is_numeric_type : (t : Ty) → is_float_kind t ≡ true → is_numeric_type t ≡ true
unfolding is_numeric_type
float-is_numeric_type t h = ground (arith, h)

literal-is_integer_kind : (t : Ty) → is_plain int_literal t ≡ true → is_integer_kind t ≡ true
unfolding is_integer_kind
literal-is_integer_kind t h = ground (arith, h)

literal-is_float_kind : (t : Ty) → is_plain float_literal t ≡ true → is_float_kind t ≡ true
unfolding is_float_kind
literal-is_float_kind t h = ground (arith, h)

-- A value that may be assigned may be cast to the same type, unless it is a string literal.
pub is_assignable-is_castable :
    (e a : Ty)
    → is_plain string_literal a ≡ false
    → is_assignable (some e) (some a) ≡ true
    → is_castable (some a) (some e) ≡ true
unfolding is_castable
is_assignable-is_castable e a l h = elim (is_assignable→Assignable e a h) [
  | from_error p ↦ ground (arith, p)
  | of_error p ↦ ground (arith, p)
  | same s ↦
      let q = type_equals_comm e a in let p = (type_equals_iff e a).1 s in ground (arith, p, q)
  | integer p k ↦
      let n = integer-is_numeric_type e k in
      let m = integer-is_numeric_type a (literal-is_integer_kind a p) in ground (arith, n, m)
  | float p k ↦
      let n = float-is_numeric_type e k in
      let m = float-is_numeric_type a (literal-is_float_kind a p) in ground (arith, n, m)
  | text p k ↦ cc
  | c_text p k ↦ cc
  | null_pointer p k ↦ ground (arith, p, k)
]
