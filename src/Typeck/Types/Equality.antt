-- ===== src/Typeck/Types/Equality.antt =====
-- `type_equals` is an equivalence, and equality of what it looks at.
use apex_forge_night_script.Base.{
  ℕ, ◌≡◌, refl, sym, ◌∙◌, ◌↔◌, Bool, true, false, List, [], ◌∷◌, Bytes, beq_self, beq→eq, ◌==◌,
  ==_iff, arith, ap, &&-eq-true, if◌then◌else◌,
}
use apex_forge_night_script.Base.Int.{ℤ, int_eq, int_eq_iff}
use apex_forge_night_script.Typeck.Types.{
  Ty, PlainKind, plain, named, pointer, array, function, DeclPtr, type_equals, plain_number, error,
  void, bool, char, i8, i16, i32, i64, isize, u8, u16, u32, u64, usize, f32, f64, str, cstr,
  int_literal, float_literal, string_literal, null_type, plain_eq, flag_eq,
}

-- What `type_equals` reads of a type: all but the node behind a declaration's address.
pub data Same : Ty → Ty → Type 0 where
  same_plain : {j k : PlainKind} → j ≡ k → Same (plain j) (plain k)
  same_named : {a b : Bytes} → a ≡ b → Same (named a) (named b)
  same_pointer :
      {a b : Ty} {c d n m : Bool} → c ≡ d → n ≡ m → Same a b → Same (pointer a c n) (pointer b d m)
  same_array : {a b : Ty} {n m : ℤ} → n ≡ m → Same a b → Same (array a n) (array b m)
  same_function : {a b : DeclPtr} → a.address ≡ b.address → Same (function a) (function b)

abbrev kinds : List PlainKind
kinds =
    void ∷ bool ∷ char ∷ i8 ∷ i16 ∷ i32 ∷ i64 ∷ isize ∷ u8 ∷ u16 ∷ u32 ∷ u64 ∷ usize ∷ f32 ∷ f64
    ∷ str ∷ cstr ∷ int_literal ∷ float_literal ∷ string_literal ∷ null_type ∷ []

kind_at : List PlainKind → ℕ → PlainKind
kind_at [] n = error
kind_at (k ∷ ks) n = if plain_number k == n then k else kind_at ks n

kind_at-plain_number : (k : PlainKind) → kind_at kinds (plain_number k) ≡ k
unfolding kind_at plain_number
kind_at-plain_number error = refl
kind_at-plain_number _ = refl

pub plain_eq→eq : (j k : PlainKind) → plain_eq j k ≡ true → j ≡ k
plain_eq→eq j k h =
    let same = (==_iff (plain_number j) (plain_number k)).0 h in
    sym (kind_at-plain_number j) ∙ (ap (kind_at kinds) same ∙ kind_at-plain_number k)

flag_eq→eq : (a b : Bool) → flag_eq a b ≡ true → a ≡ b
flag_eq→eq a b h = ground arith

flag_eq_self : (a : Bool) → flag_eq a a ≡ true
flag_eq_self a = ground arith

type_equals→Same : (a b : Ty) → type_equals a b ≡ true → Same a b
unfolding type_equals
type_equals→Same (plain j) (plain k) h = same_plain (plain_eq→eq j k h)
type_equals→Same (named a) (named b) h = same_named (beq→eq a b h)
type_equals→Same (pointer a c n) (pointer b d m) h =
    let (p, q) = &&-eq-true (flag_eq c d) _ h in
    let (r, s) = &&-eq-true (flag_eq n m) _ q in
    same_pointer (flag_eq→eq c d p) (flag_eq→eq n m r) (type_equals→Same a b s)
type_equals→Same (array a n) (array b m) h =
    let (p, q) = &&-eq-true (int_eq n m) _ h in
    same_array ((int_eq_iff n m).0 p) (type_equals→Same a b q)
type_equals→Same (function a) (function b) h = same_function ((==_iff a.address b.address).0 h)
type_equals→Same _ _ h = cc

Same→type_equals : {a b : Ty} → Same a b → type_equals a b ≡ true
unfolding type_equals
Same→type_equals (same_plain {j} {k} e) =
    (==_iff (plain_number j) (plain_number k)).1 (ap plain_number e)
Same→type_equals (same_named {a} e) = rw (← e) (beq_self a)
Same→type_equals (same_pointer {c} {n} e f s) =
    rw (← e, ← f, flag_eq_self c, flag_eq_self n) (Same→type_equals s)
Same→type_equals (same_array {n} {m} e s) = rw ((int_eq_iff n m).1 e) (Same→type_equals s)
Same→type_equals (same_function {a} {b} e) = (==_iff a.address b.address).1 e

-- `type_equals` holds of two types exactly when they have the same kind, and the same name, flags,
-- length, address and inner type where the kind has them.
pub type_equals_iff : (a b : Ty) → (type_equals a b ≡ true) ↔ Same a b
type_equals_iff a b = (type_equals→Same a b, Same→type_equals)

Same-refl : (a : Ty) → Same a a
Same-refl (plain k) = same_plain refl
Same-refl (named n) = same_named refl
Same-refl (pointer t c n) = same_pointer refl refl (Same-refl t)
Same-refl (array t n) = same_array refl (Same-refl t)
Same-refl (function d) = same_function refl

Same-symm : {a b : Ty} → Same a b → Same b a
Same-symm (same_plain e) = same_plain (sym e)
Same-symm (same_named e) = same_named (sym e)
Same-symm (same_pointer e f s) = same_pointer (sym e) (sym f) (Same-symm s)
Same-symm (same_array e s) = same_array (sym e) (Same-symm s)
Same-symm (same_function e) = same_function (sym e)

Same-trans : {a b c : Ty} → Same a b → Same b c → Same a c
Same-trans (same_plain e) (same_plain f) = same_plain (e ∙ f)
Same-trans (same_named e) (same_named f) = same_named (e ∙ f)
Same-trans (same_pointer e f s) (same_pointer g h t) = same_pointer (e ∙ g) (f ∙ h) (Same-trans s t)
Same-trans (same_array e s) (same_array g t) = same_array (e ∙ g) (Same-trans s t)
Same-trans (same_function e) (same_function f) = same_function (e ∙ f)

pub type_equals_self : (a : Ty) → type_equals a a ≡ true
type_equals_self a = Same→type_equals (Same-refl a)

-- Two Booleans that imply one another are equal.
bool_ext : (a b : Bool) → (a ≡ true → b ≡ true) → (b ≡ true → a ≡ true) → a ≡ b
bool_ext true b f g = sym (f refl)
bool_ext false true f g = g refl
bool_ext false false f g = refl

pub type_equals_comm : (a b : Ty) → type_equals a b ≡ type_equals b a
type_equals_comm a b =
    bool_ext (type_equals a b) (type_equals b a)
      (λ h. Same→type_equals (Same-symm (type_equals→Same a b h)))
      (λ h. Same→type_equals (Same-symm (type_equals→Same b a h)))

-- `type_equals` is an equivalence of types.
pub type_equals_equivalence :
    (a b c : Ty)
    → (type_equals a a ≡ true)
      × (type_equals a b ≡ type_equals b a)
      × (type_equals a b ≡ true → type_equals b c ≡ true → type_equals a c ≡ true)
type_equals_equivalence a b c = (
  type_equals_self a,
  type_equals_comm a b,
  λ h k. Same→type_equals (Same-trans (type_equals→Same a b h) (type_equals→Same b c k)),
)
