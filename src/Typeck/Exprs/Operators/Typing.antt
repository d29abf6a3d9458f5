-- ===== src/Typeck/Exprs/Operators/Typing.antt =====
-- The typing rules of the operators: compiler/src/typeck/typeck.c, lines 1335-1513. The error
-- type is the type of an expression that is not known.
use apex_forge_night_script.Base.{
  ◌≡◌, refl, sym, ◌⊎◌, inl, inr, Bool, true, false, ◌&&◌, ◌||◌, Option, none, some, List, [], ◌∷◌,
  Bytes, String, codes, beq, beq→eq, Bool-cases, &&-eq-true, subst, if◌then◌else◌,
}
use apex_forge_night_script.Ast.{Node}
use apex_forge_night_script.Typeck.Types.{
  Ty, plain, named, pointer, array, function, bool, f64, int_literal, is_assignable,
  is_numeric_type, is_integer_kind, is_float_kind, widen_literal,
}
use apex_forge_night_script.Typeck.Check.{
  CheckMessage, TypeError, ran, answer, refuse_type, error_type, is_any_of,
}
use apex_forge_night_script.Typeck.Check.Context.{is_addressable}
use apex_forge_night_script.Typeck.Check.Answers.{answer-ran}
use apex_forge_night_script.Typeck.Exprs.Matches.Covering.{refuse_type-error}
use apex_forge_night_script.Typeck.Exprs.Operators.{
  unary_type, binary_type, assigned_type, dereferenced, both_ways, both_bool, bitwise_type,
  arithmetic_type,
}

abbrev pub arithmetic_operators : List String
arithmetic_operators = "+" ∷ "-" ∷ "*" ∷ "/" ∷ "%" ∷ []

abbrev pub equality_operators : List String
equality_operators = "==" ∷ "!=" ∷ []

abbrev pub order_operators : List String
order_operators = "<" ∷ ">" ∷ "<=" ∷ ">=" ∷ []

abbrev pub logic_operators : List String
logic_operators = "&&" ∷ "||" ∷ []

abbrev pub bit_operators : List String
bit_operators = "&" ∷ "|" ∷ "^" ∷ "<<" ∷ ">>" ∷ []

abbrev pub Numbers : Ty → Ty → Type 0
Numbers a b = (is_numeric_type a ≡ true) × (is_numeric_type b ≡ true)

-- The operator, the types of the operands and that of the result.
pub data BinaryTyping (op : Bytes) (a b : Ty) : Ty → Type 0 where
  unknown : BinaryTyping op a b error_type
  on_floats :
      is_any_of arithmetic_operators op ≡ true
      → Numbers a b
      → (is_float_kind a || is_float_kind b) ≡ true
      → BinaryTyping op a b (plain f64)
  on_integers :
      is_any_of arithmetic_operators op ≡ true
      → Numbers a b
      → (is_float_kind a || is_float_kind b) ≡ false
      → BinaryTyping op a b (plain int_literal)
  equality :
      is_any_of equality_operators op ≡ true
      → both_ways a b ≡ true
      → BinaryTyping op a b (plain bool)
  order : is_any_of order_operators op ≡ true → Numbers a b → BinaryTyping op a b (plain bool)
  logic :
      is_any_of logic_operators op ≡ true
      → is_assignable (some (plain bool)) (some a) ≡ true
      → is_assignable (some (plain bool)) (some b) ≡ true
      → BinaryTyping op a b (plain bool)
  bits :
      is_any_of bit_operators op ≡ true
      → is_integer_kind a ≡ true
      → is_integer_kind b ≡ true
      → BinaryTyping op a b (bitwise_type a b)

-- A test decides between a type and a report.
module _ (n : Node) where
  tested :
      (b : Bool) (t₀ : Ty) (m : CheckMessage) (es : List TypeError) {fs : List TypeError} {t : Ty}
      → (if b then answer t₀ else refuse_type n m) es ≡ ran t fs
      → ((b ≡ true) × (t₀ ≡ t)) ⊎ (error_type ≡ t)
  tested true t₀ m es h = inl (refl, (answer-ran h).0)
  tested false t₀ m es h = inr (sym (refuse_type-error n m es h))

  module _ (op : Bytes) (a b : Ty) where
    arithmetic-Typing :
        is_any_of arithmetic_operators op ≡ true
        → (is_numeric_type a && is_numeric_type b) ≡ true
        → BinaryTyping op a b (arithmetic_type a b)
    unfolding arithmetic_type
    arithmetic-Typing o h = elim (Bool-cases (is_float_kind a || is_float_kind b)) [
      | inl e ↦ rw e (on_floats o (&&-eq-true _ _ h) e)
      | inr e ↦ rw e (on_integers o (&&-eq-true _ _ h) e)
    ]

    -- An operator of a list, whose operands are tested.
    rule :
        (c : Bool) (t₀ : Ty) (m : CheckMessage) (es : List TypeError) {fs : List TypeError} {t : Ty}
        → (c ≡ true → BinaryTyping op a b t₀)
        → (if c then answer t₀ else refuse_type n m) es ≡ ran t fs
        → BinaryTyping op a b t
    rule c t₀ m es typing h = elim (tested c t₀ m es h) [
      | inl (e, same) ↦ subst (BinaryTyping op a b) same (typing e)
      | inr same ↦ subst (BinaryTyping op a b) same unknown
    ]

    -- Whatever the checker answers on a binary operator follows the rules.
    pub binary_type-Typing :
        (es : List TypeError) {fs : List TypeError} {t : Ty}
        → binary_type n op a b es ≡ ran t fs
        → BinaryTyping op a b t
    unfolding binary_type
    binary_type-Typing es {fs} {t} h = elim (Bool-cases (is_any_of arithmetic_operators op)) [
      | inl o ↦ rule _ _ _ es (arithmetic-Typing o) (rw o at h)
      | inr no_arithmetic ↦ elim (Bool-cases (is_any_of equality_operators op)) [
        | inl o ↦ rule (both_ways a b) (plain bool) _ es (equality o) (rw (no_arithmetic, o) at h)
        | inr no_equality ↦ elim (Bool-cases (is_any_of order_operators op)) [
          | inl o ↦
              rule _ _ _ es (λ both. order o (&&-eq-true _ _ both))
                (rw (no_arithmetic, no_equality, o) at h)
          | inr no_order ↦ elim (Bool-cases (is_any_of logic_operators op)) [
            | inl o ↦
                rule (both_bool a b) (plain bool) _ es
                  (λ both. let (l, r) = &&-eq-true _ _ both in logic o l r)
                  (rw (no_arithmetic, no_equality, no_order, o) at h)
            | inr no_logic ↦ elim (Bool-cases (is_any_of bit_operators op)) [
              | inl o ↦
                  rule _ _ _ es (λ both. let (l, r) = &&-eq-true _ _ both in bits o l r)
                    (rw (no_arithmetic, no_equality, no_order, no_logic, o) at h)
              | inr no_bits ↦
                  let silent : answer error_type es ≡ ran t fs =
                    rw (no_arithmetic, no_equality, no_order, no_logic, no_bits) at h in
                  subst (BinaryTyping op a b) (answer-ran silent).0 unknown
            ]
          ]
        ]
      ]
    ]

-- The operand, the operator, the type of the operand and that of the result.
pub data UnaryTyping (x : Node) (op : Bytes) (a : Ty) : Ty → Type 0 where
  unknown : UnaryTyping x op a error_type
  negation :
      op ≡ codes "!"
      → is_assignable (some (plain bool)) (some a) ≡ true
      → UnaryTyping x op a (plain bool)
  minus : op ≡ codes "-" → is_numeric_type a ≡ true → UnaryTyping x op a a
  address :
      op ≡ codes "&"
      → is_addressable x ≡ true
      → UnaryTyping x op a (pointer (widen_literal (some a)) false false)
  pointee : {t : Ty} {c nul : Bool} → op ≡ codes "*" → a ≡ pointer t c nul → UnaryTyping x op a t
  complement : op ≡ codes "~" → is_integer_kind a ≡ true → UnaryTyping x op a a

module _ (n : Node) (op : Bytes) (x : Node) where
  unary_rule :
      (a : Ty) (c : Bool) (t₀ : Ty) (m : CheckMessage) (es : List TypeError) {fs : List TypeError}
      {t : Ty}
      → (c ≡ true → UnaryTyping x op a t₀)
      → (if c then answer t₀ else refuse_type n m) es ≡ ran t fs
      → UnaryTyping x op a t
  unary_rule a c t₀ m es typing h = elim (tested n c t₀ m es h) [
    | inl (e, same) ↦ subst (UnaryTyping x op a) same (typing e)
    | inr same ↦ subst (UnaryTyping x op a) same unknown
  ]

  refused_operand :
      (a : Ty) (m : CheckMessage) (es : List TypeError) {fs : List TypeError} {t : Ty}
      → refuse_type n m es ≡ ran t fs
      → UnaryTyping x op a t
  refused_operand a m es h = subst (UnaryTyping x op a) (sym (refuse_type-error n m es h)) unknown

  pointee-Typing :
      (a : Ty) (es : List TypeError) {fs : List TypeError} {t : Ty}
      → op ≡ codes "*"
      → dereferenced n op a es ≡ ran t fs
      → UnaryTyping x op a t
  unfolding dereferenced
  pointee-Typing (pointer t₀ c nul) es o h =
      subst (UnaryTyping x op _) (answer-ran h).0 (pointee o refl)
  pointee-Typing (plain k) es o h = refused_operand _ _ es h
  pointee-Typing (named name) es o h = refused_operand _ _ es h
  pointee-Typing (array t₀ len) es o h = refused_operand _ _ es h
  pointee-Typing (function d) es o h = refused_operand _ _ es h

  -- Whatever the checker answers on a unary operator other than `?` follows the rules.
  pub unary_type-Typing :
      (a : Ty) (es : List TypeError) {fs : List TypeError} {t : Ty}
      → unary_type n op x a es ≡ ran t fs
      → UnaryTyping x op a t
  unfolding unary_type
  unary_type-Typing a es {fs} {t} h = elim (Bool-cases (beq op (codes "!"))) [
    | inl o ↦ unary_rule a _ (plain bool) _ es (negation (beq→eq _ _ o)) (rw o at h)
    | inr n1 ↦ elim (Bool-cases (beq op (codes "-"))) [
      | inl o ↦ unary_rule a _ a _ es (minus (beq→eq _ _ o)) (rw (n1, o) at h)
      | inr n2 ↦ elim (Bool-cases (beq op (codes "&"))) [
        | inl o ↦ unary_rule a _ _ _ es (address (beq→eq _ _ o)) (rw (n1, n2, o) at h)
        | inr n3 ↦ elim (Bool-cases (beq op (codes "*"))) [
          | inl o ↦ pointee-Typing a es (beq→eq _ _ o) (rw (n1, n2, n3, o) at h)
          | inr n4 ↦ elim (Bool-cases (beq op (codes "~"))) [
            | inl o ↦
                unary_rule a _ a _ es (complement (beq→eq _ _ o)) (rw (n1, n2, n3, n4, o) at h)
            | inr n5 ↦
                let silent : answer error_type es ≡ ran t fs = rw (n1, n2, n3, n4, n5) at h in
                subst (UnaryTyping x op a) (answer-ran silent).0 unknown
          ]
        ]
      ]
    ]
  ]

-- The operator of the assignment, the types of the target and of the value, and that of the result.
pub data AssignTyping (a b : Ty) : Option Bytes → Ty → Type 0 where
  unknown : {op : Option Bytes} → AssignTyping a b op error_type
  plainly : is_assignable (some a) (some b) ≡ true → AssignTyping a b none a
  compound : {op : Bytes} → Numbers a b → AssignTyping a b (some op) a

pub assigned_type-Typing :
    (n : Node) (op : Option Bytes) (a b : Ty) (es : List TypeError) {fs : List TypeError} {t : Ty}
    → assigned_type n op a b es ≡ ran t fs
    → AssignTyping a b op t
unfolding assigned_type
assigned_type-Typing n none a b es h = elim (tested n _ a _ es h) [
  | inl (e, same) ↦ subst (AssignTyping a b none) same (plainly e)
  | inr same ↦ subst (AssignTyping a b none) same unknown
]
assigned_type-Typing n (some op) a b es h = elim (tested n _ a _ es h) [
  | inl (e, same) ↦ subst (AssignTyping a b (some op)) same (compound (&&-eq-true _ _ e))
  | inr same ↦ subst (AssignTyping a b (some op)) same unknown
]
