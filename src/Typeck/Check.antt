-- ===== src/Typeck/Check.antt =====
-- What the checks of bodies read and write: compiler/src/typeck/typeck.c, lines 69-77 and 102-111, with the
-- messages of lines 708-2513. A check is a function of the errors so far, the newest first, where the code
-- prints them and sets `had_error`; an error does not stop it. `exhausted` has no counterpart in the code:
-- it is a chain of constants longer than the fuel.
pub mod Context
pub mod Runs
pub mod Answers
use apex_forge_night_script.Base.{
  ℕ, Bool, true, false, Option, none, some, List, [], ◌∷◌, Bytes, String, codes, map, case_option,
  if◌then◌else◌,
}
use apex_forge_night_script.Ast.{Node, line_of, col_of}
use apex_forge_night_script.Sema.Analyzer.{is_name_in}
use apex_forge_night_script.Typeck.Types.{Ty, plain, error, format_type}
use apex_forge_night_script.Typeck.Visibility.{PrivateSymbol}

-- The texts are those that the message shows, in its order, with types as `format_type` shows them.
pub data CheckMessage : Type 0 where
  private_symbol : Bytes → Bytes → CheckMessage
  constructor_arguments : Bytes → ℕ → CheckMessage
  value_mismatch : Bytes → Bytes → Bytes → CheckMessage
  try_outside_function receiver_not_addressable operand_not_addressable : CheckMessage
  not_assignable : CheckMessage
  try_needs_option try_needs_result try_operand : Bytes → CheckMessage
  try_error_mismatch argument_mismatch receiver_mismatch : Bytes → Bytes → CheckMessage
  expected_arguments : ℕ → ℕ → CheckMessage
  match_subject invalid_match_pattern duplicate_match_binding : Bytes → CheckMessage
  duplicate_wildcard wildcard_bindings : CheckMessage
  wrong_arm arm_mismatch missing_arm : Bytes → Bytes → CheckMessage
  duplicate_arm : Option Bytes → Bytes → CheckMessage
  arm_bindings : Bytes → ℕ → ℕ → CheckMessage
  none_without_context : CheckMessage
  unary_operand : Bytes → Bytes → CheckMessage
  numeric_operands bool_operands integer_operands : Bytes → Bytes → Bytes → CheckMessage
  not_comparable ordered_operands compound_operands cannot_assign : Bytes → Bytes → CheckMessage
  immutable_binding index_operand not_indexable slice_start slice_end : Bytes → CheckMessage
  not_sliceable constructor_without_context string_from_operand not_callable : Bytes → CheckMessage
  string_arguments : Bytes → ℕ → ℕ → CheckMessage
  string_free_receiver union_outside_unsafe : CheckMessage
  enum_arguments : Bytes → Bytes → ℕ → ℕ → CheckMessage
  enum_argument_mismatch associated_function cannot_cast : Bytes → Bytes → CheckMessage
  unknown_field no_field : Bytes → Bytes → CheckMessage
  field_value_mismatch : Bytes → Bytes → Bytes → CheckMessage
  cannot_infer infer_from_null return_expected if_condition while_condition : Bytes → CheckMessage
  for_condition : Bytes → CheckMessage
  infer_const_from_null void_returns unsupported_stmt out_of_memory : CheckMessage
  return_mismatch : Bytes → Bytes → CheckMessage

pub record TypeError : Type 0 where
  pub line : ℕ
  pub col : ℕ
  pub message : CheckMessage

pub data CheckRun {ℓ} (A : Type ℓ) : Type ℓ where
  ran : A → List TypeError → CheckRun A
  exhausted : CheckRun A

abbrev pub Check {ℓ} : Type ℓ → Type ℓ
Check A = List TypeError → CheckRun A

module _ {ℓ} {A : Type ℓ} where
  unfoldable pub answer : A → Check A
  answer a es = ran a es

  unfoldable pub out_of_fuel : Check A
  out_of_fuel es = exhausted

module _ {ℓ κ} {A : Type ℓ} {B : Type κ} where
  abbrev pub go_on : CheckRun A → (A → Check B) → CheckRun B
  go_on (ran a es) f = f a es
  go_on exhausted f = exhausted

  infixl 10 ◌>>=◌ ◌>>◌
  unfoldable pub ◌>>=◌ : Check A → (A → Check B) → Check B
  ◌>>=◌ m f es = go_on (m es) f

  unfoldable pub ◌>>◌ : Check A → Check B → Check B
  m >> k = m >>= λ _. k

unfoldable pub typeck_error : ℕ → ℕ → CheckMessage → Check (Unit {0})
typeck_error line col m es = ran tt (record { line = line; col = col; message = m } ∷ es)

-- Report, and answer with `a`.
unfoldable pub refuse_with {ℓ} : {A : Type ℓ} → A → Node → CheckMessage → Check A
refuse_with a n m = typeck_error (line_of n) (col_of n) m >> answer a

abbrev pub error_type : Ty
error_type = plain error

abbrev pub refuse_type : Node → CheckMessage → Check Ty
refuse_type n m = refuse_with error_type n m

-- `if (!visible) return refused`.
unfoldable pub when_visible {ℓ} : {A : Type ℓ} → A → Option PrivateSymbol → Check A → Check A
when_visible refused none k = k
when_visible refused (some p) k =
    typeck_error p.line p.col (private_symbol p.name p.owner) >> answer refused

-- A type in a buffer of 128 bytes.
unfoldable pub shown : Ty → Bytes
unfolding format_type
shown t = format_type t 128

unfoldable pub is_any_of : List String → Bytes → Bool
unfolding is_name_in
is_any_of names s = is_name_in (map codes names) s

-- The actions in order, their answers dropped.
unfoldable pub check_each {ℓ} : {A : Type ℓ} → List (Check A) → Check (Unit {0})
check_each [] = answer tt
check_each (m ∷ ms) = m >> check_each ms
