-- ===== src/Typeck/Exprs/Operators.antt =====
-- Operators, assignments, indices, slices and casts: compiler/src/typeck/typeck.c, lines 1335-1581 and 1919-1931.
pub mod Typing
use apex_forge_night_script.Base.{
  ℕ, Bool, true, false, ◌&&◌, ◌||◌, not, Option, none, some, List, [], ◌∷◌, Bytes, codes, beq,
  if◌then◌else◌, case_option,
}
use apex_forge_night_script.Base.Int.{ℤ, negsuc}
use apex_forge_night_script.Ast.{Node, MaybeNode, node, at, ident}
use apex_forge_night_script.Typeck.Types.{
  Ty, plain, named, pointer, array, function, error, bool, u8, i32, f32, f64, str, int_literal,
  float_literal, is_plain, is_pointer, is_assignable, is_castable, is_numeric_type, is_integer_kind,
  is_float_kind, widen_literal, type_from_ast,
}
use apex_forge_night_script.Typeck.Scope.{Binding, Scopes, scope_resolve}
use apex_forge_night_script.Typeck.Check.{
  Check, answer, ◌>>=◌, ◌>>◌, refuse_type, error_type, shown, is_any_of, unary_operand,
  operand_not_addressable, numeric_operands, not_comparable, ordered_operands, bool_operands,
  integer_operands, not_assignable, immutable_binding, compound_operands, cannot_assign,
  index_operand, not_indexable, slice_start, slice_end, not_sliceable, cannot_cast,
}
use apex_forge_night_script.Typeck.Check.Context.{Context, is_addressable, is_string}
use apex_forge_night_script.Typeck.Exprs.Constructors.{check_try_expr}

-- A test of an operand, the type of the result, and otherwise the report.
abbrev operand_is : Bool → Node → Bytes → Ty → Ty → Check Ty
operand_is good n op operand t =
    if good then answer t else refuse_type n (unary_operand op (shown operand))

unfoldable pub dereferenced : Node → Bytes → Ty → Check Ty
unfolding shown
dereferenced n op (pointer inner c nul) = answer inner
dereferenced n op t = refuse_type n (unary_operand op (shown t))

unfoldable pub unary_type : Node → Bytes → Node → Ty → Check Ty
unfolding is_assignable is_numeric_type is_integer_kind widen_literal dereferenced shown
unary_type n op inner t =
    if beq op (codes "!")
    then operand_is (is_assignable (some (plain bool)) (some t)) n op t (plain bool)
    else if beq op (codes "-")
    then operand_is (is_numeric_type t) n op t t
    else if beq op (codes "&")
    then if is_addressable inner
      then answer (pointer (widen_literal (some t)) false false)
      else refuse_type n operand_not_addressable
    else if beq op (codes "*")
    then dereferenced n op t
    else if beq op (codes "~")
    then operand_is (is_integer_kind t) n op t t
    else answer error_type

unfoldable pub check_unary : Context → Node → Bytes → Node → Check Ty → Check Ty
unfolding check_try_expr unary_type
check_unary e n op inner m =
    if beq op (codes "?") then check_try_expr e n m else do t ← m; unary_type n op inner t

abbrev pub both_ways : Ty → Ty → Bool
both_ways a b = is_assignable (some a) (some b) || is_assignable (some b) (some a)

abbrev pub both_bool : Ty → Ty → Bool
both_bool a b =
    is_assignable (some (plain bool)) (some a) && is_assignable (some (plain bool)) (some b)

-- The operands are numbers: a float makes it f64, and integers an integer literal.
abbrev pub arithmetic_type : Ty → Ty → Ty
arithmetic_type a b = if is_float_kind a || is_float_kind b then plain f64 else plain int_literal

abbrev pub bitwise_type : Ty → Ty → Ty
bitwise_type a b = if is_plain int_literal a then b else a

unfoldable pub binary_type : Node → Bytes → Ty → Ty → Check Ty
unfolding is_any_of is_assignable is_numeric_type is_integer_kind is_float_kind shown
binary_type n op a b =
    if is_any_of ("+" ∷ "-" ∷ "*" ∷ "/" ∷ "%" ∷ []) op
    then if is_numeric_type a && is_numeric_type b
      then answer (arithmetic_type a b)
      else refuse_type n (numeric_operands op (shown a) (shown b))
    else if is_any_of ("==" ∷ "!=" ∷ []) op
    then if both_ways a b
      then answer (plain bool)
      else refuse_type n (not_comparable (shown a) (shown b))
    else if is_any_of ("<" ∷ ">" ∷ "<=" ∷ ">=" ∷ []) op
    then if is_numeric_type a && is_numeric_type b
      then answer (plain bool)
      else refuse_type n (ordered_operands (shown a) (shown b))
    else if is_any_of ("&&" ∷ "||" ∷ []) op
    then if both_bool a b
      then answer (plain bool)
      else refuse_type n (bool_operands op (shown a) (shown b))
    else if is_any_of ("&" ∷ "|" ∷ "^" ∷ "<<" ∷ ">>" ∷ []) op
    then if is_integer_kind a && is_integer_kind b
      then answer (bitwise_type a b)
      else refuse_type n (integer_operands op (shown a) (shown b))
    else answer error_type

unfoldable pub check_binary : Node → Bytes → Check Ty → Check Ty → Check Ty
unfolding binary_type
check_binary n op left right = do a ← left; b ← right; binary_type n op a b

-- The name of an immutable binding that is the target.
unfoldable pub immutable_target : Scopes → Node → Option Bytes
unfolding scope_resolve
immutable_target sc (node l c (ident name)) =
    case_option (scope_resolve sc name) none λ b. if b.mutable then none else some name
immutable_target sc _ = none

-- With an operator, the assignment is compound.
unfoldable pub assigned_type : Node → Option Bytes → Ty → Ty → Check Ty
unfolding is_numeric_type is_assignable shown
assigned_type n none a b =
    if is_assignable (some a) (some b)
    then answer a
    else refuse_type n (cannot_assign (shown b) (shown a))
assigned_type n (some op) a b =
    if is_numeric_type a && is_numeric_type b
    then answer a
    else refuse_type n (compound_operands (shown a) (shown b))

unfoldable pub check_assign : Scopes → Node → Node → Option Bytes → Check Ty → Check Ty → Check Ty
unfolding immutable_target assigned_type
check_assign sc n target op m value =
    if is_addressable target
    then case_option (immutable_target sc target) (do a ← m; b ← value; assigned_type n op a b)
        (λ name. refuse_type n (immutable_binding name))
    else refuse_type n not_assignable

-- An index or a bound that is no integer; a type that is an error passes.
abbrev pub bad_index : Ty → Bool
bad_index t = not (is_plain error t) && not (is_integer_kind t)

unfoldable pub text_element : Node → Ty → Check Ty
unfolding shown
text_element n t =
    if is_plain str t || is_string t
    then answer (plain u8)
    else if is_plain error t
    then answer error_type
    else refuse_type n (not_indexable (shown t))

unfoldable pub element_type : Node → Ty → Check Ty
unfolding text_element
element_type n (array t len) = answer t
element_type n (pointer t c nul) = answer t
element_type n t = text_element n t

unfoldable pub check_index : Node → Check Ty → Check Ty → Check Ty
unfolding bad_index element_type shown
check_index n object index = do
  t ← object
  i ← index
  if bad_index i then refuse_type n (index_operand (shown i)) else element_type n t

unfoldable pub slice_type : Node → Ty → Check Ty
unfolding shown
slice_type n (array t len) = answer (array t (negsuc 0))
slice_type n t =
    if is_plain str t || is_string t
    then answer (plain str)
    else if is_plain error t
    then answer error_type
    else refuse_type n (not_sliceable (shown t))

-- A bound that is left out is an integer.
unfoldable pub optional_type : Option (Check Ty) → Check Ty
optional_type none = answer (plain int_literal)
optional_type (some m) = m

unfoldable pub check_slice : Node → Check Ty → Option (Check Ty) → Option (Check Ty) → Check Ty
unfolding bad_index slice_type optional_type shown
check_slice n object start end = do
  t ← object
  from ← optional_type start
  to ← optional_type end
  if bad_index from
      then refuse_type n (slice_start (shown from))
      else if bad_index to
      then refuse_type n (slice_end (shown to))
      else slice_type n t

unfoldable pub check_cast : Node → Node → Check Ty → Check Ty
unfolding type_from_ast is_castable shown
check_cast n type m = do
  source ← m
  if is_castable (some source) (some (type_from_ast (at type)))
      then answer (type_from_ast (at type))
      else refuse_type n (cannot_cast (shown source) (shown (type_from_ast (at type))))
