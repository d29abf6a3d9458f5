-- ===== src/Typeck/Exprs/Constructors.antt =====
-- Constructors that take their type from the context, arguments and the operator `?`:
-- compiler/src/typeck/typeck.c, lines 708-783, 860-932 and 984-1039.
pub mod Arguments
use apex_forge_night_script.Base.{
  ℕ, ◌-◌, Bool, true, false, ◌&&◌, not, ◌==◌, Option, none, some, List, [], ◌∷◌, Bytes, codes, beq,
  length, if◌then◌else◌, case_option, case_list,
}
use apex_forge_night_script.Ast.{Node, Nodes, node, ident, call}
use apex_forge_night_script.Sema.TypeNames.{Split}
use apex_forge_night_script.Sema.Register.{let_type}
use apex_forge_night_script.Typeck.Types.{
  Ty, plain, named, pointer, is_assignable, type_equals, type_from_name_text, type_from_ast,
}
use apex_forge_night_script.Typeck.Check.{
  CheckMessage, Check, answer, ◌>>=◌, ◌>>◌, refuse_type, refuse_with, error_type, shown,
  constructor_arguments, value_mismatch, try_outside_function, try_needs_option, try_needs_result,
  try_error_mismatch, try_operand, expected_arguments, argument_mismatch, receiver_not_addressable,
  receiver_mismatch,
}
use apex_forge_night_script.Typeck.Check.Context.{
  Context, is_option_type, is_result_type, option_inner_type, result_inner_names,
  is_option_constructor_expr, is_result_constructor_expr, is_ident_named, is_addressable,
}

-- An expression with its check, and the checks of its arguments where it is a call.
pub record Operand : Type 0 where
  pub node : Node
  pub type : Check Ty
  pub arguments : List (Check Ty)

abbrev constructor_name : Node → Bytes
constructor_name (node l c (call (node l' c' (ident name)) args)) = name
constructor_name _ = []

-- The argument of a constructor whose value is of type `inner`.
unfoldable pub constructor_of : Bytes → Node → Ty → Ty → List (Check Ty) → Check Ty
unfolding shown is_assignable
constructor_of name n expected inner (m ∷ []) = do
  actual ← m
  if is_assignable (some inner) (some actual)
      then answer expected
      else refuse_type n (value_mismatch name (shown inner) (shown actual))
constructor_of name n expected inner ms = refuse_type n (constructor_arguments name (length ms))

unfoldable pub result_constructor : Node → Ty → List (Check Ty) → Check Ty
unfolding constructor_of result_inner_names type_from_name_text
result_constructor n expected ms =
    let name = constructor_name n in
    if length ms == 1
    then case_option (result_inner_names expected) (answer error_type) (λ s.
      constructor_of name n expected
        (type_from_name_text (if beq name (codes "Ok") then s.left else s.right)) ms)
    else refuse_type n (constructor_arguments name (length ms))

-- `none` is the answer 0: the expression is checked without the context.
unfoldable pub check_contextual_constructor : Ty → Operand → Option (Check Ty)
unfolding constructor_of result_constructor is_option_type is_result_type option_inner_type
check_contextual_constructor expected x =
    if is_option_type expected && is_option_constructor_expr x.node
    then some (
        if is_ident_named (codes "None") x.node
        then answer expected
        else constructor_of (codes "Some") x.node expected (option_inner_type expected) x.arguments)
    else if is_result_type expected && is_result_constructor_expr x.node
    then some (result_constructor x.node expected x.arguments)
    else none

-- The check of a value where a type is expected.
unfoldable pub check_in_context : Ty → Operand → Check Ty
unfolding check_contextual_constructor
check_in_context expected x = case_option (check_contextual_constructor expected x) x.type λ m. m

-- The loop over the arguments; the parameters are as many.
unfoldable pub argument_loop : List Node → List Operand → Check Bool
unfolding type_from_ast check_in_context is_assignable shown
argument_loop (p ∷ ps) (x ∷ xs) =
    let rest = argument_loop ps xs in
    let expected = type_from_ast (let_type p) in
    do
      actual ← check_in_context expected x
      if is_assignable (some expected) (some actual)
          then rest
          else refuse_with false x.node (argument_mismatch (shown expected) (shown actual))
argument_loop _ _ = answer true

-- `params` are those from the start index on, and `n` the call.
unfoldable pub check_call_arguments : Node → List Node → List Operand → Check Bool
unfolding argument_loop
check_call_arguments n params xs =
    if length xs == length params
    then argument_loop params xs
    else refuse_with false n (expected_arguments (length params) (length xs))

abbrev points_at : Ty → Ty → Bool
points_at (pointer inner c n) (named name) = type_equals inner (named name)
points_at _ _ = false

unfoldable pub check_receiver : Ty → Ty → Node → Check Bool
unfolding is_assignable points_at shown
check_receiver expected actual receiver =
    if is_assignable (some expected) (some actual)
    then answer true
    else if points_at expected actual
    then if is_addressable receiver
      then answer true
      else refuse_with false receiver receiver_not_addressable
    else refuse_with false receiver (receiver_mismatch (shown expected) (shown actual))

-- `?` on an Option, in a function that returns `ret`.
unfoldable pub try_option : Node → Ty → Ty → Check Ty
unfolding is_option_type option_inner_type shown
try_option n ret operand =
    if is_option_type ret
    then answer (option_inner_type operand)
    else refuse_type n (try_needs_option (shown ret))

abbrev try_errors : Node → Split → Split → Check Ty
try_errors n s r =
    let err = type_from_name_text s.right in
    let ret_err = type_from_name_text r.right in
    if is_assignable (some ret_err) (some err) && is_assignable (some err) (some ret_err)
    then answer (type_from_name_text s.left)
    else refuse_type n (try_error_mismatch (shown ret_err) (shown err))

unfoldable pub try_result : Node → Ty → Ty → Check Ty
unfolding is_result_type result_inner_names try_errors shown
try_result n ret operand =
    if is_result_type ret
    then case_option (result_inner_names operand) (answer error_type)
        (λ s. case_option (result_inner_names ret) (answer error_type) λ r. try_errors n s r)
    else refuse_type n (try_needs_result (shown ret))

unfoldable pub check_try_expr : Context → Node → Check Ty → Check Ty
unfolding try_option try_result is_option_type is_result_type shown
check_try_expr e n m = case_option e.current_return_type (refuse_type n try_outside_function) λ ret.
    do
      operand ← m
      if is_option_type operand
          then try_option n ret operand
          else if is_result_type operand
          then try_result n ret operand
          else refuse_type n (try_operand (shown operand))
