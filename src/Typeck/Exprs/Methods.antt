-- ===== src/Typeck/Exprs/Methods.antt =====
-- Calls of selections: compiler/src/typeck/typeck.c, lines 1633-1828.
use apex_forge_night_script.Base.{
  Bool, true, false, ◌||◌, ◌&&◌, not, ◌==◌, Option, none, some, List, [], ◌∷◌, Bytes, codes, beq,
  length, drop, if◌then◌else◌, case_option, case_list,
}
use apex_forge_night_script.Ast.{Node, line_of, col_of}
use apex_forge_night_script.Sema.Register.{let_type, fn_params, fn_ret_type}
use apex_forge_night_script.Typeck.Types.{
  Ty, plain, named, pointer, PlainKind, void, i32, f64, str, cstr, BuiltinType, find_builtin,
  is_assignable, type_from_ast,
}
use apex_forge_night_script.Typeck.Visibility.{find_method_decl, require_decl_visible}
use apex_forge_night_script.Typeck.Check.{
  Check, answer, ◌>>=◌, ◌>>◌, refuse_type, when_visible, error_type, shown, is_any_of, check_each,
  string_arguments, string_from_operand, string_free_receiver, enum_arguments,
  enum_argument_mismatch, associated_function,
}
use apex_forge_night_script.Typeck.Check.Context.{
  Context, is_string, is_addressable, enum_variant_fields, method_has_receiver, visible_type,
}
use apex_forge_night_script.Typeck.Exprs.Constructors.{
  Operand, check_call_arguments, check_receiver,
}
use apex_forge_night_script.Typeck.Exprs.Fields.{enum_with_variant, owner_name}

abbrev pub operand_types : List Operand → List (Check Ty)
operand_types [] = []
operand_types (x ∷ xs) = x.type ∷ operand_types xs

abbrev method_entry : Bytes → PlainKind → BuiltinType
method_entry s k = record { name = s; kind = k }

unfoldable pub stdin_methods : List BuiltinType
stdin_methods =
    method_entry (codes "read_line") cstr
    ∷ method_entry (codes "read_int") i32
    ∷ method_entry (codes "read_f64") f64
    ∷ []

-- Methods of the stream objects.
unfoldable pub stream_call : Bytes → Bytes → List Operand → Option (Check Ty)
unfolding is_any_of find_builtin stdin_methods check_each
stream_call base name xs =
    let output = is_any_of ("stdout" ∷ "stderr" ∷ []) base in
    if output && beq name (codes "flush")
    then some (answer (plain void))
    else if output && beq name (codes "write")
    then some (check_each (operand_types xs) >> answer (plain void))
    else if beq base (codes "stdin")
    then case_option (find_builtin stdin_methods name) none (λ k. some (answer (plain k)))
    else none

unfoldable pub string_from : Node → List Operand → Check Ty
unfolding is_assignable shown
string_from n (x ∷ []) = do
  t ← x.type
  if is_assignable (some (plain str)) (some t) || is_assignable (some (plain cstr)) (some t)
      then answer (named (codes "String"))
      else refuse_type x.node (string_from_operand (shown t))
string_from n xs = refuse_type n (string_arguments (codes "from") 1 (length xs))

-- The loop over the arguments of an enum's constructor; the fields are as many.
unfoldable pub variant_arguments : Bytes → List Node → List Operand → Check Ty
unfolding type_from_ast is_assignable shown
variant_arguments enum (f ∷ fs) (x ∷ xs) =
    let rest = variant_arguments enum fs xs in
    let expected = type_from_ast (let_type f) in
    do
      actual ← x.type
      if is_assignable (some expected) (some actual)
          then rest
          else refuse_type x.node (enum_argument_mismatch (shown expected) (shown actual))
variant_arguments enum _ _ = answer (named enum)

unfoldable pub enum_constructor : Context → Node → Bytes → Bytes → List Operand → Node → Check Ty
unfolding require_decl_visible enum_variant_fields variant_arguments
enum_constructor e n enum name xs decl =
    let fields = case_option (enum_variant_fields decl name) [] λ fs. fs in
    when_visible error_type (require_decl_visible e.checker decl (line_of n) (col_of n) enum) (
      if length xs == length fields
      then variant_arguments enum fields xs
      else refuse_type n (enum_arguments enum name (length fields) (length xs)))

-- The arguments, and then the declared type.
unfoldable pub call_declared : Context → Node → Node → List Node → List Operand → Check Ty
unfolding check_call_arguments type_from_ast visible_type
call_declared e n decl params xs = do
  good ← check_call_arguments n params xs
  if good
      then visible_type e (line_of n) (col_of n) (type_from_ast (fn_ret_type decl))
      else answer error_type

-- `Type.method(args...)`, with the receiver as its first argument.
unfoldable pub static_method : Context → Node → Bytes → List Operand → Node → Check Ty
unfolding require_decl_visible call_declared
static_method e n name xs m =
    when_visible error_type (require_decl_visible e.checker m (line_of n) (col_of n) name)
      (call_declared e n m (fn_params m) xs)

-- A call that the name before the dot decides.
unfoldable pub static_call : Context → Node → Bytes → Bytes → List Operand → Option (Check Ty)
unfolding stream_call string_from enum_with_variant enum_constructor find_method_decl static_method
static_call e n base name xs =
    case_option (stream_call base name xs)
      (if beq base (codes "String") && beq name (codes "from")
        then some (string_from n xs)
        else case_option (enum_with_variant e base name)
            (case_option (find_method_decl e.checker.sema base name) none
              λ m. some (static_method e n name xs m))
            λ d. some (enum_constructor e n base name xs d))
      some

-- `free` and `as_str` of a String; `direct` if the object is the String itself, and no pointer.
unfoldable pub string_method : Node → Node → Bool → Bytes → List Operand → Option (Check Ty)
string_method n object direct name xs =
    if beq name (codes "free")
    then some (
        if not (length xs == 0)
        then refuse_type n (string_arguments name 0 (length xs))
        else if direct && not (is_addressable object)
        then refuse_type object string_free_receiver
        else answer (plain void))
    else if beq name (codes "as_str")
    then some (
        if not (length xs == 0)
        then refuse_type n (string_arguments name 0 (length xs))
        else answer (plain str))
    else none

abbrev points_at_string : Ty → Bool
points_at_string (pointer t c nul) = is_string t
points_at_string _ = false

unfoldable pub builtin_method : Node → Node → Ty → Bytes → List Operand → Option (Check Ty)
unfolding string_method
builtin_method n object t name xs =
    if is_string t
    then string_method n object true name xs
    else if points_at_string t
    then string_method n object false name xs
    else none

-- The method on an object of type `t`.
unfoldable pub instance_method :
    Context → Node → Node → Node → Ty → Bytes → Bytes → List Operand → Node → Check Ty
unfolding require_decl_visible type_from_ast check_receiver call_declared
instance_method e n callee object t owner name xs m =
    let receiver = case_list (fn_params m) error_type λ p ps. type_from_ast (let_type p) in
    when_visible error_type (require_decl_visible e.checker m (line_of n) (col_of n) name) (
      if method_has_receiver m
      then (do
        good ← check_receiver receiver t object
        if good then call_declared e n m (drop 1 (fn_params m)) xs else answer error_type)
      else refuse_type callee (associated_function owner name))

-- A call on an object of type `t`; `otherwise` if it has no such method.
unfoldable pub method_call :
    Context → Node → Node → Node → Ty → Bytes → List Operand → Check Ty → Check Ty
unfolding builtin_method find_method_decl instance_method
method_call e n callee object t name xs otherwise =
    case_option (builtin_method n object t name xs)
      (case_option (owner_name t) otherwise λ owner.
        case_option (find_method_decl e.checker.sema owner name) otherwise
          λ m. instance_method e n callee object t owner name xs m)
      λ k. k
