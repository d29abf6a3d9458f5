-- ===== src/Typeck/Exprs/Calls.antt =====
-- Calls: compiler/src/typeck/typeck.c, lines 1583-1632 and 1830-1917.
use apex_forge_night_script.Base.{
  Bool, false, Option, none, some, List, [], ◌∷◌, ◌++◌, Bytes, String, codes, beq, if◌then◌else◌,
  case_option,
}
use apex_forge_night_script.Ast.{
  Node, MaybeNode, node, null, at, next, ident, field, index_expr, type_named, fn_decl, impl_decl,
}
use apex_forge_night_script.Sema.Register.{fn_params, is_named}
use apex_forge_night_script.Typeck.Types.{
  Ty, plain, named, function, PlainKind, void, i32, u8, u16, u32, f64, cstr, BuiltinType,
  find_builtin, type_from_name_text, fit,
}
use apex_forge_night_script.Typeck.Check.{
  Check, answer, ◌>>=◌, ◌>>◌, refuse_type, shown, is_any_of, check_each,
  constructor_without_context, not_callable,
}
use apex_forge_night_script.Typeck.Check.Context.{Context}
use apex_forge_night_script.Typeck.Exprs.Constructors.{Operand}
use apex_forge_night_script.Typeck.Exprs.Methods.{
  operand_types, static_call, method_call, call_declared,
}
use apex_forge_night_script.Typeck.Exprs.Fields.{type_param_name}

abbrev pub printing_names : List String
printing_names =
    "print" ∷ "println" ∷ "eprint" ∷ "eprintln" ∷ "print_int" ∷ "print_long" ∷ "print_uint"
    ∷ "print_ulong" ∷ "print_f32" ∷ "print_f64" ∷ "print_bool" ∷ "print_char" ∷ "flush" ∷ []

abbrev call_entry : String → PlainKind → BuiltinType
call_entry s k = record { name = codes s; kind = k }

-- The calls whose arguments are not looked at.
unfoldable pub builtin_calls : List BuiltinType
builtin_calls =
    call_entry "input" cstr
    ∷ call_entry "read_int" i32
    ∷ call_entry "read_long" i32
    ∷ call_entry "read_uint" u32
    ∷ call_entry "read_f64" f64
    ∷ call_entry "asm" void
    ∷ call_entry "outb" void
    ∷ call_entry "outw" void
    ∷ call_entry "outl" void
    ∷ call_entry "io_wait" void
    ∷ call_entry "inb" u8
    ∷ call_entry "inw" u16
    ∷ call_entry "inl" u32
    ∷ []

-- A call that the name alone decides.
unfoldable pub builtin_call : Node → Bytes → List Operand → Option (Check Ty)
unfolding is_any_of find_builtin builtin_calls check_each
builtin_call n name xs =
    if is_any_of ("Some" ∷ "Ok" ∷ "Err" ∷ []) name
    then some (refuse_type n (constructor_without_context name))
    else if is_any_of printing_names name
    then some (check_each (operand_types xs) >> answer (plain void))
    else case_option (find_builtin builtin_calls name) none λ k. some (answer (plain k))

abbrev coercion_name : Bytes → Bytes → Bytes
coercion_name target interface = fit 256 (target ++ (codes "_as_" ++ interface))

-- The interface of the first implementation whose coercion has that name.
unfoldable pub find_coercion : List Node → Bytes → Option Bytes
find_coercion [] name = none
find_coercion (node l c (impl_decl target p (some i) methods) ∷ ds) name =
    let rest = find_coercion ds name in if beq name (coercion_name target i) then some i else rest
find_coercion (_ ∷ ds) name = find_coercion ds name

-- What the generic call reads of a template: its first type parameter, and the type it returns.
pub record Template : Type 0 where
  pub param : Bytes
  pub ret_type : MaybeNode

unfoldable pub find_template : List Node → Bytes → Option Template
find_template [] name = none
find_template (node l c (fn_decl s o p (next t ts) ps r b pub') ∷ ds) name =
    let rest = find_template ds name in
    if beq s name then some (record { param = type_param_name t; ret_type = r }) else rest
find_template (_ ∷ ds) name = find_template ds name

abbrev argument_name : Node → Option Bytes
argument_name (node l c (ident name)) = some name
argument_name (node l c (type_named name)) = some name
argument_name _ = none

abbrev is_returned : Template → Bool
is_returned t = elim t.ret_type [ null ↦ false | at r ↦ is_named t.param r ]

-- The type argument if the template returns its parameter, and void otherwise.
unfoldable pub template_result : Template → Node → Ty
unfolding type_from_name_text
template_result t argument =
    if is_returned t
    then case_option (argument_name argument) (plain void) type_from_name_text
    else plain void

unfoldable pub generic_call : Context → Node → Node → List Operand → Option (Check Ty)
unfolding find_template template_result check_each
generic_call e (node l c (ident name)) argument xs =
    case_option (find_template e.decls name) none
      λ t. some (check_each (operand_types xs) >> answer (template_result t argument))
generic_call e _ argument xs = none

-- A call of a value.
unfoldable pub value_call : Context → Node → Ty → List Operand → Check Ty
unfolding call_declared shown
value_call e n (function d) xs = call_declared e n d.decl (fn_params d.decl) xs
value_call e n t xs = refuse_type n (not_callable (shown t))

unfoldable pub check_value_call : Context → Node → Check Ty → List Operand → Check Ty
unfolding value_call
check_value_call e n m xs = do t ← m; value_call e n t xs

unfoldable pub named_call : Context → Node → Bytes → Check Ty → List Operand → Check Ty
unfolding builtin_call find_coercion check_value_call check_each
named_call e n name m xs =
    case_option (builtin_call n name xs)
      (case_option (find_coercion e.decls name) (check_value_call e n m xs)
        λ i. check_each (operand_types xs) >> answer (named i))
      λ k. k

unfoldable pub static_base : Context → Node → Node → Bytes → List Operand → Option (Check Ty)
unfolding static_call
static_base e n (node l c (ident base)) name xs = static_call e n base name xs
static_base e n object name xs = none

-- `object` is the check of the object of the callee, if it is a selection.
unfoldable pub check_call : Context → Node → Node → Check Ty → Check Ty → List Operand → Check Ty
unfolding static_base method_call check_value_call named_call generic_call
check_call e n (node l c (ident name)) object m xs = named_call e n name m xs
check_call e n (node l c (field base name)) object m xs =
    case_option (static_base e n base name xs)
      (do
        t ← object
        method_call e n (node l c (field base name)) base t name xs (check_value_call e n m xs))
      λ k. k
check_call e n (node l c (index_expr template argument)) object m xs =
    case_option (generic_call e template argument xs) (check_value_call e n m xs) λ k. k
check_call e n callee object m xs = check_value_call e n m xs
