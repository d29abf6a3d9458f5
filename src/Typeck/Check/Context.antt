-- ===== src/Typeck/Check/Context.antt =====
-- The context of a check, and what it computes of types without a report:
-- compiler/src/typeck/typeck.c, lines 69-77, 162-170, 406-413, 651-706, 934-982 and 1314-1326.
use apex_forge_night_script.Base.{
  ℕ, Bool, true, false, ◌||◌, ◌==◌, Option, none, some, List, [], ◌∷◌, Bytes, codes, beq,
  if◌then◌else◌, case_list,
}
use apex_forge_night_script.Ast.{
  Node, Variants, node, null, at, items, ident, field, index_expr, slice_expr, unary, call,
  enum_decl, no_variants, variant, const_stmt,
}
use apex_forge_night_script.Sema.TypeNames.{
  type_name_has_form, inner_name, Split, split_top_level_comma,
}
use apex_forge_night_script.Sema.Register.{let_name, fn_params}
use apex_forge_night_script.Sema.Symbols.{composite_fields}
use apex_forge_night_script.Typeck.Types.{Ty, named, function, type_from_name_text, type_from_ast}
use apex_forge_night_script.Typeck.Visibility.{
  Checker, find_named_node, of_enum, ensure_resolved_type_visible,
}
use apex_forge_night_script.Typeck.Check.{Check, answer, when_visible, error_type}

-- `check_const` is the check of an untyped constant's value, in no scope; `address` tells the nodes of
-- declarations apart.
pub record Context : Type 0 where
  pub checker : Checker
  pub decls : List Node
  pub current_return_type : Option Ty
  pub address : Node → ℕ
  pub check_const : ℕ → Node → Check Ty

abbrev pub make_function_type : Context → Node → Ty
make_function_type e n = function (record { address = e.address n; decl = n })

abbrev pub is_string : Ty → Bool
is_string (named name) = beq name (codes "String")
is_string _ = false

unfoldable pub is_option_type : Ty → Bool
unfolding type_name_has_form
is_option_type (named name) = type_name_has_form name (codes "Option")
is_option_type _ = false

unfoldable pub is_result_type : Ty → Bool
unfolding type_name_has_form
is_result_type (named name) = type_name_has_form name (codes "Result")
is_result_type _ = false

abbrev type_name : Ty → Bytes
type_name (named name) = name
type_name _ = []

unfoldable pub option_inner_type : Ty → Ty
unfolding type_from_name_text
option_inner_type t = type_from_name_text (inner_name (type_name t))

unfoldable pub result_inner_names : Ty → Option Split
unfolding is_result_type split_top_level_comma
result_inner_names t =
    if is_result_type t then split_top_level_comma (inner_name (type_name t)) else none

abbrev pub is_ident_named : Bytes → Node → Bool
is_ident_named name (node l c (ident s)) = beq s name
is_ident_named name _ = false

abbrev pub is_option_constructor_expr : Node → Bool
is_option_constructor_expr (node l c (ident s)) = beq s (codes "None")
is_option_constructor_expr (node l c (call callee args)) = is_ident_named (codes "Some") callee
is_option_constructor_expr _ = false

abbrev pub is_result_constructor_expr : Node → Bool
is_result_constructor_expr (node l c (call callee args)) =
    is_ident_named (codes "Ok") callee || is_ident_named (codes "Err") callee
is_result_constructor_expr _ = false

abbrev pub is_addressable : Node → Bool
is_addressable (node l c (ident s)) = true
is_addressable (node l c (field e name)) = true
is_addressable (node l c (index_expr e i)) = true
is_addressable (node l c (slice_expr e from to)) = true
is_addressable (node l c (unary op e)) = case_list op false λ b bs. b == b'*'
is_addressable _ = false

unfoldable pub find_field : List Node → Bytes → Option Node
find_field [] name = none
find_field (f ∷ fs) name = if beq (let_name f) name then some f else find_field fs name

-- `composite_has_field` with the field that it finds.
unfoldable pub composite_field : Node → Bytes → Option Node
unfolding find_field
composite_field decl name = find_field (composite_fields decl) name

-- `enum_has_variant`, `enum_variant_index` and `enum_variant_fields`: the fields of the first variant of
-- that name, if there is one.
unfoldable pub fields_of_variant : Variants → Bytes → Option (List Node)
fields_of_variant no_variants name = none
fields_of_variant (variant v fields vs) name =
    if beq v name then some (items fields) else fields_of_variant vs name

unfoldable pub enum_variant_fields : Node → Bytes → Option (List Node)
unfolding fields_of_variant
enum_variant_fields (node l c (enum_decl name p vs pub')) wanted = fields_of_variant vs wanted
enum_variant_fields _ wanted = none

unfoldable pub find_enum : Context → Bytes → Option Node
unfolding find_named_node
find_enum e name = find_named_node e.checker.sema.enums name of_enum

abbrev pub method_has_receiver : Node → Bool
method_has_receiver n = case_list (fn_params n) false λ p ps. beq (let_name p) (codes "self")

-- The declared type of a top-level constant, or its value's.
unfoldable pub const_type : Context → ℕ → List Node → Bytes → Check Ty
unfolding type_from_ast
const_type e u [] name = answer error_type
const_type e u (node l c (const_stmt s type value) ∷ ds) name =
    let rest = const_type e u ds name in
    if beq s name
    then elim type [ null ↦ e.check_const u value | at t ↦ answer (type_from_ast (at t)) ]
    else rest
const_type e u (_ ∷ ds) name = const_type e u ds name

-- A type whose declaration must be visible at `n`.
unfoldable pub visible_type : Context → ℕ → ℕ → Ty → Check Ty
unfolding ensure_resolved_type_visible
visible_type e line col t =
    when_visible error_type (ensure_resolved_type_visible e.checker t line col) (answer t)
