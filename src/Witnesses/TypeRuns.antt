-- ===== src/Witnesses/TypeRuns.antt =====
-- The theorems on the checker's types, scopes and visibility, at concrete inputs.
use apex_forge_night_script.Base.{
  ◌≡◌, ◌≢◌, refl, ◌↔◌, true, false, none, some, [], ◌∷◌, Bytes, codes, beq, if◌then◌else◌,
}
use apex_forge_night_script.Base.Int.{pos}
use apex_forge_night_script.Ast.{
  Node, MaybeNode, node, at, none_left, type_named, type_pointer, struct_decl,
}
use apex_forge_night_script.Typeck.Types.{
  Ty, plain, pointer, array, i32, u8, int_literal, type_equals, is_assignable, format_type, fit,
  type_from_name_text, type_from_ast,
}
use apex_forge_night_script.Typeck.Types.Equality.{Same, type_equals_iff}
use apex_forge_night_script.Typeck.Types.Casts.{Assignable, is_assignable_iff}
use apex_forge_night_script.Typeck.Types.Names.{format_type-type_from_name_text}
use apex_forge_night_script.Typeck.Scope.{
  Scope, Binding, scope_define, scope_resolve, scope_resolve-scope_define,
}
use apex_forge_night_script.Typeck.Visibility.{
  Checker, require_decl_visible, find_type_decl, ensure_type_visible, ensure_resolved_type_visible,
}
use apex_forge_night_script.Typeck.Visibility.Access.{
  Visible, maybe_base, reserved_base, require_decl_visible_iff, ensure_type_visible_iff,
  ensure_resolved_type_visible-type_from_ast,
}

abbrev pointer_to_i32 : Ty
pointer_to_i32 = pointer (plain i32) false true

type_equals_iff_example :
    (type_equals pointer_to_i32 (array (plain u8) (pos 4)) ≡ true)
    ↔ Same pointer_to_i32 (array (plain u8) (pos 4))
type_equals_iff_example = type_equals_iff pointer_to_i32 (array (plain u8) (pos 4))

is_assignable_iff_example :
    (is_assignable (some (plain u8)) (some (plain int_literal)) ≡ true)
    ↔ Assignable (plain u8) (plain int_literal)
is_assignable_iff_example = is_assignable_iff (plain u8) (plain int_literal)

literal_fits : is_assignable (some (plain u8)) (some (plain int_literal)) ≡ true
unfolding is_assignable
literal_fits = refl

format_type-type_from_name_text_example :
    format_type (type_from_name_text (codes "u8")) 128 ≡ fit 128 (codes "u8")
format_type-type_from_name_text_example = format_type-type_from_name_text (codes "u8") 128

abbrev bound : Bytes → Binding
bound name = record { name = name; type = some (plain i32); mutable = true }

abbrev outer_scope : Scope
outer_scope = bound (codes "x") ∷ []

y_defined : scope_define [] (codes "y") (some (plain i32)) true ≡ some (bound (codes "y") ∷ [])
unfolding scope_define
y_defined = refl

scope_resolve-scope_define_example :
    scope_resolve ((bound (codes "y") ∷ []) ∷ outer_scope ∷ []) (codes "x") ≡ (
      if beq (codes "y") (codes "x")
      then some (record { name = codes "y"; type = some (plain i32); mutable = true })
      else scope_resolve ([] ∷ outer_scope ∷ []) (codes "x"))
scope_resolve-scope_define_example =
    scope_resolve-scope_define [] (bound (codes "y") ∷ []) (outer_scope ∷ []) (codes "y")
      (codes "x") (some (plain i32)) true y_defined

-- A private struct of the package `shapes`.
abbrev private_struct : Node
private_struct =
    node 3 1 (struct_decl (codes "Box") (some (codes "shapes")) none_left none_left false false)

abbrev from_main : Checker
from_main = record {
  sema = record {
    functions = [];
    extern_functions = [];
    structs = private_struct ∷ [];
    enums = [];
    unions = [];
    impls = [];
  };
  current_package = some (codes "main");
}

abbrev pointer_to_box : MaybeNode
pointer_to_box = at (node 9 2 (type_pointer (node 9 3 (type_named (codes "Box"))) false false))

require_decl_visible_iff_example :
    (require_decl_visible from_main private_struct 9 2 (codes "Box") ≡ none)
    ↔ Visible from_main private_struct
require_decl_visible_iff_example =
    require_decl_visible_iff from_main private_struct 9 2 (codes "Box")

box_is_refused : ensure_type_visible from_main pointer_to_box 9 2 ≢ none
unfolding ensure_type_visible
box_is_refused h = cc

ensure_type_visible_iff_example : (ensure_type_visible from_main pointer_to_box 9 2 ≡ none) ↔ (
    (name : Bytes) (d : Node)
    → maybe_base pointer_to_box ≡ some name
    → find_type_decl from_main.sema name ≡ some d
    → Visible from_main d)
ensure_type_visible_iff_example = ensure_type_visible_iff from_main pointer_to_box 9 2

ensure_resolved_type_visible-type_from_ast_example :
    ensure_resolved_type_visible from_main (type_from_ast pointer_to_box) 9 2 ≡ (
      if reserved_base pointer_to_box
      then none
      else ensure_type_visible from_main pointer_to_box 9 2)
ensure_resolved_type_visible-type_from_ast_example =
    ensure_resolved_type_visible-type_from_ast from_main pointer_to_box 9 2
