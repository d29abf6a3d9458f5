-- ===== src/Typeck/Exprs/Literals.antt =====
-- Literals of structs and unions: compiler/src/typeck/typeck.c, lines 2084-2139.
use apex_forge_night_script.Base.{◌==◌, some, List, [], ◌∷◌, Bytes, if◌then◌else◌, case_option}
use apex_forge_night_script.Ast.{Node, line_of, col_of}
use apex_forge_night_script.Sema.TypeNames.{last_byte}
use apex_forge_night_script.Sema.Register.{let_type}
use apex_forge_night_script.Typeck.Types.{Ty, named, is_assignable, type_from_ast}
use apex_forge_night_script.Typeck.Visibility.{require_decl_visible}
use apex_forge_night_script.Typeck.Check.{
  Check, answer, ◌>>=◌, ◌>>◌, refuse_type, when_visible, error_type, shown, field_value_mismatch,
}
use apex_forge_night_script.Typeck.Check.Context.{Context, composite_field}
use apex_forge_night_script.Typeck.Exprs.Fields.{find_composite_decl, generic_base}

-- A field of a literal, with the check of its value.
pub record FieldValue : Type 0 where
  pub name : Bytes
  pub node : Node
  pub type : Check Ty

-- The values of a generic struct are not compared with its fields.
unfoldable pub check_values : Ty → List FieldValue → Check Ty
check_values t [] = answer t
check_values t (v ∷ vs) = v.type >> check_values t vs

-- The value of a field with the type that is declared.
unfoldable pub check_value : Ty → FieldValue → Check Ty → Check Ty
unfolding is_assignable shown
check_value expected v rest = do
  actual ← v.type
  if is_assignable (some expected) (some actual)
      then rest
      else refuse_type v.node (field_value_mismatch v.name (shown actual) (shown expected))

unfoldable pub check_field_values : Context → Node → Bytes → Node → List FieldValue → Check Ty
unfolding require_decl_visible composite_field type_from_ast check_value
check_field_values e n name decl [] = answer (named name)
check_field_values e n name decl (v ∷ vs) =
    let rest = check_field_values e n name decl vs in
    when_visible error_type (require_decl_visible e.checker decl (line_of n) (col_of n) name) (
      case_option (composite_field decl v.name) (answer error_type)
        λ f. check_value (type_from_ast (let_type f)) v rest)

unfoldable pub check_struct_lit : Context → Node → Bytes → List FieldValue → Check Ty
unfolding find_composite_decl generic_base check_values check_field_values
check_struct_lit e n name vs =
    case_option (find_composite_decl e name)
      (if last_byte name == b']'
        then case_option (generic_base e name) (answer error_type)
            (λ d. check_values (named name) vs)
        else answer error_type)
      λ decl. check_field_values e n name decl vs
