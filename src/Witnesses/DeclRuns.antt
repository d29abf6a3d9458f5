-- ===== src/Witnesses/DeclRuns.antt =====
-- The theorems on the registration of declarations, at concrete declarations.
use apex_forge_night_script.Base.{
  ◌+◌, ◌≡◌, refl, ◌↔◌, true, false, none, some, List, [], ◌∷◌, ◌++◌, Bytes, codes, length, All, map,
  if◌then◌else◌,
}
use apex_forge_night_script.Ast.{
  Node, Nodes, Variants, node, null, at, none_left, next, no_variants, variant, type_named,
  enum_decl, struct_decl, interface_decl, impl_decl, fn_decl, let_stmt,
}
use apex_forge_night_script.Sema.Analyzer.{
  structs, empty_analyzer, is_name_in, register_global_name, push_named_decl, error_at,
  unknown_type,
}
use apex_forge_night_script.Sema.TypeNames.{
  Split, split_top_level_comma, validate_name_within, validate_type_name,
}
use apex_forge_night_script.Sema.TypeNames.Parts.{
  Part, part_end, part_byte, part_nest, inside_end, inside_byte, split_top_level_comma-Part,
}
use apex_forge_night_script.Sema.TypeNames.Splits.{validate_type_name-total}
use apex_forge_night_script.Sema.Register.{
  register_decl, and_check, check_signature, validate_fields, validate_enum_variants, variant_names,
  let_name, fn_name,
}
use apex_forge_night_script.Sema.Register.Tables.{
  Distinct, IsConsistent, with_global_name, entry, empty_analyzer-IsConsistent, register_decl_lem,
}
use apex_forge_night_script.Sema.Register.Members.{
  AllValid, validate_fields_iff, validate_enum_variants_iff,
}
use apex_forge_night_script.Sema.Register.Impl.{
  check_impl_satisfies_interface, check_impl_satisfies_interface_iff, interface_methods,
  impl_methods,
}
use apex_forge_night_script.Sema.Declare.{declare_all}
use apex_forge_night_script.Sema.Declare.Consistency.{declare_all-IsConsistent}

abbrev named_type : Bytes → Node
named_type name = node 1 8 (type_named name)

abbrev field_of : Bytes → Bytes → Node
field_of name type = node 1 5 (let_stmt name (at (named_type type)) null)

abbrev struct_of : Bytes → Nodes → Node
struct_of name fields = node 1 1 (struct_decl name none none_left fields true false)

abbrev method_of : Bytes → Node
method_of name = node 2 3 (fn_decl name none none none_left none_left null null false)

abbrev drawable : Node
drawable =
    node 1 1 (interface_decl (codes "Draw") none (next (method_of (codes "draw")) none_left) true)

abbrev box : Node
box = struct_of (codes "Box") (next (field_of (codes "side") (codes "i32")) none_left)

abbrev box_impl : Node
box_impl =
    node 4 1 (
      impl_decl (codes "Box") none (some (codes "Draw"))
        (next (method_of (codes "draw")) none_left))

abbrev program : List Node
program = drawable ∷ box ∷ box_impl ∷ []

declare_all-IsConsistent_example : IsConsistent (declare_all program)
declare_all-IsConsistent_example = declare_all-IsConsistent program

-- The declarations are accepted.
program_accepted : (declare_all program).had_error ≡ false
unfolding declare_all
program_accepted = refl

-- A field whose type is an interface: the types of fields are validated before interfaces are entered.
interface_field_refused :
    (declare_all (
      drawable
      ∷ struct_of (codes "Pen") (next (field_of (codes "target") (codes "Draw")) none_left)
      ∷ [])).errors
    ≡ error_at (named_type (codes "Draw")) (unknown_type (codes "Draw")) ∷ []
unfolding declare_all
interface_field_refused = refl

register_decl_lem_example : register_decl structs empty_analyzer (codes "Box") box ≡ (
    if is_name_in empty_analyzer.global_names (codes "Box")
    then register_global_name empty_analyzer (codes "Box") box
    else and_check
        (with_global_name empty_analyzer (codes "Box"))
        (check_signature structs (with_global_name empty_analyzer (codes "Box")) box)
        λ b. record { ok = true; after = push_named_decl structs b (entry (codes "Box") box) })
register_decl_lem_example =
    register_decl_lem structs empty_analyzer (codes "Box") box empty_analyzer-IsConsistent

abbrev two_fields : List Node
two_fields = field_of (codes "a") (codes "i32") ∷ field_of (codes "b") (codes "Option[u8]") ∷ []

abbrev colors : Variants
colors = variant (codes "Red") none_left (variant (codes "Blue") none_left no_variants)

validate_enum_variants_iff_example :
    (validate_enum_variants (node 1 1 (enum_decl (codes "Color") none colors true)) ≡ none)
    ↔ Distinct (variant_names colors)
validate_enum_variants_iff_example = validate_enum_variants_iff 1 1 (codes "Color") none colors true

validate_fields_iff_example :
    (validate_fields empty_analyzer two_fields (codes "struct") ≡ none)
    ↔ (Distinct (map let_name two_fields) × AllValid empty_analyzer two_fields)
validate_fields_iff_example = validate_fields_iff empty_analyzer two_fields (codes "struct")

two_fields_accepted : validate_fields empty_analyzer two_fields (codes "struct") ≡ none
unfolding validate_fields
two_fields_accepted = refl

abbrev colours : Variants
colours = variant (codes "Red") none_left (variant (codes "Red") none_left no_variants)

check_impl_satisfies_interface_iff_example :
    (check_impl_satisfies_interface box_impl drawable ≡ none)
    ↔ All
        (λ m. is_name_in (map fn_name (impl_methods box_impl)) (fn_name m) ≡ true)
        (interface_methods drawable)
check_impl_satisfies_interface_iff_example = check_impl_satisfies_interface_iff box_impl drawable

abbrev nested : Bytes
nested = codes "Result[a,b],c"

abbrev nested_split : Split
nested_split = record { left = codes "Result[a,b]"; right = codes "c" }

nested_run : split_top_level_comma nested ≡ some nested_split
unfolding split_top_level_comma
nested_run = refl

validate_type_name-total_example :
    validate_name_within (length nested + 1) empty_analyzer nested
    ≡ some (validate_type_name empty_analyzer nested)
validate_type_name-total_example = validate_type_name-total empty_analyzer nested

pair_is_Part : Part (codes "P[a,b]")
pair_is_Part = part_byte refl refl refl (
    part_nest (inside_byte refl refl (inside_byte refl refl (inside_byte refl refl inside_end)))
      part_end)

split_top_level_comma-Part_example :
    split_top_level_comma (codes "P[a,b]" ++ b',' ∷ codes "c")
    ≡ some (record { left = codes "P[a,b]"; right = codes "c" })
split_top_level_comma-Part_example = split_top_level_comma-Part (codes "c") pair_is_Part
