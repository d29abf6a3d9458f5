-- ===== src/Typeck/Exprs/Fields.antt =====
-- Selections: compiler/src/typeck/typeck.c, lines 1933-2082. The name of a generic field's type is the text
-- of the type argument, which the code keeps in a buffer of the function.
pub mod Access
use apex_forge_night_script.Base.{
  ℕ, ◌-◌, Bool, true, false, ◌||◌, ◌&&◌, not, ◌==◌, Option, none, some, List, [], ◌∷◌, Bytes, codes,
  beq, ltb, length, drop, take, map, if◌then◌else◌, case_option,
}
use apex_forge_night_script.Base.Int.{ℤ, pos, negsuc}
use apex_forge_night_script.Ast.{
  Node, MaybeNode, node, null, at, items, line_of, col_of, ident, type_named, struct_decl,
  union_decl,
}
use apex_forge_night_script.Sema.Analyzer.{is_name_in}
use apex_forge_night_script.Sema.TypeNames.{before_bracket, last_byte}
use apex_forge_night_script.Sema.Register.{let_type}
use apex_forge_night_script.Typeck.Types.{
  Ty, plain, named, pointer, array, function, u8, usize, str, is_plain, type_from_ast,
  type_from_name_text,
}
use apex_forge_night_script.Typeck.Visibility.{
  find_named_node, of_struct, of_union, find_method_decl, require_decl_visible,
}
use apex_forge_night_script.Typeck.Check.{
  Check, answer, ◌>>=◌, refuse_type, when_visible, error_type, shown, unknown_field, no_field,
  union_outside_unsafe,
}
use apex_forge_night_script.Typeck.Check.Context.{
  Context, is_string, make_function_type, composite_field, enum_variant_fields, find_enum,
  visible_type,
}

-- What is behind the first `[` of a name, without its last byte.
abbrev argument_text : Bytes → Bytes → Bytes
argument_text base name = take (length name - length base - 2) (drop (length base) (drop 1 name))

-- The struct of a generic type such as `Pair[i32]`.
unfoldable pub generic_base : Context → Bytes → Option Node
unfolding before_bracket find_named_node
generic_base e name = case_option (before_bracket name) none λ base.
    if ltb (length base) 256 then find_named_node e.checker.sema.structs base of_struct else none

unfoldable pub find_composite_decl : Context → Bytes → Option Node
unfolding find_named_node
find_composite_decl e name =
    case_option (find_named_node e.checker.sema.structs name of_struct)
      (find_named_node e.checker.sema.unions name of_union) some

unfoldable pub find_owner : Context → Bytes → Option Node
unfolding find_composite_decl generic_base
find_owner e owner = case_option (find_composite_decl e owner) (generic_base e owner) some

abbrev pub type_param_name : Node → Bytes
type_param_name (node l c (type_named name)) = name
type_param_name _ = []

abbrev struct_params : Node → List Bytes
struct_params (node l c (struct_decl name p t fs pub' packed)) = map type_param_name (items t)
struct_params _ = []

abbrev pub is_union : Node → Bool
is_union (node l c (union_decl name p fs pub')) = true
is_union _ = false

-- The type argument, where the field's type is a parameter of the struct.
unfoldable pub substituted : Node → Bytes → MaybeNode → Option Bytes
unfolding is_name_in before_bracket
substituted decl owner (at (node l c (type_named name))) =
    case_option (before_bracket owner) none λ base.
      let text = argument_text base owner in
      if is_name_in (struct_params decl) name && last_byte owner == b']' && ltb (length text) 256
      then some text
      else none
substituted decl owner _ = none

unfoldable pub field_type : Context → Node → Node → Bytes → Node → Check Ty
unfolding substituted type_from_ast type_from_name_text visible_type
field_type e n decl owner f =
    case_option (substituted decl owner (let_type f))
      (visible_type e (line_of n) (col_of n) (type_from_ast (let_type f)))
      λ text. answer (type_from_name_text text)

-- The selection from a struct or a union.
unfoldable pub composite_field_type : Context → ℕ → Node → Bytes → Bytes → Node → Check Ty
unfolding composite_field field_type
composite_field_type e u n owner name decl =
    if is_union decl && u == 0
    then refuse_type n union_outside_unsafe
    else case_option (composite_field decl name) (refuse_type n (unknown_field name owner))
        λ f. field_type e n decl owner f

-- The fields that a type has of itself, with the name that an error shows.
unfoldable pub builtin_field : Ty → Bytes → Option (Bytes × Option Ty)
builtin_field (array t (negsuc i)) name = some (
  codes "slice type",
  (if beq name (codes "len")
      then some (plain usize)
      else if beq name (codes "ptr")
      then some (pointer t false false)
      else none),
)
builtin_field (plain k) name =
    if is_plain str (plain k)
    then some (
      codes "str",
      (if beq name (codes "len")
          then some (plain usize)
          else if beq name (codes "ptr")
          then some (pointer (plain u8) true false)
          else none),
    )
    else none
builtin_field (named s) name =
    if beq s (codes "String")
    then some (
      codes "String",
      (if beq name (codes "len") || beq name (codes "cap")
          then some (plain usize)
          else if beq name (codes "ptr")
          then some (pointer (plain u8) false false)
          else none),
    )
    else none
builtin_field t name = none

-- The name of a named type, or of the one that a pointer points at.
abbrev pub owner_name : Ty → Option Bytes
owner_name (named name) = some name
owner_name (pointer (named name) c nul) = some name
owner_name _ = none

unfoldable pub owner_field : Context → ℕ → Node → Bytes → Ty → Check Ty
unfolding find_owner composite_field_type shown
owner_field e u n name t =
    case_option (owner_name t) (refuse_type n (no_field name (shown t))) λ owner.
      case_option (find_owner e owner) (refuse_type n (no_field name (shown t)))
        λ decl. composite_field_type e u n owner name decl

unfoldable pub object_field : Context → ℕ → Node → Bytes → Ty → Check Ty
unfolding builtin_field owner_field
object_field e u n name t =
    case_option (builtin_field t name) (owner_field e u n name t)
      λ (what, found). case_option found (refuse_type n (unknown_field name what)) λ r. answer r

-- An enum of that name with that variant.
unfoldable pub enum_with_variant : Context → Bytes → Bytes → Option Node
unfolding find_enum enum_variant_fields
enum_with_variant e name variant' =
    case_option (find_enum e name) none
      λ d. case_option (enum_variant_fields d variant') none λ fields. some d

-- What a selection from a name is when the name is a type.
unfoldable pub static_type : Context → Node → Bytes → Node → Option (Check Ty)
unfolding enum_with_variant find_method_decl require_decl_visible
static_type e n name (node l c (ident base)) =
    case_option (enum_with_variant e base name)
      (case_option (find_method_decl e.checker.sema base name) none λ m. some (
        when_visible error_type (require_decl_visible e.checker m (line_of n) (col_of n) name)
          (answer (make_function_type e m))))
      λ d. some (
        when_visible error_type (require_decl_visible e.checker d (line_of n) (col_of n) base)
          (answer (named base)))
static_type e n name _ = none

unfoldable pub check_field : Context → ℕ → Node → Node → Bytes → Check Ty → Check Ty
unfolding static_type object_field
check_field e u n object name m =
    case_option (static_type e n name object) (do t ← m; object_field e u n name t) λ k. k
