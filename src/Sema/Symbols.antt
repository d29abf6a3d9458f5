-- ===== src/Sema/Symbols.antt =====
-- The scopes of bodies and the lookups in them: compiler/src/sema/sema.c, lines 20-32, 269-293, 446-498 and
-- 772-819. A scope is the list of its bindings, the last defined first, and a chain of scopes the list from
-- the innermost outwards.
use apex_forge_night_script.Base.{
  Bool, true, false, ◌||◌, ◌&&◌, not, ◌==◌, Option, none, some, List, [], ◌∷◌, Bytes, codes, beq,
  ltb, map, length, if◌then◌else◌, case_option,
}
use apex_forge_night_script.Ast.{Node, node, items, ident, struct_decl, enum_decl, union_decl}
use apex_forge_night_script.Sema.Analyzer.{
  SemaError, Analyzer, NamedDecl, error_at, invalid_pattern, unknown_pattern_enum,
  duplicate_binding, unknown_variant, unknown_enum_member, functions, extern_functions, structs,
  enums, unions, find_named_decl, declared, find_method_decl, is_name_in, is_known_type,
}
use apex_forge_night_script.Sema.TypeNames.{before_bracket, last_byte}
use apex_forge_night_script.Sema.Register.{let_name, variant_names}

abbrev pub io_names : List Bytes
io_names = map codes (
    "print" ∷ "println" ∷ "eprint" ∷ "eprintln" ∷ "print_int" ∷ "print_long" ∷ "print_uint"
    ∷ "print_ulong" ∷ "print_f32" ∷ "print_f64" ∷ "print_bool" ∷ "print_char" ∷ "flush" ∷ "input"
    ∷ "read_int" ∷ "read_long" ∷ "read_uint" ∷ "read_f64" ∷ "stdout" ∷ "stderr" ∷ "stdin" ∷ "asm"
    ∷ "inb" ∷ "outb" ∷ "inw" ∷ "outw" ∷ "inl" ∷ "outl" ∷ "io_wait" ∷ [])

unfoldable pub is_builtin_io : Bytes → Bool
unfolding is_name_in
is_builtin_io name = is_name_in io_names name

pub record LocalBinding : Type 0 where
  pub name : Bytes
  pub node : Node

abbrev pub Locals : Type 0
Locals = List LocalBinding

abbrev pub LocalScopes : Type 0
LocalScopes = List Locals

unfoldable pub find_local : Locals → Bytes → Option Node
find_local [] name = none
find_local (b ∷ bs) name = if beq b.name name then some b.node else find_local bs name

-- `none` is a definition that is refused.
unfoldable pub define_local : Locals → Bytes → Node → Option Locals
unfolding find_local
define_local scope name n =
    case_option (find_local scope name) (some (record { name = name; node = n } ∷ scope)) λ b. none

unfoldable pub resolve_local : LocalScopes → Bytes → Option Node
unfolding find_local
resolve_local [] name = none
resolve_local (scope ∷ parents) name =
    let outer = resolve_local parents name in case_option (find_local scope name) outer some

abbrev pub is_resolved : LocalScopes → Bytes → Bool
unfolding resolve_local
is_resolved sc name = case_option (resolve_local sc name) false λ n. true

abbrev pub enum_variants : Node → List Bytes
enum_variants (node l c (enum_decl name p vs pub')) = variant_names vs
enum_variants _ = []

unfoldable pub enum_has_variant : Analyzer → Bytes → Bytes → Bool
unfolding find_named_decl is_name_in
enum_has_variant a enum variant =
    case_option (find_named_decl (a.decls enums) enum) false
      λ d. is_name_in (enum_variants d.node) variant

abbrev pub composite_fields : Node → List Node
composite_fields (node l c (struct_decl name p t fs pub' packed)) = items fs
composite_fields (node l c (union_decl name p fs pub')) = items fs
composite_fields _ = []

unfoldable pub composite_has_field : Node → Bytes → Bool
unfolding is_name_in
composite_has_field decl name = is_name_in (map let_name (composite_fields decl)) name

-- The text in front of the first dot and the text behind it.
unfoldable pub split_dot : Bytes → Option (Bytes × Bytes)
split_dot [] = none
split_dot (c ∷ cs) =
    let rest = split_dot cs in
    if c == b'.' then some ([], cs) else case_option rest none λ (l, r). some (c ∷ l, r)

abbrev pub plain_patterns : List Bytes
plain_patterns = map codes ("_" ∷ "Some" ∷ "None" ∷ "Ok" ∷ "Err" ∷ [])

-- Names of 128 bytes or more do not fit their buffers.
unfoldable pub analyze_match_pattern : Analyzer → Node → Bytes → Option SemaError
unfolding is_name_in split_dot declared enum_has_variant
analyze_match_pattern a n pattern =
    let invalid = some (error_at n (invalid_pattern pattern)) in
    if is_name_in plain_patterns pattern
    then none
    else case_option (split_dot pattern) invalid λ (enum, variant).
      if length enum == 0 || not (ltb (length enum) 128) || not (ltb (length variant) 128)
      then invalid
      else if not (declared (a.decls enums) enum)
      then some (error_at n (unknown_pattern_enum enum))
      else if not (enum_has_variant a enum variant)
      then some (error_at n (unknown_variant enum variant))
      else none

-- The bindings of an arm, in its scope.
unfoldable pub bind_names :
    Node → List Bytes → Locals → (Locals → Option SemaError) → Option SemaError
unfolding define_local
bind_names n [] scope k = k scope
bind_names n (name ∷ names) scope k =
    case_option (define_local scope name n) (some (error_at n (duplicate_binding name)))
      λ scope'. bind_names n names scope' k

unfoldable pub is_symbol : Analyzer → LocalScopes → Bytes → Bool
unfolding is_builtin_io is_resolved is_name_in declared
is_symbol a sc name =
    beq name (codes "None")
    || is_builtin_io name
    || is_resolved sc name
    || is_name_in a.global_names name
    || declared (a.decls functions) name
    || declared (a.decls extern_functions) name

-- A global name that is no function's: of a template, `name[T]`.
unfoldable pub is_generic_function : Analyzer → Node → Bool
unfolding is_name_in declared
is_generic_function a (node l c (ident name)) =
    is_name_in a.global_names name
    && not (declared (a.decls functions) name)
    && not (declared (a.decls extern_functions) name)
is_generic_function a _ = false

abbrev pub is_constructor : Node → Bool
is_constructor (node l c (ident name)) =
    beq name (codes "Some") || beq name (codes "Ok") || beq name (codes "Err")
is_constructor _ = false

-- What the selection from a name decides by itself: an error, or acceptance.
unfoldable pub static_field : Analyzer → Node → Node → Bytes → Option (Option SemaError)
unfolding declared enum_has_variant find_method_decl is_known_type
static_field a n (node l c (ident base)) name =
    if declared (a.decls enums) base
    then (if enum_has_variant a base name
          || (case_option (find_method_decl a.methods base name) false λ m. true)
        then some none
        else some (some (error_at n (unknown_enum_member base name))))
    else if is_known_type a base
    then some none
    else none
static_field a n _ name = none

unfoldable pub find_composite : Analyzer → Bytes → Option NamedDecl
unfolding find_named_decl before_bracket
find_composite a name =
    let generic = case_option (before_bracket name) none λ base.
      if last_byte name == b']' && ltb (length base) 256
      then find_named_decl (a.decls structs) base
      else none in
    case_option (find_named_decl (a.decls structs) name)
      (case_option (find_named_decl (a.decls unions) name) generic some) some
