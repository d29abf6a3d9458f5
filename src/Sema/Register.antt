-- ===== src/Sema/Register.antt =====
-- The registration of declarations: compiler/src/sema/sema.c, lines 474-482 and 530-757. A check that
-- changes nothing is `none`, or the error that it reports with the answer 0.
pub mod Impl
pub mod Tables
pub mod Members
use apex_forge_night_script.Base.{
  ℕ, ◌+◌, Bool, true, false, ◌||◌, ◌&&◌, not, Option, none, some, List, [], ◌∷◌, ◌++◌, Bytes, codes,
  beq, take, if◌then◌else◌, case_option,
}
use apex_forge_night_script.Ast.{
  Node, Nodes, Shape, MaybeNode, Variants, node, null, at, shape, items, type_named, type_pointer,
  let_stmt, fn_decl, extern_fn, struct_decl, enum_decl, union_decl, interface_decl, impl_decl,
  no_variants, variant,
}
use apex_forge_night_script.Sema.Analyzer.{
  SemaMessage, SemaError, NamedDecl, MethodDecl, Table, Analyzer, Step, duplicate_symbol,
  unknown_type, duplicate_parameter, bad_receiver, duplicate_declaration, unknown_impl_target,
  unknown_interface, duplicate_method, missing_method, duplicate_field, duplicate_variant, error_at,
  functions, extern_functions, structs, enums, unions, interfaces, sema_error, accept, refuse,
  find_named_decl, declared, find_method_decl, push_named_decl, push_method_decl, is_name_in,
  register_global_name, empty_analyzer,
}
use apex_forge_night_script.Sema.TypeNames.{validate_type}

-- `node->as.let.name` and `node->as.let.type` of a parameter or a field.
abbrev pub let_name : Node → Bytes
let_name (node l k (let_stmt name type value)) = name
let_name _ = []

abbrev pub let_type : Node → MaybeNode
let_type (node l k (let_stmt name type value)) = type
let_type _ = null

abbrev pub fn_name : Node → Bytes
fn_name (node l k (fn_decl name o p t ps r b pub')) = name
fn_name (node l k (extern_fn name p c ps r pub')) = name
fn_name _ = []

abbrev pub fn_params : Node → List Node
fn_params (node l k (fn_decl name o p t ps r b pub')) = items ps
fn_params (node l k (extern_fn name p c ps r pub')) = items ps
fn_params _ = []

abbrev pub fn_ret_type : Node → MaybeNode
fn_ret_type (node l k (fn_decl name o p t ps r b pub')) = r
fn_ret_type (node l k (extern_fn name p c ps r pub')) = r
fn_ret_type _ = null

-- `p && q` of two checks.
abbrev pub then_check : Option SemaError → Option SemaError → Option SemaError
then_check none q = q
then_check (some e) q = some e

-- The loop over parameters and fields: no name may be one of those before it, `seen`, and every type
-- is validated. `duplicate` is the message of the loop.
unfoldable pub check_members :
    (Bytes → SemaMessage) → Analyzer → List Bytes → List Node → Option SemaError
unfolding is_name_in validate_type
check_members duplicate a seen [] = none
check_members duplicate a seen (m ∷ ms) =
    let rest = check_members duplicate a (seen ++ let_name m ∷ []) ms in
    if is_name_in seen (let_name m)
    then some (error_at m (duplicate (let_name m)))
    else then_check (validate_type a (let_type m)) rest

abbrev pub check_params : Analyzer → List Node → Option SemaError
check_params a ps = check_members duplicate_parameter a [] ps

unfoldable pub validate_fields : Analyzer → List Node → Bytes → Option SemaError
unfolding check_members
validate_fields a fields kind_name = check_members (duplicate_field kind_name) a [] fields

abbrev pub variant_names : Variants → List Bytes
variant_names no_variants = []
variant_names (variant name fields vs) = name ∷ variant_names vs

-- The names of an enum's variants, those before them in `seen`.
unfoldable pub check_variants : Node → Bytes → List Bytes → List Bytes → Option SemaError
unfolding is_name_in
check_variants decl owner seen [] = none
check_variants decl owner seen (v ∷ vs) =
    let rest = check_variants decl owner (seen ++ v ∷ []) vs in
    if is_name_in seen v then some (error_at decl (duplicate_variant owner v)) else rest

unfoldable pub validate_enum_variants : Node → Option SemaError
unfolding check_variants
validate_enum_variants (node l k (enum_decl name p vs pub')) =
    check_variants (node l k (enum_decl name p vs pub')) name [] (variant_names vs)
validate_enum_variants _ = none

-- `strcmp` of a named type with the owner.
abbrev pub is_named : Bytes → Node → Bool
is_named owner (node l k (type_named name)) = beq name owner
is_named owner _ = false

abbrev pub is_receiver : Bytes → Node → Bool
is_receiver owner (node l k (type_pointer inner c n)) = is_named owner inner
is_receiver owner (node l k s) = is_named owner (node l k s)

-- `refused` is the answer 0 without an error, for a parameter with no type.
pub data Receiver : Type 0 where
  accepted refused : Receiver
  reported : SemaError → Receiver

unfoldable pub validate_receiver_type : Bytes → MaybeNode → ℕ → ℕ → Receiver
validate_receiver_type owner null line col = refused
validate_receiver_type owner (at t) line col =
    if is_receiver owner t
    then accepted
    else reported (record { line = line; col = col; message = bad_receiver owner })

abbrev pub what_is_declared : Table → Bytes
what_is_declared functions = codes "function"
what_is_declared extern_functions = codes "function"
what_is_declared structs = codes "struct"
what_is_declared enums = codes "enum"
what_is_declared unions = codes "union"
what_is_declared interfaces = codes "interface"

-- The tables in which a declaration of a table may not have its name.
abbrev pub is_declared : Table → Analyzer → Bytes → Bool
is_declared functions a name =
    declared (a.decls functions) name || declared (a.decls extern_functions) name
is_declared extern_functions a name =
    declared (a.decls functions) name || declared (a.decls extern_functions) name
is_declared t a name = declared (a.decls t) name

-- The checks of a function's types and parameters, for the tables of functions.
abbrev pub check_signature : Table → Analyzer → Node → Option SemaError
unfolding check_members validate_type
check_signature functions a n =
    then_check (validate_type a (fn_ret_type n)) (check_params a (fn_params n))
check_signature extern_functions a n =
    then_check (validate_type a (fn_ret_type n)) (check_params a (fn_params n))
check_signature t a n = none

-- Go on with the state that a step left, if it was accepted.
abbrev pub and_then : Step → (Analyzer → Step) → Step
and_then s k = if s.ok then k s.after else s

abbrev pub and_check : Analyzer → Option SemaError → (Analyzer → Step) → Step
and_check a none k = k a
and_check a (some e) k = refuse a e

-- `register_function_like` for the tables of functions, and `register_struct_decl`,
-- `register_enum_decl`, `register_union_decl`, `register_interface_decl` for the others.
unfoldable pub register_decl : Table → Analyzer → Bytes → Node → Step
unfolding register_global_name push_named_decl check_signature declared
register_decl t a name n = and_then (register_global_name a name n) λ b.
    if is_declared t b name
    then refuse b (error_at n (duplicate_declaration (what_is_declared t) name))
    else and_check b (check_signature t b n)
        λ c. accept (push_named_decl t c (record { name = name; node = n }))
