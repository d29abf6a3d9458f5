-- ===== src/Sema/Declare.antt =====
-- The passes over the declarations of a program: `sema_analyze`, compiler/src/sema/sema.c, lines 1269
-- to 1371, from the empty analyzer to the one with which the bodies are analyzed. A pass ends at the
-- first error.
pub mod Invariants
pub mod Consistency
use apex_forge_night_script.Base.{
  Bool, true, false, List, [], ◌∷◌, Bytes, codes, Option, none, some, if◌then◌else◌,
}
use apex_forge_night_script.Ast.{
  Node, Nodes, none_left, next, node, items, struct_decl, enum_decl, union_decl, interface_decl,
  impl_decl, fn_decl, extern_fn, const_stmt, comptime_block, kernel_app,
}
use apex_forge_night_script.Sema.Analyzer.{
  Analyzer, Step, SemaError, out_of_memory, error_at, sema_error, functions, extern_functions,
  structs, enums, unions, interfaces, register_global_name, empty_analyzer,
}
use apex_forge_night_script.Sema.Register.{
  register_decl, validate_fields, validate_enum_variants, fn_name,
}
use apex_forge_night_script.Sema.Register.Impl.{register_impl_decl}

-- `if (!step) a.had_error = 1`
abbrev pub fail_unless : Step → Analyzer
fail_unless s = if s.ok then s.after else record s.after { had_error = true }

-- `if (!check) a.had_error = 1`
abbrev pub fail_on : Analyzer → Option SemaError → Analyzer
fail_on a none = a
fail_on a (some e) = sema_error a e

-- `if (!step && !a.had_error) sema_error(...)`
abbrev pub fail_with : Step → Node → Analyzer
fail_with s n =
    if s.ok
    then s.after
    else if s.after.had_error
    then s.after
    else sema_error s.after (error_at n out_of_memory)

-- `for (...; !a.had_error; ...)`
unfoldable pub until_error : (Analyzer → Node → Analyzer) → List Node → Analyzer → Analyzer
until_error f [] a = a
until_error f (n ∷ ns) a = let rest = until_error f ns (f a n) in if a.had_error then a else rest

-- `count > 0`
abbrev pub has_any : Nodes → Bool
has_any none_left = false
has_any (next n ns) = true

unfoldable pub declare_type : Analyzer → Node → Analyzer
unfolding register_decl register_global_name
declare_type a (node l k (struct_decl name p t fs pub' packed)) =
    fail_unless (register_decl structs a name (node l k (struct_decl name p t fs pub' packed)))
declare_type a (node l k (enum_decl name p vs pub')) =
    fail_unless (register_decl enums a name (node l k (enum_decl name p vs pub')))
declare_type a (node l k (union_decl name p fs pub')) =
    fail_unless (register_decl unions a name (node l k (union_decl name p fs pub')))
declare_type a (node l k (const_stmt name type value)) =
    fail_unless (register_global_name a name (node l k (const_stmt name type value)))
declare_type a _ = a

unfoldable pub check_type : Analyzer → Node → Analyzer
unfolding validate_fields validate_enum_variants
check_type a (node l k (struct_decl name p t fs pub' packed)) =
    if has_any t then a else fail_on a (validate_fields a (items fs) (codes "struct"))
check_type a (node l k (union_decl name p fs pub')) =
    fail_on a (validate_fields a (items fs) (codes "union"))
check_type a (node l k (enum_decl name p vs pub')) =
    fail_on a (validate_enum_variants (node l k (enum_decl name p vs pub')))
check_type a _ = a

unfoldable pub declare_comptime : Analyzer → Node → Analyzer
unfolding register_global_name
declare_comptime a (node l k (const_stmt name type value)) =
    (register_global_name a name (node l k (const_stmt name type value))).after
declare_comptime a _ = a

unfoldable pub declare_interface : Analyzer → Node → Analyzer
unfolding register_decl until_error declare_comptime
declare_interface a (node l k (interface_decl name p ms pub')) =
    fail_unless (register_decl interfaces a name (node l k (interface_decl name p ms pub')))
declare_interface a (node l k (comptime_block ns)) = until_error declare_comptime (items ns) a
declare_interface a _ = a

unfoldable pub declare_kernel_function : Node → Analyzer → Node → Analyzer
unfolding register_decl
declare_kernel_function app a f = fail_with (register_decl functions a (fn_name f) f) app

-- A function with type parameters is a template: only its name is registered.
unfoldable pub declare_function : Analyzer → Node → Analyzer
unfolding register_decl register_global_name register_impl_decl until_error declare_kernel_function
declare_function a (node l k (fn_decl name o p t ps r b pub')) =
    let n = node l k (fn_decl name o p t ps r b pub') in
    if has_any t
    then (register_global_name a name n).after
    else fail_with (register_decl functions a name n) n
declare_function a (node l k (extern_fn name p c ps r pub')) =
    let n = node l k (extern_fn name p c ps r pub') in
    fail_with (register_decl extern_functions a name n) n
declare_function a (node l k (impl_decl target p i ms)) =
    fail_unless (register_impl_decl a (node l k (impl_decl target p i ms)))
declare_function a (node l k (kernel_app name p fs pub')) =
    until_error (declare_kernel_function (node l k (kernel_app name p fs pub'))) (items fs) a
declare_function a _ = a

unfoldable pub declare_all : List Node → Analyzer
unfolding until_error declare_type check_type declare_interface declare_function
declare_all decls = until_error declare_function decls (
    until_error declare_interface decls
      (until_error check_type decls (until_error declare_type decls empty_analyzer)))
