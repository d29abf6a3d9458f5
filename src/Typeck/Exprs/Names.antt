-- ===== src/Typeck/Exprs/Names.antt =====
-- Identifiers: compiler/src/typeck/typeck.c, lines 1282-1330.
use apex_forge_night_script.Base.{
  ℕ, Option, some, [], ◌∷◌, Bytes, codes, beq, if◌then◌else◌, case_option,
}
use apex_forge_night_script.Ast.{Node, line_of, col_of}
use apex_forge_night_script.Typeck.Types.{Ty, plain, void}
use apex_forge_night_script.Typeck.Scope.{Scopes, scope_resolve}
use apex_forge_night_script.Typeck.Visibility.{
  find_named_node, of_fn, of_extern_fn, require_decl_visible,
}
use apex_forge_night_script.Typeck.Check.{
  Check, answer, refuse_type, when_visible, error_type, is_any_of, none_without_context,
}
use apex_forge_night_script.Typeck.Check.Context.{
  Context, make_function_type, const_type, visible_type,
}

-- A function or an extern function of that name.
unfoldable pub find_function : Context → Bytes → Option Node
unfolding find_named_node
find_function e name =
    case_option (find_named_node e.checker.sema.functions name of_fn)
      (find_named_node e.checker.sema.extern_functions name of_extern_fn) some

-- A name that no scope binds.
unfoldable pub global_type : Context → ℕ → Node → Bytes → Check Ty
unfolding find_function const_type require_decl_visible is_any_of
global_type e u n name =
    if beq name (codes "None")
    then refuse_type n none_without_context
    else if is_any_of ("stdout" ∷ "stderr" ∷ "stdin" ∷ []) name
    then answer (plain void)
    else case_option (find_function e name) (const_type e u e.decls name) λ d.
      when_visible error_type (require_decl_visible e.checker d (line_of n) (col_of n) name)
        (answer (make_function_type e d))

-- Every definition in a scope gives a type.
unfoldable pub check_ident : Context → ℕ → Scopes → Node → Bytes → Check Ty
unfolding scope_resolve global_type visible_type
check_ident e u sc n name =
    case_option (scope_resolve sc name) (global_type e u n name)
      λ b. case_option b.type (answer error_type) λ t. visible_type e (line_of n) (col_of n) t
