-- ===== src/Typeck/Bodies/Functions.antt =====
-- `check_function` and `typeck_check`: compiler/src/typeck/typeck.c, lines 2419-2513. `fuel` is the number of
-- untyped constants that may be entered one inside the other. A function has a body, as the parser makes it.
pub mod Constants
pub mod Total
pub mod Accepted
pub mod Passes
use apex_forge_night_script.Base.{
  ℕ, zero, suc, Bool, true, false, Option, none, some, List, [], ◌∷◌, Bytes, if◌then◌else◌,
  case_option, case_list,
}
use apex_forge_night_script.Ast.{
  Node, Nodes, MaybeNode, node, null, at, items, none_left, next, line_of, col_of, fn_decl,
  impl_decl, kernel_app,
}
use apex_forge_night_script.Sema.Register.{let_name, let_type, fn_name, fn_params, fn_ret_type}
use apex_forge_night_script.Sema.Bodies.Statements.{fn_body}
use apex_forge_night_script.Typeck.Types.{Ty, type_from_ast}
use apex_forge_night_script.Typeck.Scope.{Scope, Scopes, scope_define}
use apex_forge_night_script.Typeck.Visibility.{
  SemanticModel, Checker, ensure_type_visible, node_package_name,
}
use apex_forge_night_script.Typeck.Check.{
  Check, CheckRun, ran, answer, out_of_fuel, ◌>>=◌, ◌>>◌, when_visible, typeck_error, refuse_with,
  check_each,
}
use apex_forge_night_script.Typeck.Check.Context.{Context, make_function_type, visible_type}
use apex_forge_night_script.Typeck.Exprs.Walk.{check_expr, operand_of}
use apex_forge_night_script.Typeck.Bodies.{
  StmtCheck, then_in, check_block, check_let, check_const_stmt, check_return, condition,
  unless_error, unless_had_error, for_cond, for_post, optional_operand,
}
use apex_forge_night_script.Typeck.Exprs.Constructors.{argument_loop, check_call_arguments}
use apex_forge_night_script.Typeck.Exprs.Operators.{
  check_unary, check_binary, check_assign, check_index, check_slice, check_cast,
}
use apex_forge_night_script.Typeck.Exprs.Names.{check_ident}
use apex_forge_night_script.Typeck.Exprs.Fields.{check_field}
use apex_forge_night_script.Typeck.Exprs.Calls.{check_call}
use apex_forge_night_script.Typeck.Exprs.Literals.{check_struct_lit}
use apex_forge_night_script.Typeck.Exprs.Matches.{
  check_match_expr, unless_bad, bind_arm, judge_pattern, judge_bindings, finish_match,
}

-- The value of an untyped constant is checked in no scope.
unfoldable pub check_const_within : ℕ → Context → ℕ → Node → Check Ty
unfolding check_expr
check_const_within zero e u n = out_of_fuel
check_const_within (suc fuel) e u n =
    check_expr (record e { check_const = check_const_within fuel e }) u [] n

unfoldable pub within : ℕ → Context → Context
unfolding check_const_within
within fuel e = record e { check_const = check_const_within fuel e }

unfoldable pub define_functions : Context → List Node → Scope → Option Scope
unfolding scope_define
define_functions e [] scope = some scope
define_functions e (f ∷ fs) scope =
    case_option (scope_define scope (fn_name f) (some (make_function_type e f)) false) none
      λ scope'. define_functions e fs scope'

-- A parameter that is declared twice is an answer 0 without an error.
unfoldable pub define_parameters : Context → List Node → Scope → StmtCheck
unfolding scope_define ensure_type_visible type_from_ast
define_parameters e [] scope = answer (some scope)
define_parameters e (p ∷ ps) scope =
    when_visible none (ensure_type_visible e.checker (let_type p) (line_of p) (col_of p)) (
      case_option (scope_define scope (let_name p) (some (type_from_ast (let_type p))) true)
        (answer none) λ scope'. define_parameters e ps scope')

abbrev pub check_fn_block : Context → Ty → MaybeNode → Scope → StmtCheck
check_fn_block e ret null scope = answer (some scope)
check_fn_block e ret (at b) scope = check_block e ret 0 [] scope b

-- The answer of the body, and `!c->had_error`.
unfoldable pub body_answer : Option Scope → Check Bool
body_answer none es = ran false es
body_answer (some scope) es = ran (case_list es true λ e rest. false) es

-- The context in the body of a function.
abbrev pub in_function : ℕ → Context → Node → Context
in_function fuel e f = within fuel (record e {
  checker = record { sema = e.checker.sema; current_package = node_package_name f };
  current_return_type = some (type_from_ast (fn_ret_type f));
})

unfoldable pub function_scope : Context → Option Scope
unfolding define_functions
function_scope e =
    case_option (define_functions e e.checker.sema.functions []) none
      λ scope. define_functions e e.checker.sema.extern_functions scope

unfoldable pub check_function : ℕ → Context → Node → Check Bool
unfolding function_scope define_parameters type_from_ast within check_block then_in body_answer
    ensure_type_visible
check_function fuel e f =
    let inside = in_function fuel e f in
    when_visible false (ensure_type_visible inside.checker (fn_ret_type f) (line_of f) (col_of f)) (
      case_option (function_scope inside) (answer false) λ scope. do
        after ←
            then_in (define_parameters inside (fn_params f) scope)
              λ s. check_fn_block inside (type_from_ast (fn_ret_type f)) (fn_body f) s
        body_answer after)

-- Up to the first that is refused; a function that is accepted leaves no error.
unfoldable pub check_functions : ℕ → Context → List Node → Check Bool
unfolding check_function
check_functions fuel e [] = answer true
check_functions fuel e (f ∷ fs) =
    let rest = check_functions fuel e fs in
    do good ← check_function fuel e f; if good then rest else answer false

-- The functions of a declaration; templates are left to their uses.
unfoldable pub checked_functions : Node → List Node
checked_functions (node l c (fn_decl name o p none_left ps r b pub')) =
    node l c (fn_decl name o p none_left ps r b pub') ∷ []
checked_functions (node l c (impl_decl target p i methods)) = items methods
checked_functions (node l c (kernel_app name p fs pub')) = items fs
checked_functions _ = []

unfoldable pub check_decls : ℕ → Context → List Node → Check Bool
unfolding check_functions checked_functions
check_decls fuel e [] = answer true
check_decls fuel e (d ∷ ds) =
    let rest = check_decls fuel e ds in
    do good ← check_functions fuel e (checked_functions d); if good then rest else answer false

unfoldable pub outside : (Node → ℕ) → SemanticModel → List Node → Context
outside address sema decls = record {
  checker = record { sema = sema; current_package = none };
  decls = decls;
  current_return_type = none;
  address = address;
  check_const = λ u n. out_of_fuel;
}

unfoldable pub typeck_check : ℕ → (Node → ℕ) → SemanticModel → List Node → CheckRun Bool
unfolding check_decls outside answer out_of_fuel ◌>>=◌ ◌>>◌ typeck_error refuse_with when_visible
    check_each check_ident check_unary check_binary check_assign check_index check_slice check_call
    check_cast check_field check_struct_lit check_match_expr check_let check_const_stmt check_return
    condition unless_error unless_had_error for_cond for_post optional_operand operand_of
    visible_type unless_bad bind_arm judge_pattern judge_bindings finish_match argument_loop
    check_call_arguments check_const_within
typeck_check fuel address sema decls = check_decls fuel (outside address sema decls) decls []
