-- ===== src/Typeck/Bodies.antt =====
-- `check_stmt` and `check_block`: compiler/src/typeck/typeck.c, lines 2151-2417. A statement answers with the
-- innermost scope that it leaves, or with `none` where the code answers 0; the scopes that it opens are
-- released behind it. The blocks of statements are nodes of the kind block, as the parser makes them.
pub mod Functions
pub mod Total
use apex_forge_night_script.Base.{
  ℕ, suc, Bool, true, false, not, Option, none, some, List, [], ◌∷◌, Bytes, if◌then◌else◌,
  case_option, case_list,
}
use apex_forge_night_script.Ast.{
  Node, Nodes, MaybeNode, node, null, at, none_left, next, line_of, col_of, block, let_stmt,
  const_stmt, return_stmt, if_stmt, while_stmt, loop_stmt, unsafe_stmt, break_stmt, continue_stmt,
  defer_stmt, for_stmt, expr_stmt,
}
use apex_forge_night_script.Typeck.Types.{
  Ty, plain, error, void, bool, null_type, is_plain, is_assignable, widen_literal, type_from_ast,
}
use apex_forge_night_script.Typeck.Scope.{Scope, Scopes, scope_define}
use apex_forge_night_script.Typeck.Visibility.{ensure_type_visible}
use apex_forge_night_script.Typeck.Check.{
  CheckMessage, Check, ran, answer, ◌>>=◌, ◌>>◌, refuse_with, when_visible, shown, cannot_assign,
  cannot_infer, infer_from_null, infer_const_from_null, out_of_memory, void_returns,
  return_expected, return_mismatch, if_condition, while_condition, for_condition, unsupported_stmt,
}
use apex_forge_night_script.Typeck.Check.Context.{Context}
use apex_forge_night_script.Typeck.Exprs.Constructors.{Operand, check_in_context}
use apex_forge_night_script.Typeck.Exprs.Walk.{check_expr, operand_of}

abbrev pub StmtCheck : Type 0
StmtCheck = Check (Option Scope)

abbrev pub stop : Node → CheckMessage → StmtCheck
stop n m = refuse_with none n m

-- The statement's answer with the scope as it was before.
abbrev pub leave_scope : Scope → StmtCheck → StmtCheck
leave_scope scope m = do after ← m; answer (case_option after none λ s. some scope)

abbrev pub define_in : Scope → Node → Bytes → Ty → Bool → StmtCheck
define_in scope n name t mutable =
    case_option (scope_define scope name (some t) mutable) (stop n out_of_memory)
      λ s. answer (some s)

-- The type of a `let`, from its declaration and the value's.
unfoldable pub let_binding : Scope → Node → Bytes → Ty → Option Ty → StmtCheck
unfolding is_assignable define_in shown
let_binding scope n name declared actual =
    if is_plain null_type declared
    then stop n (infer_from_null name)
    else case_option actual (define_in scope n name declared true) λ t.
      if is_assignable (some declared) (some t)
      then define_in scope n name declared true
      else stop n (cannot_assign (shown t) (shown declared))

unfoldable pub check_let : Scope → Node → Bytes → MaybeNode → Option Operand → StmtCheck
unfolding let_binding check_in_context type_from_ast widen_literal
check_let scope n name (at t) none = let_binding scope n name (type_from_ast (at t)) none
check_let scope n name (at t) (some x) = do
  actual ← check_in_context (type_from_ast (at t)) x
  let_binding scope n name (type_from_ast (at t)) (some actual)
check_let scope n name null none = stop n (cannot_infer name)
check_let scope n name null (some x) = do
  actual ← x.type
  let_binding scope n name (widen_literal (some actual)) (some actual)

unfoldable pub const_binding : Scope → Node → Bytes → Ty → Ty → StmtCheck
unfolding is_assignable define_in shown
const_binding scope n name declared actual =
    if is_plain null_type declared
    then stop n infer_const_from_null
    else if is_assignable (some declared) (some actual)
    then define_in scope n name declared false
    else stop n (cannot_assign (shown actual) (shown declared))

unfoldable pub check_const_stmt : Scope → Node → Bytes → MaybeNode → Operand → StmtCheck
unfolding const_binding check_in_context type_from_ast widen_literal
check_const_stmt scope n name (at t) x = do
  actual ← check_in_context (type_from_ast (at t)) x
  const_binding scope n name (type_from_ast (at t)) actual
check_const_stmt scope n name null x = do
  actual ← x.type
  const_binding scope n name (widen_literal (some actual)) actual

unfoldable pub check_return : Scope → Node → Ty → Option Operand → StmtCheck
unfolding check_in_context is_assignable shown
check_return scope n expected none =
    if is_plain void expected
    then answer (some scope)
    else stop n (return_expected (shown expected))
check_return scope n expected (some x) = if is_plain void expected then stop n void_returns else do
  actual ← check_in_context expected x
  if is_assignable (some expected) (some actual)
      then answer (some scope)
      else stop n (return_mismatch (shown expected) (shown actual))

-- On with `k` if the condition is of type bool.
unfoldable pub condition : Node → (Bytes → CheckMessage) → Check Ty → StmtCheck → StmtCheck
unfolding is_assignable shown
condition n message m k = do
  t ← m
  if is_assignable (some (plain bool)) (some t) then k else stop n (message (shown t))

unfoldable pub unless_error : Scope → Check Ty → StmtCheck
unless_error scope m = do t ← m; answer (if is_plain error t then none else some scope)

-- `return !c->had_error`.
unfoldable pub unless_had_error : Scope → StmtCheck
unless_had_error scope es = ran (case_list es (some scope) λ e rest. none) es

unfoldable pub then_in : StmtCheck → (Scope → StmtCheck) → StmtCheck
then_in m k = do after ← m; case_option after (answer none) k

unfoldable pub optional_operand : Context → ℕ → Scopes → MaybeNode → Option Operand
unfolding operand_of
optional_operand e u sc null = none
optional_operand e u sc (at n) = some (operand_of e u sc n)

-- The condition and the step of a `for`, which may be left out.
unfoldable pub for_cond : Context → ℕ → Scopes → Node → MaybeNode → StmtCheck → StmtCheck
unfolding check_expr condition
for_cond e u sc n null k = k
for_cond e u sc n (at x) k = condition n for_condition (check_expr e u sc x) k

unfoldable pub for_post : Context → ℕ → Scopes → MaybeNode → StmtCheck → StmtCheck
unfolding check_expr unless_error then_in
for_post e u sc null k = k
for_post e u sc (at x) k = then_in (unless_error [] (check_expr e u sc x)) λ s. k

-- `ret` is `expected_return`.
unfoldable mutual
  unfolding check_expr

  pub check_stmt : Context → Ty → ℕ → Scopes → Scope → Node → StmtCheck
  check_stmt e ret u outer scope (node l c (let_stmt name type value)) =
      when_visible none (ensure_type_visible e.checker type l c) (
        check_let scope (node l c (let_stmt name type value)) name type
          (optional_operand e u (scope ∷ outer) value))
  check_stmt e ret u outer scope (node l c (const_stmt name type value)) =
      when_visible none (ensure_type_visible e.checker type l c) (
        check_const_stmt scope (node l c (const_stmt name type value)) name type
          (operand_of e u (scope ∷ outer) value))
  check_stmt e ret u outer scope (node l c (return_stmt value)) =
      check_return scope (node l c (return_stmt value)) ret
        (optional_operand e u (scope ∷ outer) value)
  check_stmt e ret u outer scope (node l c (if_stmt cond then_block else_node)) =
      let then_flow = check_block e ret u (scope ∷ outer) [] then_block in
      let else_flow = check_else e ret u (scope ∷ outer) else_node in
      condition (node l c (if_stmt cond then_block else_node)) if_condition
        (check_expr e u (scope ∷ outer) cond) (then_in then_flow λ s. leave_scope scope else_flow)
  check_stmt e ret u outer scope (node l c (while_stmt cond body)) =
      let inside = check_block e ret u (scope ∷ outer) [] body in
      condition (node l c (while_stmt cond body)) while_condition
        (check_expr e u (scope ∷ outer) cond) (leave_scope scope inside)
  check_stmt e ret u outer scope (node l c (loop_stmt body)) =
      leave_scope scope (check_block e ret u (scope ∷ outer) [] body)
  check_stmt e ret u outer scope (node l c (unsafe_stmt body)) =
      leave_scope scope (check_block e ret (suc u) (scope ∷ outer) [] body)
  check_stmt e ret u outer scope (node l c (for_stmt first cond post body)) =
      then_in (check_init e ret u (scope ∷ outer) first) λ for_scope.
        for_cond e u (for_scope ∷ scope ∷ outer) (node l c (for_stmt first cond post body)) cond (
          for_post e u (for_scope ∷ scope ∷ outer) post
            (leave_scope scope (check_block e ret u (for_scope ∷ scope ∷ outer) [] body)))
  check_stmt e ret u outer scope (node l c break_stmt) = answer (some scope)
  check_stmt e ret u outer scope (node l c continue_stmt) = answer (some scope)
  check_stmt e ret u outer scope (node l c (defer_stmt x)) =
      unless_error scope (check_expr e u (scope ∷ outer) x)
  check_stmt e ret u outer scope (node l c (expr_stmt x)) =
      check_expr e u (scope ∷ outer) x >> unless_had_error scope
  check_stmt e ret u outer scope (node l c (block stmts)) =
      leave_scope scope (check_stmts e ret u (scope ∷ outer) [] stmts)
  check_stmt e ret u outer scope (node l c s) = stop (node l c s) unsupported_stmt

  pub check_block : Context → Ty → ℕ → Scopes → Scope → Node → StmtCheck
  check_block e ret u outer scope (node l c (block stmts)) = check_stmts e ret u outer scope stmts
  check_block e ret u outer scope n = answer (some scope)

  pub check_stmts : Context → Ty → ℕ → Scopes → Scope → Nodes → StmtCheck
  check_stmts e ret u outer scope none_left = answer (some scope)
  check_stmts e ret u outer scope (next n ns) =
      then_in (check_stmt e ret u outer scope n) λ s. check_stmts e ret u outer s ns

  -- In the scope of the else branch, new.
  pub check_else : Context → Ty → ℕ → Scopes → MaybeNode → StmtCheck
  check_else e ret u outer null = answer (some [])
  check_else e ret u outer (at (node l c (block stmts))) = check_stmts e ret u outer [] stmts
  check_else e ret u outer (at n) = check_stmt e ret u outer [] n

  pub check_init : Context → Ty → ℕ → Scopes → MaybeNode → StmtCheck
  check_init e ret u outer null = answer (some [])
  check_init e ret u outer (at n) = check_stmt e ret u outer [] n
