-- ===== src/Sema/Bodies/Statements.antt =====
-- Statements and bodies: compiler/src/sema/sema.c, lines 1016-1223 and 1382-1403. A statement answers with
-- the innermost scope that it leaves, or with an error; the scopes that it opens are released behind it.
-- The blocks of statements and the bodies of functions are nodes of the kind block, as the parser makes
-- them.
use apex_forge_night_script.Base.{
  ℕ, suc, true, ◌==◌, Option, none, some, List, [], ◌∷◌, ◌++◌, Bytes, if◌then◌else◌, case_option,
}
use apex_forge_night_script.Ast.{
  Node, Nodes, MaybeNode, node, null, at, none_left, next, items, block, let_stmt, const_stmt,
  return_stmt, if_stmt, while_stmt, loop_stmt, unsafe_stmt, break_stmt, continue_stmt, defer_stmt,
  for_stmt, expr_stmt, fn_decl, impl_decl, kernel_app,
}
use apex_forge_night_script.Sema.Analyzer.{
  SemaMessage, SemaError, Analyzer, NamedDecl, error_at, sema_error, duplicate_local,
  duplicate_parameter, break_outside, continue_outside, unsupported_statement, functions,
  extern_functions,
}
use apex_forge_night_script.Sema.TypeNames.{validate_type}
use apex_forge_night_script.Sema.Register.{let_name, fn_params}
use apex_forge_night_script.Sema.Declare.{until_error, has_any, declare_all}
use apex_forge_night_script.Sema.Bodies.{analyze_expr, analyze_optional}
use apex_forge_night_script.Sema.Symbols.{Locals, LocalScopes, define_local}

-- What a statement answers: the scope behind it, or the error that it reports.
pub data Flow : Type 0 where
  passes : Locals → Flow
  reports : SemaError → Flow

-- `if (!check) return 0`, and on with the rest.
abbrev pub guard : Option SemaError → Flow → Flow
guard none f = f
guard (some e) f = reports e

abbrev pub flow_then : Flow → (Locals → Flow) → Flow
flow_then (passes s) k = k s
flow_then (reports e) k = reports e

-- The scope that was opened is released.
abbrev pub leave : Locals → Flow → Flow
leave scope (passes s) = passes scope
leave scope (reports e) = reports e

unfoldable pub define_or : Locals → Bytes → Node → SemaMessage → Flow
unfolding define_local
define_or scope name n m = case_option (define_local scope name n) (reports (error_at n m)) passes

-- `loop_depth <= 0`
abbrev pub in_loop : ℕ → Node → SemaMessage → Locals → Flow
in_loop depth n m scope = if depth == 0 then reports (error_at n m) else passes scope

unfoldable mutual
  pub analyze_stmt : Analyzer → ℕ → LocalScopes → Locals → Node → Flow
  analyze_stmt a depth outer scope (node l c (let_stmt name type value)) =
      guard (validate_type a type) (
        guard (analyze_optional a (scope ∷ outer) value)
          (define_or scope name (node l c (let_stmt name type value)) (duplicate_local name)))
  analyze_stmt a depth outer scope (node l c (const_stmt name type value)) =
      guard (validate_type a type) (
        guard (analyze_expr a (scope ∷ outer) value)
          (define_or scope name (node l c (const_stmt name type value)) (duplicate_local name)))
  analyze_stmt a depth outer scope (node l c (return_stmt value)) =
      guard (analyze_optional a (scope ∷ outer) value) (passes scope)
  analyze_stmt a depth outer scope (node l c (if_stmt cond then_block else_node)) =
      let then_flow = analyze_block a depth (scope ∷ outer) [] then_block in
      let else_flow = analyze_else a depth (scope ∷ outer) else_node in
      guard (analyze_expr a (scope ∷ outer) cond) (flow_then then_flow λ s. leave scope else_flow)
  analyze_stmt a depth outer scope (node l c (while_stmt cond body)) =
      let inside = analyze_block a (suc depth) (scope ∷ outer) [] body in
      guard (analyze_expr a (scope ∷ outer) cond) (leave scope inside)
  analyze_stmt a depth outer scope (node l c (loop_stmt body)) =
      leave scope (analyze_block a (suc depth) (scope ∷ outer) [] body)
  analyze_stmt a depth outer scope (node l c (unsafe_stmt body)) =
      leave scope (analyze_block a depth (scope ∷ outer) [] body)
  analyze_stmt a depth outer scope (node l c (for_stmt first cond post body)) =
      flow_then (analyze_init a depth (scope ∷ outer) first) λ for_scope.
        guard (analyze_optional a (for_scope ∷ scope ∷ outer) cond) (
          guard (analyze_optional a (for_scope ∷ scope ∷ outer) post)
            (leave scope (analyze_block a (suc depth) (for_scope ∷ scope ∷ outer) [] body)))
  analyze_stmt a depth outer scope (node l c break_stmt) =
      in_loop depth (node l c break_stmt) break_outside scope
  analyze_stmt a depth outer scope (node l c continue_stmt) =
      in_loop depth (node l c continue_stmt) continue_outside scope
  analyze_stmt a depth outer scope (node l c (defer_stmt e)) =
      guard (analyze_expr a (scope ∷ outer) e) (passes scope)
  analyze_stmt a depth outer scope (node l c (expr_stmt e)) =
      guard (analyze_expr a (scope ∷ outer) e) (passes scope)
  analyze_stmt a depth outer scope (node l c (block stmts)) =
      leave scope (analyze_stmts a depth (scope ∷ outer) [] stmts)
  analyze_stmt a depth outer scope (node l c s) =
      reports (error_at (node l c s) unsupported_statement)

  pub analyze_block : Analyzer → ℕ → LocalScopes → Locals → Node → Flow
  analyze_block a depth outer scope (node l c (block stmts)) =
      analyze_stmts a depth outer scope stmts
  analyze_block a depth outer scope n = passes scope

  pub analyze_stmts : Analyzer → ℕ → LocalScopes → Locals → Nodes → Flow
  analyze_stmts a depth outer scope none_left = passes scope
  analyze_stmts a depth outer scope (next n ns) =
      flow_then (analyze_stmt a depth outer scope n) λ s. analyze_stmts a depth outer s ns

  -- In the scope of the else branch, new.
  pub analyze_else : Analyzer → ℕ → LocalScopes → MaybeNode → Flow
  analyze_else a depth outer null = passes []
  analyze_else a depth outer (at (node l c (block stmts))) = analyze_stmts a depth outer [] stmts
  analyze_else a depth outer (at n) = analyze_stmt a depth outer [] n

  pub analyze_init : Analyzer → ℕ → LocalScopes → MaybeNode → Flow
  analyze_init a depth outer null = passes []
  analyze_init a depth outer (at n) = analyze_stmt a depth outer [] n

-- What the analysis of a function answers; `refused` is the answer 0 without an error.
pub data BodyResult : Type 0 where
  body_accepted body_refused : BodyResult
  body_reported : SemaError → BodyResult

abbrev pub body_result : Flow → BodyResult
body_result (passes s) = body_accepted
body_result (reports e) = body_reported e

unfoldable pub define_decls : List NamedDecl → Locals → Option Locals
unfolding define_local
define_decls [] scope = some scope
define_decls (d ∷ ds) scope =
    case_option (define_local scope d.name d.node) none λ scope'. define_decls ds scope'

unfoldable pub define_params : List Node → Locals → Flow
unfolding define_or
define_params [] scope = passes scope
define_params (p ∷ ps) scope =
    flow_then (define_or scope (let_name p) p (duplicate_parameter (let_name p)))
      λ scope'. define_params ps scope'

abbrev pub fn_body : Node → MaybeNode
fn_body (node l c (fn_decl name o p t ps r b pub')) = b
fn_body _ = null

abbrev pub analyze_fn_block : Analyzer → MaybeNode → Locals → Flow
unfolding analyze_block
analyze_fn_block a null scope = passes scope
analyze_fn_block a (at b) scope = analyze_block a 0 [] scope b

unfoldable pub analyze_function_body : Analyzer → Node → BodyResult
unfolding define_decls define_params analyze_block
analyze_function_body a n =
    case_option (define_decls (a.decls functions ++ a.decls extern_functions) []) body_refused
      λ scope. body_result (
        flow_then (define_params (fn_params n) scope) λ inner. analyze_fn_block a (fn_body n) inner)

abbrev pub after_body : BodyResult → Analyzer → Analyzer
after_body body_accepted a = a
after_body body_refused a = record a { had_error = true }
after_body (body_reported e) a = sema_error a e

-- `if (!analyze_function_body(&a, n)) a.had_error = 1`
unfoldable pub analyze_body : Analyzer → Node → Analyzer
unfolding analyze_function_body
analyze_body a n = after_body (analyze_function_body a n) a

-- The bodies of one declaration; templates are left to their uses.
unfoldable pub analyze_decl : Analyzer → Node → Analyzer
unfolding analyze_body until_error
analyze_decl a (node l c (fn_decl name o p t ps r b pub')) =
    if has_any t then a else analyze_body a (node l c (fn_decl name o p t ps r b pub'))
analyze_decl a (node l c (impl_decl target p i ms)) = until_error analyze_body (items ms) a
analyze_decl a (node l c (kernel_app name p fs pub')) = until_error analyze_body (items fs) a
analyze_decl a _ = a

unfoldable pub analyze_bodies : List Node → Analyzer → Analyzer
unfolding until_error analyze_decl
analyze_bodies decls a = until_error analyze_decl decls a

-- The declarations, and then the bodies.
unfoldable pub analyze_program : List Node → Analyzer
unfolding declare_all analyze_bodies
analyze_program decls = analyze_bodies decls (declare_all decls)
