-- ===== src/Typeck/Bodies/Total.antt =====
-- The check of a body comes to an end, and adds its errors to those before, if the constants do:
-- compiler/src/typeck/typeck.c, lines 2151-2417.
use apex_forge_night_script.Base.{ℕ, suc, Option, none, some, [], ◌∷◌, Bytes}
use apex_forge_night_script.Ast.{
  Node, Nodes, MaybeNode, node, null, at, none_left, next, block, let_stmt, const_stmt, return_stmt,
  if_stmt, while_stmt, loop_stmt, unsafe_stmt, break_stmt, continue_stmt, defer_stmt, for_stmt,
  expr_stmt,
}
use apex_forge_night_script.Typeck.Types.{Ty}
use apex_forge_night_script.Typeck.Scope.{Scope, Scopes}
use apex_forge_night_script.Typeck.Check.{CheckMessage, Check}
use apex_forge_night_script.Typeck.Check.Context.{Context}
use apex_forge_night_script.Typeck.Check.Runs.{
  Completes, grown, Completes-answer, Completes-refuse_with, completes_rules,
}
use apex_forge_night_script.Typeck.Exprs.Constructors.{Operand}
use apex_forge_night_script.Typeck.Exprs.Walk.{check_expr, operand_of}
use apex_forge_night_script.Typeck.Exprs.Walk.Named.{Names-all}
use apex_forge_night_script.Typeck.Exprs.Walk.Parts.{SettledOperand, check_in_context-Completes}
use apex_forge_night_script.Typeck.Exprs.Walk.NameParts.{ConstSettled}
use apex_forge_night_script.Typeck.Exprs.Walk.Total.{check_expr-Completes, arguments-Settled}
use apex_forge_night_script.Typeck.Bodies.{
  StmtCheck, let_binding, check_let, const_binding, check_const_stmt, check_return, condition,
  unless_error, unless_had_error, then_in, optional_operand, for_cond, for_post, check_stmt,
  check_block, check_stmts, check_else, check_init,
}

-- An operand that may be missing.
pub data MaybeSettled : Option Operand → Type 0 where
  no_operand : MaybeSettled none
  settled : {x : Operand} → SettledOperand x → MaybeSettled (some x)

let_binding-Completes :
    (scope : Scope) (n : Node) (name : Bytes) (t : Ty) (o : Option Ty)
    → Completes (let_binding scope n name t o)
unfolding let_binding
let_binding-Completes scope n name t o = search completes_rules depth 20

check_let-Completes :
    (scope : Scope) (n : Node) (name : Bytes) (t : MaybeNode) (o : Option Operand)
    → MaybeSettled o
    → Completes (check_let scope n name t o)
unfolding check_let
check_let-Completes scope n name (at t) none h = search let_binding-Completes depth 4
check_let-Completes scope n name (at t) (some x) (settled h) =
    search (check_in_context-Completes, let_binding-Completes, completes_rules) depth 20
check_let-Completes scope n name null none h = Completes-refuse_with _ _ _
check_let-Completes scope n name null (some x) (settled (h, g)) =
    search (let_binding-Completes, completes_rules) depth 20

const_binding-Completes :
    (scope : Scope) (n : Node) (name : Bytes) (t a : Ty)
    → Completes (const_binding scope n name t a)
unfolding const_binding
const_binding-Completes scope n name t a = search completes_rules depth 20

check_const_stmt-Completes :
    (scope : Scope) (n : Node) (name : Bytes) (t : MaybeNode) (x : Operand)
    → SettledOperand x
    → Completes (check_const_stmt scope n name t x)
unfolding check_const_stmt
check_const_stmt-Completes scope n name (at t) x h =
    search (check_in_context-Completes, const_binding-Completes, completes_rules) depth 20
check_const_stmt-Completes scope n name null x (h, g) =
    search (const_binding-Completes, completes_rules) depth 20

check_return-Completes :
    (scope : Scope) (n : Node) (t : Ty) (o : Option Operand)
    → MaybeSettled o
    → Completes (check_return scope n t o)
unfolding check_return
check_return-Completes scope n t none h = search completes_rules depth 20
check_return-Completes scope n t (some x) (settled h) =
    search (check_in_context-Completes, completes_rules) depth 20

condition-Completes :
    (n : Node) (message : Bytes → CheckMessage) {m : Check Ty} {k : StmtCheck}
    → Completes m
    → Completes k
    → Completes (condition n message m k)
unfolding condition
condition-Completes n message h g = search completes_rules depth 20

unless_error-Completes :
    (scope : Scope) {m : Check Ty} → Completes m → Completes (unless_error scope m)
unfolding unless_error
unless_error-Completes scope h = search completes_rules depth 12

had_error-Completes : (scope : Scope) → Completes (unless_had_error scope)
unfolding unless_had_error
had_error-Completes scope = record { at = λ es. grown _ [] }

pub then_in-Completes :
    {m : StmtCheck} (k : Scope → StmtCheck)
    → Completes m
    → ((s : Scope) → Completes (k s))
    → Completes (then_in m k)
unfolding then_in
then_in-Completes k h g = search (g, completes_rules) depth 20

ruleset flow_rules = (
  check_let-Completes, check_const_stmt-Completes, check_return-Completes, condition-Completes,
  unless_error-Completes, had_error-Completes, then_in-Completes, completes_rules,
)

module _ (e : Context) (h : (u : ℕ) (name : Bytes) → ConstSettled e u name) where
  expr-Completes : (u : ℕ) (sc : Scopes) (n : Node) → Completes (check_expr e u sc n)
  expr-Completes u sc n = check_expr-Completes e u sc n (Names-all (h u) n)

  operand-Settled : (u : ℕ) (sc : Scopes) (n : Node) → SettledOperand (operand_of e u sc n)
  unfolding operand_of
  operand-Settled u sc n = (expr-Completes u sc n, arguments-Settled e u sc n (Names-all (h u) n))

  optional-Settled :
      (u : ℕ) (sc : Scopes) (n : MaybeNode) → MaybeSettled (optional_operand e u sc n)
  unfolding optional_operand
  optional-Settled u sc null = no_operand
  optional-Settled u sc (at x) = settled (operand-Settled u sc x)

  for_cond-Completes :
      (u : ℕ) (sc : Scopes) (n : Node) (cond : MaybeNode) {k : StmtCheck}
      → Completes k
      → Completes (for_cond e u sc n cond k)
  unfolding for_cond
  for_cond-Completes u sc n null g = g
  for_cond-Completes u sc n (at x) g = search (expr-Completes, flow_rules) depth 12

  for_post-Completes :
      (u : ℕ) (sc : Scopes) (post : MaybeNode) {k : StmtCheck}
      → Completes k
      → Completes (for_post e u sc post k)
  unfolding for_post
  for_post-Completes u sc null g = g
  for_post-Completes u sc (at x) g = search (expr-Completes, flow_rules) depth 12

  mutual
    unfolding check_stmt

    pub stmt-Completes :
        (ret : Ty) (u : ℕ) (outer : Scopes) (scope : Scope) (n : Node)
        → Completes (check_stmt e ret u outer scope n)
    stmt-Completes ret u outer scope (node l c (let_stmt name type value)) =
        search (optional-Settled, flow_rules) depth 20
    stmt-Completes ret u outer scope (node l c (const_stmt name type x)) =
        search (operand-Settled, flow_rules) depth 20
    stmt-Completes ret u outer scope (node l c (return_stmt value)) =
        search (optional-Settled, flow_rules) depth 20
    stmt-Completes ret u outer scope (node l c (if_stmt cond then_block else_node)) =
        let then_flow = block-Completes ret u (scope ∷ outer) [] then_block in
        let else_flow = else-Completes ret u (scope ∷ outer) else_node in
        search (expr-Completes, flow_rules) depth 20
    stmt-Completes ret u outer scope (node l c (while_stmt cond body)) =
        let inside = block-Completes ret u (scope ∷ outer) [] body in
        search (expr-Completes, flow_rules) depth 20
    stmt-Completes ret u outer scope (node l c (loop_stmt body)) =
        let inside = block-Completes ret u (scope ∷ outer) [] body in search flow_rules depth 20
    stmt-Completes ret u outer scope (node l c (unsafe_stmt body)) =
        let inside = block-Completes ret (suc u) (scope ∷ outer) [] body in
        search flow_rules depth 20
    stmt-Completes ret u outer scope (node l c (for_stmt first cond post body)) =
        let first_flow = init-Completes ret u (scope ∷ outer) first in
        let inside : (for_scope : Scope)
            → Completes (check_block e ret u (for_scope ∷ scope ∷ outer) [] body) =
          λ for_scope. block-Completes ret u (for_scope ∷ scope ∷ outer) [] body in
        search (for_cond-Completes, for_post-Completes, inside, flow_rules) depth 20
    stmt-Completes ret u outer scope (node l c break_stmt) = Completes-answer _
    stmt-Completes ret u outer scope (node l c continue_stmt) = Completes-answer _
    stmt-Completes ret u outer scope (node l c (defer_stmt x)) =
        search (expr-Completes, flow_rules) depth 20
    stmt-Completes ret u outer scope (node l c (expr_stmt x)) =
        search (expr-Completes, flow_rules) depth 20
    stmt-Completes ret u outer scope (node l c (block stmts)) =
        let inside = stmts-Completes ret u (scope ∷ outer) [] stmts in search flow_rules depth 20
    stmt-Completes ret u outer scope (node l c s) = Completes-refuse_with _ _ _

    pub block-Completes :
        (ret : Ty) (u : ℕ) (outer : Scopes) (scope : Scope) (n : Node)
        → Completes (check_block e ret u outer scope n)
    block-Completes ret u outer scope (node l c (block stmts)) =
        stmts-Completes ret u outer scope stmts
    block-Completes ret u outer scope n = Completes-answer _

    stmts-Completes :
        (ret : Ty) (u : ℕ) (outer : Scopes) (scope : Scope) (ns : Nodes)
        → Completes (check_stmts e ret u outer scope ns)
    stmts-Completes ret u outer scope none_left = Completes-answer _
    stmts-Completes ret u outer scope (next n ns) =
        then_in-Completes _ (stmt-Completes ret u outer scope n)
          λ s. stmts-Completes ret u outer s ns

    else-Completes :
        (ret : Ty) (u : ℕ) (outer : Scopes) (n : MaybeNode) → Completes (check_else e ret u outer n)
    else-Completes ret u outer null = Completes-answer _
    else-Completes ret u outer (at (node l c (block stmts))) = stmts-Completes ret u outer [] stmts
    else-Completes ret u outer (at n) = stmt-Completes ret u outer [] n

    init-Completes :
        (ret : Ty) (u : ℕ) (outer : Scopes) (n : MaybeNode) → Completes (check_init e ret u outer n)
    init-Completes ret u outer null = Completes-answer _
    init-Completes ret u outer (at n) = stmt-Completes ret u outer [] n
