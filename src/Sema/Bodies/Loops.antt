-- ===== src/Sema/Bodies/Loops.antt =====
-- Where `break` and `continue` stand: compiler/src/sema/sema.c, lines 1016-1223.
use apex_forge_night_script.Base.{
  ℕ, suc, ◌≡◌, ◌≢◌, refl, not, Bool, true, false, ◌==◌, Option, none, some, [], ◌∷◌, Bool-cases,
  Option-cases, ◌++◌, inl, inr, subst, arith,
}
use apex_forge_night_script.Ast.{
  Node, Nodes, MaybeNode, node, null, at, none_left, next, block, if_stmt, while_stmt, loop_stmt,
  unsafe_stmt, break_stmt, continue_stmt, for_stmt,
}
use apex_forge_night_script.Sema.Analyzer.{
  SemaMessage, SemaError, Analyzer, break_outside, continue_outside, functions, extern_functions,
}
use apex_forge_night_script.Sema.Register.{fn_params}
use apex_forge_night_script.Sema.Symbols.{Locals, LocalScopes}
use apex_forge_night_script.Sema.Bodies.Statements.{
  Flow, passes, reports, guard, flow_then, leave, in_loop, analyze_stmt, analyze_block,
  analyze_stmts, analyze_else, analyze_init, analyze_fn_block, analyze_function_body, body_result,
  body_accepted, body_refused, define_decls, define_params, fn_body,
}

-- Each `break` and `continue` of a statement is inside a loop: one of the statement's, or one that the
-- statement stands in.
unfoldable mutual
  pub Enclosed : Bool → Node → Type 0
  Enclosed inside (node l c break_stmt) = inside ≡ true
  Enclosed inside (node l c continue_stmt) = inside ≡ true
  Enclosed inside (node l c (if_stmt cond then_block else_node)) =
      EnclosedBlock inside then_block × EnclosedMaybe inside else_node
  Enclosed inside (node l c (while_stmt cond body)) = EnclosedBlock true body
  Enclosed inside (node l c (loop_stmt body)) = EnclosedBlock true body
  Enclosed inside (node l c (unsafe_stmt body)) = EnclosedBlock inside body
  Enclosed inside (node l c (for_stmt first cond post body)) =
      EnclosedMaybe inside first × EnclosedBlock true body
  Enclosed inside (node l c (block stmts)) = EnclosedAll inside stmts
  Enclosed inside n = Unit {0}

  -- The body of a statement is a block.
  pub EnclosedBlock : Bool → Node → Type 0
  EnclosedBlock inside (node l c (block stmts)) = EnclosedAll inside stmts
  EnclosedBlock inside n = Unit {0}

  pub EnclosedMaybe : Bool → MaybeNode → Type 0
  EnclosedMaybe inside null = Unit {0}
  EnclosedMaybe inside (at n) = Enclosed inside n

  pub EnclosedAll : Bool → Nodes → Type 0
  EnclosedAll inside none_left = Unit {0}
  EnclosedAll inside (next n ns) = Enclosed inside n × EnclosedAll inside ns

-- What holds if the flow passes.
data Passing (P : Type 0) : Flow → Type 0 where
  passing : {s : Locals} → P → Passing P (passes s)
  reporting : {e : SemaError} → Passing P (reports e)

Passing-passes : {P : Type 0} {f : Flow} {s : Locals} → Passing P f → f ≡ passes s → P
Passing-passes (passing h) e = h
Passing-passes reporting e = cc

Passing-guard : {P : Type 0} (c : Option SemaError) {f : Flow} → Passing P f → Passing P (guard c f)
Passing-guard none h = h
Passing-guard (some e) h = reporting

Passing-map : {P Q : Type 0} {f : Flow} → (P → Q) → Passing P f → Passing Q f
Passing-map g (passing h) = passing (g h)
Passing-map g reporting = reporting

Passing-then :
    {P Q : Type 0} {f : Flow} {k : Locals → Flow}
    → Passing P f
    → ((s : Locals) → Passing Q (k s))
    → Passing (P × Q) (flow_then f k)
Passing-then (passing {s} p) h = Passing-map (λ q. (p, q)) (h s)
Passing-then reporting h = reporting

Passing-leave : {P : Type 0} (scope : Locals) {f : Flow} → Passing P f → Passing P (leave scope f)
Passing-leave scope (passing h) = passing h
Passing-leave scope reporting = reporting

Passing-any : (f : Flow) → Passing (Unit {0}) f
Passing-any (passes s) = passing tt
Passing-any (reports e) = reporting

in_loop-Passing :
    (depth : ℕ) (n : Node) (m : SemaMessage) (scope : Locals)
    → Passing (not (depth == 0) ≡ true) (in_loop depth n m scope)
in_loop-Passing depth n m scope = elim (Bool-cases (depth == 0)) [
  | inl e ↦ rw e reporting
  | inr e ↦ rw e (passing refl)
]

suc_inside : (depth : ℕ) → not (suc depth == 0) ≡ true
suc_inside depth = ground arith

in_body :
    (depth : ℕ) (n : Node) {f : Flow}
    → Passing (EnclosedBlock (not (suc depth == 0)) n) f
    → Passing (EnclosedBlock true n) f
in_body depth n {f} h = subst (λ b. Passing (EnclosedBlock b n) f) (suc_inside depth) h

mutual
  unfolding Enclosed EnclosedBlock EnclosedMaybe EnclosedAll analyze_stmt analyze_block
      analyze_stmts analyze_else analyze_init

  stmt-Passing :
      (a : Analyzer) (depth : ℕ) (outer : LocalScopes) (scope : Locals) (n : Node)
      → Passing (Enclosed (not (depth == 0)) n) (analyze_stmt a depth outer scope n)
  stmt-Passing a depth outer scope (node l c (if_stmt cond then_block else_node)) =
      Passing-guard _ (
        Passing-then (block-Passing a depth (scope ∷ outer) [] then_block)
          λ s. Passing-leave scope (else-Passing a depth (scope ∷ outer) else_node))
  stmt-Passing a depth outer scope (node l c (while_stmt cond body)) = Passing-guard _ (
      Passing-leave scope
        (in_body depth body (block-Passing a (suc depth) (scope ∷ outer) [] body)))
  stmt-Passing a depth outer scope (node l c (loop_stmt body)) =
      Passing-leave scope (in_body depth body (block-Passing a (suc depth) (scope ∷ outer) [] body))
  stmt-Passing a depth outer scope (node l c (unsafe_stmt body)) =
      Passing-leave scope (block-Passing a depth (scope ∷ outer) [] body)
  stmt-Passing a depth outer scope (node l c (for_stmt first cond post body)) =
      Passing-then (init-Passing a depth (scope ∷ outer) first) λ s. Passing-guard _ (
        Passing-guard _ (
          Passing-leave scope
            (in_body depth body (block-Passing a (suc depth) (s ∷ scope ∷ outer) [] body))))
  stmt-Passing a depth outer scope (node l c break_stmt) =
      in_loop-Passing depth (node l c break_stmt) break_outside scope
  stmt-Passing a depth outer scope (node l c continue_stmt) =
      in_loop-Passing depth (node l c continue_stmt) continue_outside scope
  stmt-Passing a depth outer scope (node l c (block stmts)) =
      Passing-leave scope (stmts-Passing a depth (scope ∷ outer) [] stmts)
  stmt-Passing a depth outer scope n = Passing-any _

  block-Passing :
      (a : Analyzer) (depth : ℕ) (outer : LocalScopes) (scope : Locals) (n : Node)
      → Passing (EnclosedBlock (not (depth == 0)) n) (analyze_block a depth outer scope n)
  block-Passing a depth outer scope (node l c (block stmts)) =
      stmts-Passing a depth outer scope stmts
  block-Passing a depth outer scope n = Passing-any _

  stmts-Passing :
      (a : Analyzer) (depth : ℕ) (outer : LocalScopes) (scope : Locals) (ns : Nodes)
      → Passing (EnclosedAll (not (depth == 0)) ns) (analyze_stmts a depth outer scope ns)
  stmts-Passing a depth outer scope none_left = passing tt
  stmts-Passing a depth outer scope (next n ns) =
      Passing-then (stmt-Passing a depth outer scope n) λ s. stmts-Passing a depth outer s ns

  else-Passing :
      (a : Analyzer) (depth : ℕ) (outer : LocalScopes) (m : MaybeNode)
      → Passing (EnclosedMaybe (not (depth == 0)) m) (analyze_else a depth outer m)
  else-Passing a depth outer null = passing tt
  else-Passing a depth outer (at (node l c (block stmts))) = stmts-Passing a depth outer [] stmts
  else-Passing a depth outer (at n) = stmt-Passing a depth outer [] n

  init-Passing :
      (a : Analyzer) (depth : ℕ) (outer : LocalScopes) (m : MaybeNode)
      → Passing (EnclosedMaybe (not (depth == 0)) m) (analyze_init a depth outer m)
  init-Passing a depth outer null = passing tt
  init-Passing a depth outer (at n) = stmt-Passing a depth outer [] n

abbrev pub EnclosedBody : MaybeNode → Type 0
unfolding EnclosedBlock
EnclosedBody null = Unit {0}
EnclosedBody (at b) = EnclosedBlock false b

fn_block-Passing :
    (a : Analyzer) (m : MaybeNode) (s : Locals) → Passing (EnclosedBody m) (analyze_fn_block a m s)
unfolding analyze_block EnclosedBlock
fn_block-Passing a null s = passing tt
fn_block-Passing a (at b) s = block-Passing a 0 [] s b

refused-accepted : body_refused ≢ body_accepted
refused-accepted e = cc

result-Enclosed : {P Q : Type 0} {f : Flow} → Passing (P × Q) f → body_result f ≡ body_accepted → Q
result-Enclosed (passing h) e = h.1
result-Enclosed reporting e = cc

pub analyze_function_body-Enclosed :
    (a : Analyzer) (n : Node) → analyze_function_body a n ≡ body_accepted → EnclosedBody (fn_body n)
unfolding analyze_function_body EnclosedBlock
analyze_function_body-Enclosed a n h =
    elim (Option-cases (define_decls (a.decls functions ++ a.decls extern_functions) [])) [
      | inl e ↦ absurd (refused-accepted (rw e at h))
      | inr (s, e) ↦
          result-Enclosed
            (Passing-then (Passing-any (define_params (fn_params n) s))
              λ t. fn_block-Passing a (fn_body n) t)
            (rw e at h)
    ]
