-- ===== src/Typeck/Bodies/Functions/Passes.antt =====
-- When a function passes by itself: compiler/src/typeck/typeck.c, lines 2419-2484.
use apex_forge_night_script.Base.{
  ℕ, ◌≡◌, refl, sym, ◌∙◌, ◌↔◌, Bool, true, false, Option, none, some, List, [], ◌∷◌, case_option,
  Option-cases, inl, inr, some-injective,
}
use mathlib.Core.Path.{ap₂}
use apex_forge_night_script.Ast.{Node, MaybeNode, null, at, line_of, col_of}
use apex_forge_night_script.Sema.Register.{fn_name, fn_params, fn_ret_type, let_name, let_type}
use apex_forge_night_script.Sema.Bodies.Statements.{fn_body}
use apex_forge_night_script.Typeck.Types.{Ty, type_from_ast}
use apex_forge_night_script.Typeck.Scope.{Scope, find_binding, scope_define}
use apex_forge_night_script.Typeck.Visibility.{ensure_type_visible, PrivateSymbol}
use apex_forge_night_script.Typeck.Check.{TypeError, ran, Check, answer, ◌>>=◌, ◌>>◌, when_visible}
use apex_forge_night_script.Typeck.Check.Context.{Context, make_function_type}
use apex_forge_night_script.Typeck.Check.Answers.{bind-ran, bind-answer, answer-ran, ran-injective}
use apex_forge_night_script.Typeck.Bodies.{check_block, then_in}
use apex_forge_night_script.Typeck.Bodies.Functions.{
  body_answer, check_function, check_fn_block, define_functions, define_parameters, function_scope,
  in_function, within,
}

-- The check answers 1, and reports nothing.
abbrev pub Passes : Check Bool → Type 0
Passes m = m [] ≡ ran true []

-- Functions with new names enter a scope with their types.
pub data Defines (e : Context) : List Node → Scope → Scope → Type 0 where
  defined_all : {s : Scope} → Defines e [] s s
  defines :
      {f : Node} {fs : List Node} {s s' : Scope}
      → find_binding s (fn_name f) ≡ none
      → Defines e fs
          (record { name = fn_name f; type = some (make_function_type e f); mutable = false } ∷ s)
          s'
      → Defines e (f ∷ fs) s s'

-- Parameters with new names and visible types enter a scope, and may be assigned to.
pub data Takes (e : Context) : List Node → Scope → Scope → Type 0 where
  taken_all : {s : Scope} → Takes e [] s s
  takes :
      {p : Node} {ps : List Node} {s s' : Scope}
      → ensure_type_visible e.checker (let_type p) (line_of p) (col_of p) ≡ none
      → find_binding s (let_name p) ≡ none
      → Takes e ps
          (record { name = let_name p; type = some (type_from_ast (let_type p)); mutable = true }
            ∷ s)
          s'
      → Takes e (p ∷ ps) s s'

-- A body that is there is checked as a block without an error.
pub data BodyPasses (e : Context) (ret : Ty) (s : Scope) : MaybeNode → Type 0 where
  no_body : BodyPasses e ret s null
  body :
      {b : Node} (after : Scope)
      → check_block e ret 0 [] s b [] ≡ ran (some after) []
      → BodyPasses e ret s (at b)

-- The function's result type is visible in its package, the program's functions, the extern ones and the
-- parameters have distinct names, the types of the parameters are visible, and the body passes in
-- the scope of these.
pub record FunctionPasses (fuel : ℕ) (e : Context) (f : Node) : Type 0 where
  pub result_visible :
      ensure_type_visible (in_function fuel e f).checker (fn_ret_type f) (line_of f) (col_of f)
      ≡ none
  pub globals : Scope
  pub externs : Scope
  pub locals : Scope
  pub functions_in : Defines (in_function fuel e f) e.checker.sema.functions [] globals
  pub externs_in : Defines (in_function fuel e f) e.checker.sema.extern_functions globals externs
  pub parameters_in : Takes (in_function fuel e f) (fn_params f) externs locals
  pub body_passes :
      BodyPasses (in_function fuel e f) (type_from_ast (fn_ret_type f)) locals (fn_body f)

define_functions-Defines :
    (e : Context) (fs : List Node) (s s' : Scope)
    → define_functions e fs s ≡ some s'
    → Defines e fs s s'
unfolding define_functions scope_define
define_functions-Defines e [] s s' h = rw (some-injective h) defined_all
define_functions-Defines e (f ∷ fs) s s' h = elim (Option-cases (find_binding s (fn_name f))) [
  | inl k ↦ defines k (define_functions-Defines e fs _ s' (rw k at h))
  | inr (b, k) ↦ cc
]

Defines-define_functions :
    (e : Context) {fs : List Node} {s s' : Scope}
    → Defines e fs s s'
    → define_functions e fs s ≡ some s'
unfolding define_functions scope_define
Defines-define_functions e defined_all = refl
Defines-define_functions e (defines k d) = rw k (Defines-define_functions e d)

-- A refusal answers what it is given.
refused {ℓ} :
    {A : Type ℓ} (p : PrivateSymbol) (a : A) {b : A} (k : Check A) {es : List TypeError}
    → when_visible a (some p) k [] ≡ ran b es
    → a ≡ b
unfolding when_visible ◌>>◌
refused p a k h = (answer-ran (bind-ran _ _ h).second).0

seen {ℓ} : {A : Type ℓ} (a : A) (k : Check A) → when_visible a none k [] ≡ k []
unfolding when_visible
seen a k = refl

module _ (e : Context) where
  define_parameters-Takes :
      (ps : List Node) (s s' : Scope) (es : List TypeError)
      → define_parameters e ps s [] ≡ ran (some s') es
      → Takes e ps s s' × (es ≡ [])
  unfolding define_parameters scope_define when_visible
  define_parameters-Takes [] s s' es h =
      let r = answer-ran h in (rw (some-injective r.0) taken_all, sym r.1)
  define_parameters-Takes (p ∷ ps) s s' es h =
      elim (Option-cases (ensure_type_visible e.checker (let_type p) (line_of p) (col_of p))) [
        | inr (q, v) ↦
            let rest =
              case_option (scope_define s (let_name p) (some (type_from_ast (let_type p))) true)
                (answer none) (define_parameters e ps) in
            let wrong : none ≡ some s' = refused q none rest (rw v at h) in cc
        | inl v ↦ elim (Option-cases (find_binding s (let_name p))) [
          | inr (b, k) ↦
              let wrong : answer none [] ≡ ran (some s') es = rw (v, k) at h in
              let apart = (answer-ran wrong).0 in cc
          | inl k ↦
              let (t, none_left) = define_parameters-Takes ps _ s' es (rw (v, k) at h) in
              (takes v k t, none_left)
        ]
      ]

  Takes-define_parameters :
      {ps : List Node} {s s' : Scope}
      → Takes e ps s s'
      → define_parameters e ps s [] ≡ ran (some s') []
  unfolding define_parameters scope_define answer when_visible
  Takes-define_parameters taken_all = refl
  Takes-define_parameters (takes v k t) = rw (v, k) (Takes-define_parameters t)

  fn_block-BodyPasses :
      (ret : Ty) (b : MaybeNode) (s after : Scope)
      → check_fn_block e ret b s [] ≡ ran (some after) []
      → BodyPasses e ret s b
  fn_block-BodyPasses ret null s after h = no_body
  fn_block-BodyPasses ret (at b) s after h = body after h

  BodyPasses-fn_block :
      {ret : Ty} {b : MaybeNode} {s : Scope}
      → BodyPasses e ret s b
      → (after : Scope) × (check_fn_block e ret b s [] ≡ ran (some after) [])
  unfolding answer
  BodyPasses-fn_block {s = s} no_body = (s, refl)
  BodyPasses-fn_block (body after h) = (after, h)

answered :
    (o : Option Scope) (es : List TypeError)
    → body_answer o es ≡ ran true []
    → (s : Scope) × (o ≡ some s) × (es ≡ [])
unfolding body_answer
answered none es h = let wrong = (ran-injective h).0 in cc
answered (some s) [] h = (s, refl, refl)
answered (some s) (x ∷ es) h = let wrong = (ran-injective h).0 in cc

module _ (fuel : ℕ) (e : Context) (f : Node) where
  function_scope-Defines :
      (s : Scope)
      → function_scope (in_function fuel e f) ≡ some s
      → (globals : Scope) × Defines (in_function fuel e f) e.checker.sema.functions [] globals
        × Defines (in_function fuel e f) e.checker.sema.extern_functions globals s
  unfolding function_scope within
  function_scope-Defines s h =
      let inside = in_function fuel e f in
      elim (Option-cases (define_functions inside e.checker.sema.functions [])) [
        | inl k ↦ let wrong : none ≡ some s = rw k at h in cc
        | inr (g, k) ↦ (
          g,
          define_functions-Defines inside _ [] g k,
          define_functions-Defines inside _ g s (rw k at h),
        )
      ]

  parameters-FunctionPasses :
      (o : Option Scope) (scope after : Scope) (es : List TypeError)
      → ensure_type_visible (in_function fuel e f).checker (fn_ret_type f) (line_of f) (col_of f)
        ≡ none
      → function_scope (in_function fuel e f) ≡ some scope
      → define_parameters (in_function fuel e f) (fn_params f) scope [] ≡ ran o es
      → case_option o
          (answer none)
          (λ s. check_fn_block (in_function fuel e f) (type_from_ast (fn_ret_type f)) (fn_body f) s)
          es
        ≡ ran (some after) []
      → FunctionPasses fuel e f
  parameters-FunctionPasses none scope after es v k h g = let apart = (answer-ran g).0 in cc
  parameters-FunctionPasses (some s) scope after es v k h g =
      let inside = in_function fuel e f in
      let (globals, functions_in, externs_in) = function_scope-Defines scope k in
      let (takes_all, none_left) = define_parameters-Takes inside (fn_params f) scope s es h in
      record {
        result_visible = v;
        globals = globals;
        externs = scope;
        locals = s;
        functions_in = functions_in;
        externs_in = externs_in;
        parameters_in = takes_all;
        body_passes = fn_block-BodyPasses inside _ (fn_body f) s after (rw none_left at g);
      }

  abbrev behind_scope : Scope → Check Bool
  behind_scope scope =
      then_in (define_parameters (in_function fuel e f) (fn_params f) scope)
        (check_fn_block (in_function fuel e f) (type_from_ast (fn_ret_type f)) (fn_body f))
      >>= body_answer

  body-FunctionPasses :
      (scope : Scope)
      → ensure_type_visible (in_function fuel e f).checker (fn_ret_type f) (line_of f) (col_of f)
        ≡ none
      → function_scope (in_function fuel e f) ≡ some scope
      → behind_scope scope [] ≡ ran true []
      → FunctionPasses fuel e f
  unfolding then_in
  body-FunctionPasses scope v k h =
      let a = bind-ran _ body_answer h in
      let (after, is_some, no_errors) = answered a.value a.errors a.second in
      let first = a.first ∙ ap₂ (λ o es. ran o es) is_some no_errors in
      let p = bind-ran _ _ first in
      parameters-FunctionPasses p.value scope after p.errors v k p.first p.second

  function-FunctionPasses : Passes (check_function fuel e f) → FunctionPasses fuel e f
  unfolding check_function when_visible
  function-FunctionPasses h =
      let inside = in_function fuel e f in
      elim (Option-cases
        (ensure_type_visible inside.checker (fn_ret_type f) (line_of f) (col_of f))) [
          | inr (q, v) ↦
              let rest = case_option (function_scope inside) (answer false) behind_scope in
              let wrong : false ≡ true = refused q false rest (rw v at h) in cc
          | inl v ↦ elim (Option-cases (function_scope inside)) [
            | inl k ↦
                let wrong : answer false [] ≡ ran true [] = (rw (v, k) at h) in
                let apart = (answer-ran wrong).0 in cc
            | inr (scope, k) ↦ body-FunctionPasses scope v k (rw (v, k) at h)
          ]
        ]

  FunctionPasses-function : FunctionPasses fuel e f → Passes (check_function fuel e f)
  unfolding check_function function_scope then_in when_visible body_answer within
  FunctionPasses-function a =
      let inside = in_function fuel e f in
      let gs = Defines-define_functions inside a.functions_in in
      let es = Defines-define_functions inside a.externs_in in
      let ps = Takes-define_parameters inside a.parameters_in in
      let (after, b) = BodyPasses-fn_block inside a.body_passes in
      let parameters = bind-answer _ _ ps in
      rw (a.result_visible, gs, es) (bind-answer _ body_answer (parameters ∙ b))

  -- A function passes exactly under these conditions.
  pub check_function-FunctionPasses : Passes (check_function fuel e f) ↔ FunctionPasses fuel e f
  check_function-FunctionPasses = (function-FunctionPasses, FunctionPasses-function)
