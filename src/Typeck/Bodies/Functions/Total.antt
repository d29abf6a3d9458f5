-- ===== src/Typeck/Bodies/Functions/Total.antt =====
-- `typeck_check` comes to an end: compiler/src/typeck/typeck.c, lines 2419-2513.
use apex_forge_night_script.Base.{
  ℕ, ◌<◌, ◌≡◌, refl, ◌++◌, Bool, false, Option, none, some, List, [], ◌∷◌, Bytes,
}
use apex_forge_night_script.Ast.{Node, MaybeNode, null, at}
use apex_forge_night_script.Typeck.Types.{Ty}
use apex_forge_night_script.Typeck.Scope.{Scope}
use apex_forge_night_script.Typeck.Visibility.{SemanticModel}
use apex_forge_night_script.Typeck.Check.{TypeError, CheckRun, ran}
use apex_forge_night_script.Typeck.Check.Context.{Context}
use apex_forge_night_script.Typeck.Check.Runs.{
  Completes, Grown, grown, Completes-answer, Completes-if, Completes-bind, completes_rules,
}
use apex_forge_night_script.Typeck.Exprs.Walk.NameParts.{ConstSettled}
use apex_forge_night_script.Typeck.Bodies.Total.{block-Completes, then_in-Completes}
use apex_forge_night_script.Typeck.Bodies.Functions.{
  within, in_function, define_parameters, check_fn_block, body_answer, check_function,
  check_functions, check_decls, outside, typeck_check,
}
use apex_forge_night_script.Typeck.Bodies.Functions.Constants.{Falling, Below, within-Settled}

params-Completes :
    (e : Context) (ps : List Node) (scope : Scope) → Completes (define_parameters e ps scope)
unfolding define_parameters
params-Completes e [] scope = Completes-answer _
params-Completes e (p ∷ ps) scope =
    let rest : (s : Scope) → Completes (define_parameters e ps s) = λ s. params-Completes e ps s in
    search (rest, completes_rules) depth 12

body_answer-Completes : (o : Option Scope) → Completes (body_answer o)
unfolding body_answer
body_answer-Completes none = record { at = λ es. grown _ [] }
body_answer-Completes (some scope) = record { at = λ es. grown _ [] }

module _ (rank : Bytes → ℕ) (fuel : ℕ) (bounded : (name : Bytes) → rank name < fuel) where
  fn_block-Completes :
      (e : Context) (ret : Ty) (b : MaybeNode) (scope : Scope)
      → ((u : ℕ) (name : Bytes) → ConstSettled e u name)
      → Completes (check_fn_block e ret b scope)
  unfolding check_fn_block
  fn_block-Completes e ret null scope h = Completes-answer _
  fn_block-Completes e ret (at b) scope h = block-Completes e h ret 0 [] scope b

  function-Completes :
      (e : Context) (f : Node) → Falling rank e.decls → Completes (check_function fuel e f)
  unfolding check_function Below in_function within
  function-Completes e f h =
      let settled : (u : ℕ) (name : Bytes) → ConstSettled (in_function fuel e f) u name =
        λ u name. within-Settled rank _ h fuel u name (bounded name) in
      search
        (
          params-Completes, then_in-Completes, fn_block-Completes, body_answer-Completes,
          completes_rules,
        )
        depth 20

  functions-Completes :
      (e : Context) (fs : List Node) → Falling rank e.decls → Completes (check_functions fuel e fs)
  unfolding check_functions
  functions-Completes e [] h = Completes-answer _
  functions-Completes e (f ∷ fs) h =
      Completes-bind _ (function-Completes e f h)
        λ good. Completes-if good (functions-Completes e fs h) (Completes-answer false)

  decls-Completes :
      (e : Context) (ds : List Node) → Falling rank e.decls → Completes (check_decls fuel e ds)
  unfolding check_decls
  decls-Completes e [] h = Completes-answer _
  decls-Completes e (d ∷ ds) h =
      Completes-bind _ (functions-Completes e _ h)
        λ good. Completes-if good (decls-Completes e ds h) (Completes-answer false)

-- An answer, and the errors that were reported.
pub record Answers (r : CheckRun Bool) : Type 0 where
  pub good : Bool
  pub errors : List TypeError
  pub answers : r ≡ ran good errors

Answers-Grown : {r : CheckRun Bool} → Grown [] r → Answers r
Answers-Grown (grown a new) = record { good = a; errors = new ++ []; answers = refl }

-- If the names in the value of every untyped constant rank below it, and the fuel is above every rank,
-- then the check of the program answers.
pub typeck_check-Answers :
    (rank : Bytes → ℕ) (fuel : ℕ) (address : Node → ℕ) (sema : SemanticModel) (decls : List Node)
    → ((name : Bytes) → rank name < fuel)
    → Falling rank decls
    → Answers (typeck_check fuel address sema decls)
unfolding typeck_check outside
typeck_check-Answers rank fuel address sema decls bounded h =
    Answers-Grown ((decls-Completes rank fuel bounded (outside address sema decls) decls h).at [])
