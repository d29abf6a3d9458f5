-- ===== src/Typeck/Exprs/Constructors/Arguments.antt =====
-- The arguments of an accepted call fit the parameters: compiler/src/typeck/typeck.c, lines 984-1013.
use apex_forge_night_script.Base.{
  ◌≡◌, subst, inl, inr, Bool, true, false, some, List, [], ◌∷◌, ◌==◌, ==_iff, length, Bool-cases,
  arith,
}
use apex_forge_night_script.Ast.{Node}
use apex_forge_night_script.Sema.Register.{let_type}
use apex_forge_night_script.Typeck.Types.{Ty, is_assignable, type_from_ast}
use apex_forge_night_script.Typeck.Check.{
  TypeError, CheckMessage, ran, ◌>>◌, refuse_with, argument_mismatch, shown, expected_arguments,
}
use apex_forge_night_script.Typeck.Check.Answers.{bind-ran, answer-ran}
use apex_forge_night_script.Typeck.Exprs.Constructors.{
  Operand, check_in_context, argument_loop, check_call_arguments,
}

-- Each argument, checked where its parameter's type is expected, has a type that is assignable to it; the
-- errors go through the arguments from left to right.
pub data Fits : List Node → List Operand → List TypeError → List TypeError → Type 0 where
  no_parameters : {es : List TypeError} → Fits [] [] es es
  fits :
      {p : Node} {ps : List Node} {x : Operand} {xs : List Operand} {es fs : List TypeError}
      (between : List TypeError) (actual : Ty)
      → check_in_context (type_from_ast (let_type p)) x es ≡ ran actual between
      → is_assignable (some (type_from_ast (let_type p))) (some actual) ≡ true
      → Fits ps xs between fs
      → Fits (p ∷ ps) (x ∷ xs) es fs

refused-false :
    (n : Node) (m : CheckMessage) (es : List TypeError) {fs : List TypeError} {b : Bool}
    → refuse_with false n m es ≡ ran b fs
    → false ≡ b
unfolding refuse_with ◌>>◌
refused-false n m es h = (answer-ran (bind-ran _ _ h).second).0

argument_loop-Fits :
    (ps : List Node) (xs : List Operand) (es fs : List TypeError)
    → length xs ≡ length ps
    → argument_loop ps xs es ≡ ran true fs
    → Fits ps xs es fs
unfolding argument_loop
argument_loop-Fits [] [] es fs l h = subst (Fits [] [] es) (answer-ran h).1 no_parameters
argument_loop-Fits [] (x ∷ xs) es fs l h = absurd (omega arith)
argument_loop-Fits (p ∷ ps) [] es fs l h = absurd (omega arith)
argument_loop-Fits (p ∷ ps) (x ∷ xs) es fs l h =
    let expected = type_from_ast (let_type p) in
    let s = bind-ran (check_in_context expected x) _ h in
    elim (Bool-cases (is_assignable (some expected) (some s.value))) [
      | inl e ↦
          let rest : argument_loop ps xs s.errors ≡ ran true fs = rw e at s.second in
          fits s.errors s.value s.first e (argument_loop-Fits ps xs s.errors fs (omega arith) rest)
      | inr e ↦
          let refused : refuse_with false x.node
                (argument_mismatch (shown expected) (shown s.value)) s.errors
              ≡ ran true fs =
            rw e at s.second in
          let wrong = refused-false _ _ s.errors refused in cc
    ]

-- A call whose arguments are accepted has as many of them as there are parameters, and each fits its own.
pub check_call_arguments-Fits :
    (n : Node) (params : List Node) (xs : List Operand) (es fs : List TypeError)
    → check_call_arguments n params xs es ≡ ran true fs
    → (length xs ≡ length params) × Fits params xs es fs
unfolding check_call_arguments
check_call_arguments-Fits n params xs es fs h = elim (Bool-cases (length xs == length params)) [
  | inl e ↦
      let same = (==_iff (length xs) (length params)).0 e in
      (same, argument_loop-Fits params xs es fs same (rw e at h))
  | inr e ↦
      let refused : refuse_with false n (expected_arguments (length params) (length xs)) es
          ≡ ran true fs =
        rw e at h in
      let wrong = refused-false _ _ es refused in cc
]
