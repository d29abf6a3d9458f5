-- ===== src/Witnesses/CheckRuns.antt =====
-- The theorems on the checks of expressions and bodies, at concrete programs.
use apex_forge_night_script.Base.{
  ℕ, ◌<◌, ◌≡◌, ◌≢◌, refl, ◌↔◌, true, false, none, some, List, [], ◌∷◌, All, Bytes, codes, beq,
  length, arith, if◌then◌else◌,
}
use apex_forge_night_script.Ast.{
  Node, Nodes, MaybeNode, node, none_left, next, null, at, type_named, fn_decl, const_stmt,
  let_stmt, return_stmt, block, lit_int, ident, binary, assign, union_decl,
}
use apex_forge_night_script.Typeck.Types.{Ty, plain, named, i32, int_literal}
use apex_forge_night_script.Typeck.Scope.{Scopes}
use apex_forge_night_script.Typeck.Visibility.{SemanticModel}
use apex_forge_night_script.Typeck.Check.{
  Check, ran, exhausted, answer, error_type, immutable_binding,
}
use apex_forge_night_script.Typeck.Check.Context.{Context}
use apex_forge_night_script.Typeck.Exprs.Constructors.{Operand, check_call_arguments}
use apex_forge_night_script.Typeck.Exprs.Constructors.Arguments.{Fits, check_call_arguments-Fits}
use apex_forge_night_script.Typeck.Exprs.Matches.{MatchArm, check_match_expr}
use apex_forge_night_script.Typeck.Exprs.Matches.Exhaustive.{
  Exhaustive, check_match_expr-Exhaustive,
}
use apex_forge_night_script.Typeck.Exprs.Walk.{check_expr}
use apex_forge_night_script.Typeck.Exprs.Walk.Named.{Names}
use apex_forge_night_script.Typeck.Exprs.Walk.Typing.{IsTyped}
use apex_forge_night_script.Typeck.Exprs.Walk.Typed.{check_expr-IsTyped}
use apex_forge_night_script.Typeck.Bodies.Functions.{outside, typeck_check}
use apex_forge_night_script.Typeck.Bodies.Functions.Constants.{Falling}
use apex_forge_night_script.Typeck.Bodies.Functions.Total.{Answers, typeck_check-Answers}
use apex_forge_night_script.Typeck.Bodies.Functions.Accepted.{Passing, typeck_check-Passing}

abbrev one : Node → Nodes
one n = next n none_left

abbrev i32_type : MaybeNode
i32_type = at (node 1 1 (type_named (codes "i32")))

abbrev name_of : Node → ℕ
name_of (node l c s) = l

-- fn f() -> i32 { body }
abbrev returning : Nodes → Node
returning body =
    node 3 1 (
      fn_decl (codes "f") none none none_left none_left i32_type (at (node 3 9 (block body))) false)

-- const M = N; const N = 5; fn f() -> i32 { return M + 1; }
abbrev constants : List Node
constants =
    node 1 1 (const_stmt (codes "M") null (node 1 5 (ident (codes "N"))))
    ∷ node 2 1 (const_stmt (codes "N") null (node 2 5 (lit_int 5)))
    ∷ returning (
        one (
          node 4 1 (
            return_stmt (
              at (
                node 4 3
                  (binary (codes "+") (node 4 3 (ident (codes "M"))) (node 4 5 (lit_int 1))))))))
    ∷ []

abbrev model : SemanticModel
model = record {
  functions = returning none_left ∷ [];
  extern_functions = [];
  structs = [];
  enums = [];
  unions =
      node 1 1
        (union_decl (codes "U") none (one (node 1 3 (let_stmt (codes "x") i32_type null))) false)
      ∷ [];
  impls = [];
}

-- The constants are entered one inside the other.
constants_accepted : typeck_check 2 name_of model constants ≡ ran true []
unfolding typeck_check
constants_accepted = refl

constants_short : typeck_check 1 name_of model constants ≡ exhausted
unfolding typeck_check
constants_short = refl

abbrev ranks : Bytes → ℕ
ranks name = if beq name (codes "M") then 1 else 0

ranks_bounded : (name : Bytes) → ranks name < 2
ranks_bounded name = ground arith

constants_fall : Falling ranks constants
unfolding Falling Names
constants_fall = (omega arith, (tt, (tt, tt)))

typeck_check-Answers_example : Answers (typeck_check 2 name_of model constants)
typeck_check-Answers_example =
    typeck_check-Answers ranks 2 name_of model constants ranks_bounded constants_fall

typeck_check-Passing_example :
    (typeck_check 2 name_of model constants ≡ ran true [])
    ↔ All (Passing 2 (outside name_of model constants)) constants
typeck_check-Passing_example = typeck_check-Passing 2 name_of model constants

abbrev context : Context
context = record {
  checker = record { sema = model; current_package = none };
  decls = constants;
  current_return_type = none;
  address = name_of;
  check_const = λ u n. answer (plain i32);
}

-- let x : i32, and let y that is immutable.
abbrev scopes : Scopes
scopes =
    (record { name = codes "x"; type = some (plain i32); mutable = true }
      ∷ record { name = codes "y"; type = some (plain i32); mutable = false }
      ∷ [])
    ∷ []

abbrev sum : Node
sum = node 2 5 (binary (codes "+") (node 2 5 (ident (codes "x"))) (node 2 9 (lit_int 1)))

abbrev assign_to : Bytes → Node
assign_to name = node 2 1 (assign (node 2 1 (ident name)) sum none)

assigned_run : check_expr context 0 scopes (assign_to (codes "x")) [] ≡ ran (plain i32) []
unfolding typeck_check
assigned_run = refl

-- The other binding is immutable.
immutable_run :
    check_expr context 0 scopes (assign_to (codes "y")) []
    ≡ ran error_type (record { line = 2; col = 1; message = immutable_binding (codes "y") } ∷ [])
unfolding typeck_check
immutable_run = refl

check_expr-IsTyped_example : IsTyped context 0 scopes (assign_to (codes "x")) (plain i32)
check_expr-IsTyped_example =
    check_expr-IsTyped context 0 scopes (assign_to (codes "x")) [] [] (plain i32) assigned_run

abbrev option_arm : Bytes → List Bytes → MatchArm
option_arm pattern bindings = record {
  pattern = pattern;
  bindings = bindings;
  node = node 1 1 (lit_int 1);
  value = λ scope. answer (plain i32);
}

abbrev option_arms : List MatchArm
option_arms = option_arm (codes "Some") (codes "v" ∷ []) ∷ option_arm (codes "None") [] ∷ []

abbrev option_subject : Check Ty
option_subject = answer (named (codes "Option[i32]"))

matched_run :
    check_match_expr context (node 1 1 (lit_int 0)) option_subject option_arms []
    ≡ ran (plain i32) []
unfolding typeck_check
matched_run = refl

i32_known : plain i32 ≢ error_type
i32_known h = cc

check_match_expr-Exhaustive_example : Exhaustive context option_subject option_arms []
check_match_expr-Exhaustive_example =
    check_match_expr-Exhaustive context (node 1 1 (lit_int 0)) option_subject option_arms [] []
      (plain i32) matched_run i32_known

abbrev parameters : List Node
parameters = node 1 1 (let_stmt (codes "n") i32_type null) ∷ []

abbrev arguments : List Operand
arguments =
    record { node = node 2 3 (lit_int 5); type = answer (plain int_literal); arguments = [] } ∷ []

arguments_run : check_call_arguments (node 2 1 (lit_int 0)) parameters arguments [] ≡ ran true []
unfolding typeck_check
arguments_run = refl

check_call_arguments-Fits_example :
    (length arguments ≡ length parameters) × Fits parameters arguments [] []
check_call_arguments-Fits_example =
    check_call_arguments-Fits (node 2 1 (lit_int 0)) parameters arguments [] [] arguments_run
