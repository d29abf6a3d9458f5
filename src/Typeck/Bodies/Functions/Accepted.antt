-- ===== src/Typeck/Bodies/Functions/Accepted.antt =====
-- What the type checker accepts: compiler/src/typeck/typeck.c, lines 2419-2513.
use apex_forge_night_script.Base.{
  ℕ, ◌≡◌, refl, sym, ◌∙◌, ◌↔◌, Bool, true, false, Option, none, some, List, [], ◌∷◌, All, Bytes,
  if◌then◌else◌, case_option, case_list,
}
use apex_forge_night_script.Ast.{
  Node, Nodes, MaybeNode, Shape, node, none_left, next, items, fn_decl, impl_decl, kernel_app,
}
use apex_forge_night_script.Typeck.Scope.{Scope}
use apex_forge_night_script.Typeck.Visibility.{SemanticModel, PrivateSymbol}
use apex_forge_night_script.Typeck.Check.{TypeError, ran, Check, answer, ◌>>=◌, ◌>>◌, when_visible}
use apex_forge_night_script.Typeck.Check.Context.{Context}
use apex_forge_night_script.Typeck.Check.Answers.{bind-ran, bind-answer, answer-ran, ran-injective}
use apex_forge_night_script.Typeck.Bodies.Functions.Passes.{
  Passes, FunctionPasses, check_function-FunctionPasses,
}
use apex_forge_night_script.Typeck.Bodies.Functions.{
  body_answer, check_function, check_functions, checked_functions, check_decls, outside,
  typeck_check,
}

-- A check that answers 1 only without errors.
pub record Clean (m : Check Bool) : Type 0 where
  pub at : (es fs : List TypeError) → m es ≡ ran true fs → fs ≡ []

Clean-false : Clean (answer false)
Clean-false = record { at = λ es fs e. let wrong = (answer-ran e).0 in cc }

Clean-bind {ℓ} :
    {A : Type ℓ} (m : Check A) (f : A → Check Bool) → ((a : A) → Clean (f a)) → Clean (m >>= f)
Clean-bind m f h = record {
  at = λ es fs e. let s = bind-ran m f e in (h s.value).at s.errors fs s.second;
}

Clean-option {ℓ} :
    {A : Type ℓ} (o : Option A) {m : Check Bool} {f : A → Check Bool}
    → Clean m
    → ((a : A) → Clean (f a))
    → Clean (case_option o m f)
Clean-option none h k = h
Clean-option (some a) h k = k a

Clean-when_visible :
    (o : Option PrivateSymbol) {m : Check Bool} → Clean m → Clean (when_visible false o m)
unfolding when_visible ◌>>◌
Clean-when_visible none h = h
Clean-when_visible (some p) h = Clean-bind _ _ λ a. Clean-false

Clean-body_answer : (o : Option Scope) → Clean (body_answer o)
unfolding body_answer
Clean-body_answer none = record { at = λ es fs e. let wrong = (ran-injective e).0 in cc }
Clean-body_answer (some scope) = record { at = λ es fs e. clean es e }
  where
    clean :
        (es : List TypeError) {fs : List TypeError}
        → ran (case_list es true λ x rest. false) es ≡ ran true fs
        → fs ≡ []
    clean [] e = sym (ran-injective e).1
    clean (x ∷ es) e = let wrong = (ran-injective e).0 in cc

Clean-function : (fuel : ℕ) (e : Context) (f : Node) → Clean (check_function fuel e f)
unfolding check_function
Clean-function fuel e f =
    search (Clean-when_visible, Clean-option, Clean-bind, Clean-body_answer, Clean-false) depth 12

-- From no errors on.
StaysClean : Check Bool → Type 0
StaysClean m = (es : List TypeError) → m [] ≡ ran true es → es ≡ []

module _ (m rest : Check Bool) (clean : StaysClean m) where
  then_clean :
      StaysClean rest
      → (good : Bool) (es fs : List TypeError) → m [] ≡ ran good es
      → (if good then rest else answer false) es ≡ ran true fs
      → fs ≡ []
  unfolding StaysClean answer
  then_clean after true es fs h g =
      let none_left = clean es h in
      let second : rest [] ≡ ran true fs = rw none_left at g in after fs second
  then_clean after false es fs h g = let wrong = (ran-injective g).0 in cc

  both_clean : StaysClean rest → StaysClean (m >>= λ good. if good then rest else answer false)
  unfolding StaysClean
  both_clean after fs h =
      let s = bind-ran m _ h in then_clean after s.value s.errors fs s.first s.second

  split_pass :
      (good : Bool) (es : List TypeError)
      → m [] ≡ ran good es
      → (if good then rest else answer false) es ≡ ran true []
      → Passes m × Passes rest
  unfolding StaysClean answer
  split_pass true es h g =
      let none_left = clean es h in
      let first : Passes m = rw none_left at h in
      let second : Passes rest = rw none_left at g in (first, second)
  split_pass false es h g = let wrong = (ran-injective g).0 in cc

  both_pass : Passes (m >>= λ good. if good then rest else answer false) ↔ (Passes m × Passes rest)
  both_pass = (
    (λ h. let s = bind-ran m _ h in split_pass s.value s.errors s.first s.second),
    (λ (h, g). bind-answer m _ h ∙ g),
  )

-- The shapes of declarations that have no function of their own.
abbrev pub is_bodiless : Shape → Bool
is_bodiless s = elim s [
  | fn_decl name o p t ps r b pub' ↦ false
  | impl_decl target p i ms ↦ false
  | kernel_app name p fs pub' ↦ false
  | other ↦ true
]

nothing_wrong : Passes (answer true)
unfolding answer
nothing_wrong = refl

module _ (fuel : ℕ) (e : Context) where
  stays-function : (f : Node) → StaysClean (check_function fuel e f)
  unfolding StaysClean
  stays-function f es h = (Clean-function fuel e f).at [] es h

  stays-functions : (fs : List Node) → StaysClean (check_functions fuel e fs)
  unfolding StaysClean check_functions
  stays-functions [] es h = sym (answer-ran h).1
  stays-functions (f ∷ fs) es h =
      both_clean _ (check_functions fuel e fs) (stays-function f) (stays-functions fs) es h

  functions_pass :
      (fs : List Node) → Passes (check_functions fuel e fs) ↔ All (FunctionPasses fuel e) fs
  unfolding check_functions
  functions_pass [] = ((λ h. tt), (λ h. nothing_wrong))
  functions_pass (f ∷ fs) =
      let here = both_pass _ (check_functions fuel e fs) (stays-function f) in
      let there = functions_pass fs in
      let one = check_function-FunctionPasses fuel e f in
      ((λ h. (one.0 (here.0 h).0, there.0 (here.0 h).1)), (λ (h, hs). here.1 (one.1 h, there.1 hs)))

  -- What a declaration must have: a function, without type parameters, passes by itself, the methods of an
  -- impl and the functions of a kernel app each do, and a template and any other declaration have nothing
  -- that is checked.
  pub data Passing : Node → Type 0 where
    function :
        {l c : ℕ} {name : Bytes} {o p : Option Bytes} {ps : Nodes} {r b : MaybeNode} {pub' : Bool}
        → FunctionPasses fuel e (node l c (fn_decl name o p none_left ps r b pub'))
        → Passing (node l c (fn_decl name o p none_left ps r b pub'))
    template :
        {l c : ℕ} {name : Bytes} {o p : Option Bytes} {t : Node} {ts ps : Nodes} {r b : MaybeNode}
        {pub' : Bool}
        → Passing (node l c (fn_decl name o p (next t ts) ps r b pub'))
    methods :
        {l c : ℕ} {target : Bytes} {p i : Option Bytes} {ms : Nodes}
        → All (FunctionPasses fuel e) (items ms)
        → Passing (node l c (impl_decl target p i ms))
    kernels :
        {l c : ℕ} {name : Bytes} {p : Option Bytes} {fs : Nodes} {pub' : Bool}
        → All (FunctionPasses fuel e) (items fs)
        → Passing (node l c (kernel_app name p fs pub'))
    other : {l c : ℕ} {s : Shape} → is_bodiless s ≡ true → Passing (node l c s)

  passing : (d : Node) → All (FunctionPasses fuel e) (checked_functions d) → Passing d
  unfolding checked_functions
  passing (node l c (fn_decl name o p none_left ps r b pub')) (h, hs) = function h
  passing (node l c (fn_decl name o p (next t ts) ps r b pub')) h = template
  passing (node l c (impl_decl target p i ms)) h = methods h
  passing (node l c (kernel_app name p fs pub')) h = kernels h
  passing (node l c s) h = other refl

  bodiless_checked :
      (l c : ℕ) (s : Shape) → is_bodiless s ≡ true → checked_functions (node l c s) ≡ []
  unfolding checked_functions
  bodiless_checked l c (fn_decl name o p t ps r b pub') h = cc
  bodiless_checked l c (impl_decl target p i ms) h = cc
  bodiless_checked l c (kernel_app name p fs pub') h = cc
  bodiless_checked l c s h = refl

  passed : (d : Node) → Passing d → All (FunctionPasses fuel e) (checked_functions d)
  unfolding checked_functions
  passed d (function h) = (h, tt)
  passed d template = tt
  passed d (methods h) = h
  passed d (kernels h) = h
  passed d (other {l} {c} {s} h) = rw (bodiless_checked l c s h) tt

  decls_pass : (ds : List Node) → Passes (check_decls fuel e ds) ↔ All Passing ds
  unfolding check_decls
  decls_pass [] = ((λ h. tt), (λ h. nothing_wrong))
  decls_pass (d ∷ ds) =
      let here = both_pass _ (check_decls fuel e ds) (stays-functions (checked_functions d)) in
      let there = decls_pass ds in
      let first = functions_pass (checked_functions d) in
      (
        (λ h. (passing d (first.0 (here.0 h).0), there.0 (here.0 h).1)),
        (λ (h, hs). here.1 (first.1 (passed d h), there.1 hs)),
      )

-- The type checker accepts a program without an error exactly when of its declarations each function that
-- has no type parameters, each method of an impl and each function of a kernel app passes by itself, so
-- that no check depends on those before it: its result type is visible in its package, the program's
-- functions, the extern functions and its parameters have distinct names, the types of the parameters
-- are visible, and its body is checked without an error in the scope of all these. What is left unchecked is the functions with type parameters that
-- stand on their own, and the declarations of other kinds.
pub typeck_check-Passing :
    (fuel : ℕ) (address : Node → ℕ) (sema : SemanticModel) (decls : List Node)
    → (typeck_check fuel address sema decls ≡ ran true [])
      ↔ All (Passing fuel (outside address sema decls)) decls
unfolding typeck_check
typeck_check-Passing fuel address sema decls = decls_pass fuel (outside address sema decls) decls
