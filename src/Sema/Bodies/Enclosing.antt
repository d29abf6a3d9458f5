-- ===== src/Sema/Bodies/Enclosing.antt =====
-- The bodies of whole programs: compiler/src/sema/sema.c, lines 1382-1403.
use apex_forge_night_script.Base.{◌≡◌, refl, Bool, true, false, List, [], ◌∷◌, if◌then◌else◌, All}
use apex_forge_night_script.Ast.{Node, node, fn_decl, impl_decl, kernel_app, items}
use apex_forge_night_script.Sema.Analyzer.{Analyzer}
use apex_forge_night_script.Sema.Declare.{until_error, has_any, declare_all}
use apex_forge_night_script.Sema.Bodies.Statements.{
  analyze_function_body, BodyResult, body_accepted, body_refused, body_reported, fn_body,
  after_body, analyze_body, analyze_decl, analyze_bodies, analyze_program,
}
use apex_forge_night_script.Sema.Bodies.Loops.{EnclosedBody, analyze_function_body-Enclosed}

body_result-accepted :
    (r : BodyResult) (a : Analyzer) → (after_body r a).had_error ≡ false → r ≡ body_accepted
body_result-accepted body_accepted a h = refl
body_result-accepted body_refused a h = cc
body_result-accepted (body_reported e) a h = cc

analyze_body-Enclosed :
    (a : Analyzer) (n : Node) → (analyze_body a n).had_error ≡ false → EnclosedBody (fn_body n)
unfolding analyze_body
analyze_body-Enclosed a n h =
    analyze_function_body-Enclosed a n (body_result-accepted (analyze_function_body a n) a h)

pub if-clear :
    (b : Bool) (x y : Analyzer)
    → b ≡ x.had_error
    → (if b then x else y).had_error ≡ false
    → (b ≡ false) × (y.had_error ≡ false)
if-clear true x y e h = cc
if-clear false x y e h = (refl, h)

until_error-clear :
    (f : Analyzer → Node → Analyzer) (ns : List Node) (a : Analyzer)
    → (until_error f ns a).had_error ≡ false
    → a.had_error ≡ false
unfolding until_error
until_error-clear f [] a h = h
until_error-clear f (n ∷ ns) a h = (if-clear a.had_error a _ refl h).0

-- A loop that ends without an error has gone through all nodes, each without one.
until_error-All :
    {P : Node → Type 0} (f : Analyzer → Node → Analyzer) (ns : List Node) (a : Analyzer)
    → ((b : Analyzer) (n : Node) → (f b n).had_error ≡ false → P n)
    → (until_error f ns a).had_error ≡ false
    → All P ns
unfolding until_error
until_error-All f [] a g h = tt
until_error-All f (n ∷ ns) a g h =
    let rest = (if-clear a.had_error a (until_error f ns (f a n)) refl h).1 in
    (g a n (until_error-clear f ns (f a n) rest), until_error-All f ns (f a n) g rest)

-- The bodies that are analyzed with a declaration.
abbrev pub EnclosedDecl : Node → Type 0
EnclosedDecl (node l c (fn_decl name o p t ps r b pub')) =
    if has_any t then Unit {0} else EnclosedBody b
EnclosedDecl (node l c (impl_decl target p i ms)) = All (λ m. EnclosedBody (fn_body m)) (items ms)
EnclosedDecl (node l c (kernel_app name p fs pub')) = All (λ m. EnclosedBody (fn_body m)) (items fs)
EnclosedDecl _ = Unit {0}

fn-Enclosed :
    (b : Bool) (a : Analyzer) (n : Node)
    → (if b then a else analyze_body a n).had_error ≡ false
    → (if b then Unit {0} else EnclosedBody (fn_body n))
fn-Enclosed true a n h = tt
fn-Enclosed false a n h = analyze_body-Enclosed a n h

decl-Enclosed : (a : Analyzer) (n : Node) → (analyze_decl a n).had_error ≡ false → EnclosedDecl n
unfolding analyze_decl
decl-Enclosed a (node l c (fn_decl name o p t ps r b pub')) h =
    fn-Enclosed (has_any t) a (node l c (fn_decl name o p t ps r b pub')) h
decl-Enclosed a (node l c (impl_decl target p i ms)) h =
    until_error-All analyze_body (items ms) a analyze_body-Enclosed h
decl-Enclosed a (node l c (kernel_app name p fs pub')) h =
    until_error-All analyze_body (items fs) a analyze_body-Enclosed h
decl-Enclosed a _ h = tt

-- If the analysis of a program ends without an error, every `break` and `continue` in the bodies of its
-- functions, methods and kernel functions is inside a loop of that body. The bodies of templates are not
-- analyzed, and nothing is said of them.
pub analyze_program-Enclosed :
    (decls : List Node) → (analyze_program decls).had_error ≡ false → All EnclosedDecl decls
unfolding analyze_program analyze_bodies
analyze_program-Enclosed decls h =
    until_error-All analyze_decl decls (declare_all decls) decl-Enclosed h
