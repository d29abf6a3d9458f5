-- ===== src/Sema/Analysis/Accepted.antt =====
-- What an accepted program has: compiler/src/sema/sema.c, lines 1269-1464.
use apex_forge_night_script.Base.{
  ℕ, ◌≡◌, ◌≢◌, ◌↔◌, arith, refl, Bool, true, false, ◌==◌, Option, none, some, List, [], ◌∷◌, Bytes,
  All, if◌then◌else◌, case_option, length,
}
use apex_forge_night_script.Ast.{Node, Nodes, MaybeNode, node, items, program}
use apex_forge_night_script.Sema.Analyzer.{Analyzer, SemaError, sema_error}
use apex_forge_night_script.Sema.Imports.{check_import, check_imports, import_path}
use apex_forge_night_script.Sema.Imports.Paths.{
  Names, import_path_exists-Names, Names-import_path_exists,
}
use apex_forge_night_script.Sema.Bodies.Statements.{analyze_program}
use apex_forge_night_script.Sema.Bodies.Enclosing.{if-clear}
use apex_forge_night_script.Sema.Analysis.{SemanticModel, analyze_all, model_of, sema_analyze}

-- An import whose path is not empty and names a file beside the source.
abbrev pub Resolved : (Bytes → Bool) → Bytes → Node → Type 0
Resolved file_exists source_name n =
    (import_path n ≢ []) × Names file_exists source_name (import_path n)

step-clear :
    (c : Option SemaError) (a : Analyzer)
    → (case_option c a (sema_error a)).had_error ≡ false
    → (a.had_error ≡ false) × (c ≡ none)
step-clear none a h = (h, refl)
step-clear (some e) a h = cc

-- A test that refuses where it holds did not hold.
passed-test :
    (b : Bool) (e : SemaError) (r : Option SemaError)
    → (if b then some e else r) ≡ none
    → (b ≡ false) × (r ≡ none)
passed-test true e r h = cc
passed-test false e r h = (refl, h)

passed-check : (b : Bool) (e : SemaError) → (if b then none else some e) ≡ none → b ≡ true
passed-check true e h = refl
passed-check false e h = cc

length-not_empty : (path : Bytes) → (length path == 0) ≡ false → path ≢ []
length-not_empty [] h = λ e. cc
length-not_empty (c ∷ cs) h = λ e. cc

check_import-Resolved :
    (file_exists : Bytes → Bool) (source_name : Bytes) (n : Node)
    → check_import file_exists source_name n ≡ none
    → Resolved file_exists source_name n
unfolding check_import
check_import-Resolved file_exists source_name n h =
    let tests = passed-test (length (import_path n) == 0) _ _ h in
    (
      length-not_empty (import_path n) tests.0,
      import_path_exists-Names file_exists source_name (import_path n) (passed-check _ _ tests.1),
    )

not_empty-length : (path : Bytes) → path ≢ [] → (length path == 0) ≡ false
not_empty-length [] h = absurd (h refl)
not_empty-length (c ∷ cs) h = ground arith

Resolved-check_import :
    (file_exists : Bytes → Bool) (source_name : Bytes) (n : Node)
    → Resolved file_exists source_name n
    → check_import file_exists source_name n ≡ none
unfolding check_import
Resolved-check_import file_exists source_name n (h, r) =
    let long = not_empty-length (import_path n) h in
    let found = Names-import_path_exists file_exists source_name (import_path n) r in
    rw (long, found) refl

Resolved-check_imports :
    (file_exists : Bytes → Bool) (source_name : Bytes) (ns : List Node) (a : Analyzer)
    → All (Resolved file_exists source_name) ns
    → check_imports file_exists source_name ns a ≡ a
unfolding check_imports
Resolved-check_imports file_exists source_name [] a h = refl
Resolved-check_imports file_exists source_name (n ∷ ns) a (h, hs) =
    rw (Resolved-check_import file_exists source_name n h)
      (Resolved-check_imports file_exists source_name ns a hs)

check_imports-clear :
    (file_exists : Bytes → Bool) (source_name : Bytes) (ns : List Node) (a : Analyzer)
    → (check_imports file_exists source_name ns a).had_error ≡ false
    → (a.had_error ≡ false) × All (Resolved file_exists source_name) ns
unfolding check_imports
check_imports-clear file_exists source_name [] a h = (h, tt)
check_imports-clear file_exists source_name (n ∷ ns) a h =
    let rest = check_imports-clear file_exists source_name ns _ h in
    let here = step-clear (check_import file_exists source_name n) a rest.0 in
    (here.0, (check_import-Resolved file_exists source_name n here.1, rest.1))

analyze_all-clear :
    (file_exists : Bytes → Bool) (source_name : Bytes) (imports decls : List Node)
    → (analyze_all file_exists source_name imports decls).had_error ≡ false
    → All (Resolved file_exists source_name) imports × ((analyze_program decls).had_error ≡ false)
unfolding analyze_all
analyze_all-clear file_exists source_name imports decls h =
    let a = analyze_program decls in
    let passed = if-clear a.had_error a (check_imports file_exists source_name imports a) refl h in
    ((check_imports-clear file_exists source_name imports a passed.1).1, passed.0)

Resolved-analyze_all :
    (file_exists : Bytes → Bool) (source_name : Bytes) (imports decls : List Node)
    → All (Resolved file_exists source_name) imports
    → (analyze_program decls).had_error ≡ false
    → (analyze_all file_exists source_name imports decls).had_error ≡ false
unfolding analyze_all
Resolved-analyze_all file_exists source_name imports decls r h =
    let same = Resolved-check_imports file_exists source_name imports (analyze_program decls) r in
    rw (h, same) h

some-clear : (b : Bool) (m n : SemanticModel) → (if b then none else some m) ≡ some n → b ≡ false
some-clear true m n h = cc
some-clear false m n h = refl

-- `sema_analyze` accepts a program exactly when its declarations and bodies are analyzed without an error
-- and each import's path is not empty and names a file: with slashes for its dots and `.afns` or
-- `/main.afns` behind it, it is the path of a file in the source's directory, which is what stands before
-- the last slash of the source's name, `/` if that is the first byte, and `.` if it has no slash.
-- `file_exists` is what the file system answers.
pub sema_analyze-Resolved :
    (file_exists : Bytes → Bool) (source_name : Bytes) (l c : ℕ) (package_node : MaybeNode)
    (imports decls : Nodes)
    → ((m : SemanticModel) × (sema_analyze file_exists source_name
            (node l c (program package_node imports decls))
          ≡ some m))
      ↔ (All (Resolved file_exists source_name) (items imports)
          × ((analyze_program (items decls)).had_error ≡ false))
unfolding sema_analyze
sema_analyze-Resolved file_exists source_name l c package_node imports decls =
    let is = items imports in
    let ds = items decls in
    (
      (λ (m, h). analyze_all-clear file_exists source_name is ds (some-clear _ _ m h)),
      (λ (r, h). (
        model_of (analyze_all file_exists source_name is ds) ds,
        rw (Resolved-analyze_all file_exists source_name is ds r h) refl,
      )),
    )
