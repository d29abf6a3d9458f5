-- ===== src/Witnesses/BodyRuns.antt =====
-- The theorems on bodies, at a concrete program.
use apex_forge_night_script.Base.{
  ◌↔◌, ◌≡◌, refl, Bool, false, true, none, some, List, [], ◌∷◌, All, Bytes, beq, codes,
}
use apex_forge_night_script.Ast.{
  Node, node, Nodes, none_left, next, null, at, block, while_stmt, break_stmt, lit_bool, type_named,
  fn_decl, let_stmt, lit_int, ident, import_decl, program, items,
}
use apex_forge_night_script.Sema.Symbols.{is_symbol}
use apex_forge_night_script.Sema.Bodies.{analyze_expr}
use apex_forge_night_script.Sema.Bodies.Statements.{analyze_program}
use apex_forge_night_script.Sema.Analysis.{SemanticModel, sema_analyze}
use apex_forge_night_script.Sema.Analysis.Accepted.{Resolved, sema_analyze-Resolved}
use apex_forge_night_script.Sema.Bodies.Enclosing.{EnclosedDecl, analyze_program-Enclosed}

abbrev one : Node → Nodes
one n = next n none_left

-- fn f() -> void { body }
abbrev function : Nodes → Node
function body = node 1 1 (
    fn_decl (codes "f") none none none_left none_left (at (node 1 8 (type_named (codes "void"))))
      (at (node 1 16 (block body))) false)

abbrev break_here : Node
break_here = node 3 5 break_stmt

abbrev looping : List Node
looping =
    function (
      next (node 2 1 (let_stmt (codes "x") null (at (node 2 9 (lit_int 1))))) (
        one (
          node 3 1
            (while_stmt (node 3 3 (ident (codes "x"))) (node 3 4 (block (one break_here)))))))
    ∷ []

looping_clear : (analyze_program looping).had_error ≡ false
unfolding analyze_program analyze_expr is_symbol
looping_clear = refl

-- Without the loop it is refused.
stray_break : (analyze_program (function (one break_here) ∷ [])).had_error ≡ true
unfolding analyze_program analyze_expr is_symbol
stray_break = refl

analyze_program-Enclosed_example : All EnclosedDecl looping
analyze_program-Enclosed_example = analyze_program-Enclosed looping looping_clear

abbrev only_io : Bytes → Bool
only_io path = beq path (codes "app/std/io.afns")

abbrev imports : Nodes
imports = one (node 1 1 (import_decl (codes "std.io")))

abbrev decls : Nodes
decls =
    next
      (function
        (one (node 3 1 (while_stmt (node 3 3 (lit_bool 1)) (node 3 4 (block (one break_here)))))))
      none_left

abbrev source_name : Bytes
source_name = codes "app/main.afns"

abbrev one_function : SemanticModel
one_function = record {
  functions_of = items decls;
  extern_functions_of = [];
  structs_of = [];
  enums_of = [];
  unions_of = [];
  impls_of = [];
}

accepts :
    sema_analyze only_io source_name (node 1 1 (program null imports decls)) ≡ some one_function
unfolding sema_analyze analyze_expr is_symbol
accepts = refl

sema_analyze-Resolved_example :
    ((m : SemanticModel) × (sema_analyze only_io source_name (node 1 1 (program null imports decls))
        ≡ some m))
    ↔ (All (Resolved only_io source_name) (items imports)
        × ((analyze_program (items decls)).had_error ≡ false))
sema_analyze-Resolved_example = sema_analyze-Resolved only_io source_name 1 1 null imports decls
