-- ===== src/Sema/Analysis.antt =====
-- The whole analysis: `sema_analyze`, compiler/src/sema/sema.c, lines 1226-1464, and SemanticModel of sema.h.
pub mod Accepted
use apex_forge_night_script.Base.{
  ℕ, Bool, true, false, Option, none, some, List, [], ◌∷◌, Bytes, map, if◌then◌else◌, case_option,
}
use apex_forge_night_script.Ast.{Node, node, items, program, impl_decl}
use apex_forge_night_script.Sema.Analyzer.{
  Analyzer, NamedDecl, Table, functions, extern_functions, structs, enums, unions,
}
use apex_forge_night_script.Sema.Bodies.Statements.{analyze_program}
use apex_forge_night_script.Sema.Imports.{check_imports}

pub record SemanticModel : Type 0 where
  pub functions_of : List Node
  pub extern_functions_of : List Node
  pub structs_of : List Node
  pub enums_of : List Node
  pub unions_of : List Node
  pub impls_of : List Node

abbrev pub copy_nodes_from_named : List NamedDecl → List Node
copy_nodes_from_named [] = []
copy_nodes_from_named (d ∷ ds) = d.node ∷ copy_nodes_from_named ds

abbrev pub is_impl : Node → Bool
is_impl (node l c (impl_decl target p i ms)) = true
is_impl _ = false

unfoldable pub copy_impl_nodes : List Node → List Node
copy_impl_nodes [] = []
copy_impl_nodes (n ∷ ns) = let rest = copy_impl_nodes ns in if is_impl n then n ∷ rest else rest

unfoldable pub model_of : Analyzer → List Node → SemanticModel
unfolding copy_impl_nodes
model_of a decls = record {
  functions_of = copy_nodes_from_named (a.decls functions);
  extern_functions_of = copy_nodes_from_named (a.decls extern_functions);
  structs_of = copy_nodes_from_named (a.decls structs);
  enums_of = copy_nodes_from_named (a.decls enums);
  unions_of = copy_nodes_from_named (a.decls unions);
  impls_of = copy_impl_nodes decls;
}

-- The analyzer behind all passes over a program's declarations and imports.
unfoldable pub analyze_all : (Bytes → Bool) → Bytes → List Node → List Node → Analyzer
unfolding analyze_program check_imports
analyze_all file_exists source_name imports decls =
    let a = analyze_program decls in
    if a.had_error then a else check_imports file_exists source_name imports a

-- The answer 0 is `none`; a root that is no program is refused.
unfoldable pub sema_analyze : (Bytes → Bool) → Bytes → Node → Option SemanticModel
unfolding analyze_all model_of
sema_analyze file_exists source_name (node l c (program package_node imports decls)) =
    let a = analyze_all file_exists source_name (items imports) (items decls) in
    if a.had_error then none else some (model_of a (items decls))
sema_analyze file_exists source_name _ = none
