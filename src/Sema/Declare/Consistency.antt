-- ===== src/Sema/Declare/Consistency.antt =====
-- The tables after the passes over the declarations: compiler/src/sema/sema.c, lines
-- 1269 to 1371.
use apex_forge_night_script.Base.{List}
use apex_forge_night_script.Ast.{Node}
use apex_forge_night_script.Sema.Analyzer.{push_method_decl}
use apex_forge_night_script.Sema.Register.Tables.{
  IsConsistent, register_decl-IsConsistent, register_global_name-IsConsistent,
  empty_analyzer-IsConsistent,
}
use apex_forge_night_script.Sema.Declare.{declare_all}
use apex_forge_night_script.Sema.Declare.Invariants.{Kept, declare_all-Kept}

IsConsistent-Kept : Kept IsConsistent
unfolding push_method_decl
IsConsistent-Kept = record {
  error = λ a e c. c;
  failed = λ a c. c;
  method = λ a m c. c;
  global = register_global_name-IsConsistent;
  decl = register_decl-IsConsistent;
}

-- After the passes over any declarations, accepted or not, no global name is there twice, every
-- function, struct, enum, union and interface that was entered has a global name, and no two of these
-- tables share a name.
pub declare_all-IsConsistent : (decls : List Node) → IsConsistent (declare_all decls)
declare_all-IsConsistent decls =
    declare_all-Kept IsConsistent IsConsistent-Kept decls empty_analyzer-IsConsistent
