-- ===== src/Sema/Imports.antt =====
-- Imports: compiler/src/sema/sema.c, lines 107-202 and 1404-1416. Whether a path names a regular file, the
-- answer of `stat`, is the parameter `file_exists`.
pub mod Paths
use apex_forge_night_script.Base.{
  Bool, ◌||◌, ◌==◌, Option, none, some, List, [], ◌∷◌, ◌++◌, Bytes, codes, map, length,
  if◌then◌else◌, case_option,
}
use apex_forge_night_script.Ast.{Node, node, import_decl}
use apex_forge_night_script.Sema.Analyzer.{
  Analyzer, SemaError, sema_error, error_at, empty_import, unresolved_import,
}
use apex_forge_night_script.Sema.TypeNames.{last_byte}

-- The text in front of the last slash, if there is one.
unfoldable pub before_slash : Bytes → Option Bytes
before_slash [] = none
before_slash (c ∷ cs) =
    let rest = before_slash cs in
    case_option rest (if c == b'/' then some [] else none) λ s. some (c ∷ s)

unfoldable pub path_dirname : Bytes → Bytes
unfolding before_slash
path_dirname path =
    case_option (before_slash path) (codes ".") λ dir. if length dir == 0 then codes "/" else dir

unfoldable pub path_join : Bytes → Bytes → Bytes
path_join dir name =
    if length dir == 0 || last_byte dir == b'/' then dir ++ name else dir ++ b'/' ∷ name

abbrev pub slash_path : Bytes → Bytes
slash_path path = map (λ c. if c == b'.' then b'/' else c) path

-- The two files that an import may name.
abbrev pub candidate : Bytes → Bytes
candidate path = slash_path path ++ codes ".afns"

abbrev pub candidate_main : Bytes → Bytes
candidate_main path = slash_path path ++ codes "/main.afns"

unfoldable pub import_path_exists : (Bytes → Bool) → Bytes → Bytes → Bool
unfolding path_dirname path_join
import_path_exists file_exists source_name path =
    let dir = path_dirname source_name in
    file_exists (path_join dir (candidate path))
    || file_exists (path_join dir (candidate_main path))

abbrev pub import_path : Node → Bytes
import_path (node l c (import_decl path)) = path
import_path _ = []

unfoldable pub check_import : (Bytes → Bool) → Bytes → Node → Option SemaError
unfolding import_path_exists
check_import file_exists source_name n =
    if length (import_path n) == 0
    then some (error_at n empty_import)
    else if import_path_exists file_exists source_name (import_path n)
    then none
    else some (error_at n (unresolved_import (import_path n)))

-- The loop goes on behind an error.
unfoldable pub check_imports : (Bytes → Bool) → Bytes → List Node → Analyzer → Analyzer
unfolding check_import
check_imports file_exists source_name [] a = a
check_imports file_exists source_name (n ∷ ns) a =
    check_imports file_exists source_name ns
      (case_option (check_import file_exists source_name n) a (sema_error a))
