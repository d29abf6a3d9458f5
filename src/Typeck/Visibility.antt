-- ===== src/Typeck/Visibility.antt =====
-- Packages and visibility in the checker: compiler/src/typeck/typeck.c, lines 224-327 and 335-396,
-- with the model of the declarations of compiler/src/sema/sema.h. A check that the code answers with 1
-- is `none`, and one that it answers with 0 is the error that it reports. The declaration of a
-- function type is a function or an extern function.
pub mod Access
use apex_forge_night_script.Base.{
  ℕ, ◌≡◌, refl, ◌≢◌, ◌↔◌, ◌⊎◌, inl, inr, Bool, true, false, Option, none, some, List, [], ◌∷◌,
  Bytes, codes, beq, beq_self, beq→eq, if◌then◌else◌, case_option, arith, Bool-cases, Option-cases,
  sym, ◌∙◌, ap,
}
use apex_forge_night_script.Ast.{
  Node, Shape, MaybeNode, node, null, at, shape, items, fn_decl, extern_fn, struct_decl, enum_decl,
  union_decl, interface_decl, impl_decl, type_named, type_pointer, type_array,
}
use apex_forge_night_script.Typeck.Types.{
  Ty, plain, named, pointer, array, function, DeclPtr, type_from_ast, type_from_name_text,
}

pub record SemanticModel : Type 0 where
  pub functions : List Node
  pub extern_functions : List Node
  pub structs : List Node
  pub enums : List Node
  pub unions : List Node
  pub impls : List Node

-- What the checks of this file read of the checker.
pub record Checker : Type 0 where
  pub sema : SemanticModel
  pub current_package : Option Bytes

-- The kinds of node that `find_named_node` has a name for.
pub data NamedKind : Type 0 where
  of_fn of_extern_fn of_struct of_enum of_union : NamedKind

-- The name of a node of this kind.
abbrev pub candidate : NamedKind → Shape → Option Bytes
candidate of_fn (fn_decl name o p t ps r b pub') = some name
candidate of_extern_fn (extern_fn name p c ps r pub') = some name
candidate of_struct (struct_decl name p t fs pub' packed) = some name
candidate of_enum (enum_decl name p vs pub') = some name
candidate of_union (union_decl name p fs pub') = some name
candidate _ _ = none

unfoldable pub find_named_node : List Node → Bytes → NamedKind → Option Node
find_named_node [] name kind = none
find_named_node (n ∷ ns) name kind =
    let rest = find_named_node ns name kind in
    case_option (candidate kind (shape n)) rest λ c. if beq c name then some n else rest

unfoldable pub find_method : List Node → Bytes → Option Node
find_method [] name = none
find_method (n ∷ ns) name =
    let rest = find_method ns name in
    case_option (candidate of_fn (shape n)) rest λ c. if beq c name then some n else rest

unfoldable pub find_method_in : List Node → Bytes → Bytes → Option Node
unfolding find_method
find_method_in [] owner name = none
find_method_in (n ∷ ns) owner name =
    let rest = find_method_in ns owner name in
    elim (shape n) [
      | impl_decl target p i methods ↦
          if beq target owner
          then case_option (find_method (items methods) name) rest some
          else rest
      | _ ↦ rest
    ]

unfoldable pub find_method_decl : SemanticModel → Bytes → Bytes → Option Node
unfolding find_method_in
find_method_decl sema owner name = find_method_in sema.impls owner name

abbrev pub node_package_name : Node → Option Bytes
node_package_name (node l k (fn_decl name o p t ps r b pub')) = p
node_package_name (node l k (extern_fn name p c ps r pub')) = p
node_package_name (node l k (struct_decl name p t fs pub' packed)) = p
node_package_name (node l k (enum_decl name p vs pub')) = p
node_package_name (node l k (union_decl name p fs pub')) = p
node_package_name (node l k (interface_decl name p ms pub')) = p
node_package_name _ = none

abbrev pub node_is_public : Node → Bool
node_is_public (node l k (fn_decl name o p t ps r b pub')) = pub'
node_is_public (node l k (extern_fn name p c ps r pub')) = pub'
node_is_public (node l k (struct_decl name p t fs pub' packed)) = pub'
node_is_public (node l k (enum_decl name p vs pub')) = pub'
node_is_public (node l k (union_decl name p fs pub')) = pub'
node_is_public (node l k (interface_decl name p ms pub')) = pub'
node_is_public _ = false

abbrev pub same_package_name : Option Bytes → Option Bytes → Bool
same_package_name none none = true
same_package_name (some a) (some b) = beq a b
same_package_name none (some b) = false
same_package_name (some a) none = false

unfoldable pub decl_visible_from : Checker → Node → Bool
decl_visible_from c n =
    if node_is_public n then true else same_package_name c.current_package (node_package_name n)

pub record PrivateSymbol : Type 0 where
  pub line : ℕ
  pub col : ℕ
  pub name : Bytes
  pub owner : Bytes

unfoldable pub require_decl_visible : Checker → Node → ℕ → ℕ → Bytes → Option PrivateSymbol
unfolding decl_visible_from
require_decl_visible c n line col name =
    if decl_visible_from c n
    then none
    else some (record {
      line = line;
      col = col;
      name = name;
      owner = case_option (node_package_name n) (codes "<unknown>") λ p. p;
    })

unfoldable pub find_type_decl : SemanticModel → Bytes → Option Node
unfolding find_named_node
find_type_decl sema name =
    case_option (find_named_node sema.structs name of_struct)
      (case_option (find_named_node sema.enums name of_enum)
        (find_named_node sema.unions name of_union) some)
      some

unfoldable pub named_visible : Checker → Bytes → ℕ → ℕ → Option PrivateSymbol
unfolding find_type_decl require_decl_visible
named_visible c name line col =
    case_option (find_type_decl c.sema name) none λ d. require_decl_visible c d line col name

unfoldable mutual
  unfolding named_visible

  pub ensure_node_visible : Checker → Node → ℕ → ℕ → Option PrivateSymbol
  ensure_node_visible c (node l k s) line col = ensure_shape_visible c s line col

  pub ensure_shape_visible : Checker → Shape → ℕ → ℕ → Option PrivateSymbol
  ensure_shape_visible c (type_pointer inner d n) line col = ensure_node_visible c inner line col
  ensure_shape_visible c (type_array elem n) line col = ensure_node_visible c elem line col
  ensure_shape_visible c (type_named name) line col = named_visible c name line col
  ensure_shape_visible c _ line col = none

unfoldable pub ensure_type_visible : Checker → MaybeNode → ℕ → ℕ → Option PrivateSymbol
unfolding ensure_node_visible
ensure_type_visible c null line col = none
ensure_type_visible c (at n) line col = ensure_node_visible c n line col

abbrev pub function_name : Shape → Bytes
function_name (extern_fn name p c ps r pub') = name
function_name (fn_decl name o p t ps r b pub') = name
function_name _ = codes "<function>"

unfoldable pub ensure_resolved_type_visible : Checker → Ty → ℕ → ℕ → Option PrivateSymbol
unfolding named_visible
ensure_resolved_type_visible c (function d) line col =
    require_decl_visible c d.decl line col (function_name (shape d.decl))
ensure_resolved_type_visible c (pointer t d n) line col = ensure_resolved_type_visible c t line col
ensure_resolved_type_visible c (array t n) line col = ensure_resolved_type_visible c t line col
ensure_resolved_type_visible c (named name) line col =
    if beq name (codes "String") then none else named_visible c name line col
ensure_resolved_type_visible c (plain k) line col = none
