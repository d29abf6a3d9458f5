-- ===== src/Typeck/Visibility/Access.antt =====
-- What the visibility checks of compiler/src/typeck/typeck.c accept.
use apex_forge_night_script.Base.{
  ℕ, ◌≡◌, refl, ◌↔◌, inl, inr, Bool, true, false, Option, none, some, Bytes, codes, beq, beq_self,
  beq→eq, if◌then◌else◌, case_option, Bool-cases, Option-cases, sym, ◌∙◌, ap, subst, some-injective,
}
use apex_forge_night_script.Ast.{
  Node, Shape, MaybeNode, node, null, at, type_named, type_pointer, type_array,
}
use apex_forge_night_script.Typeck.Types.{
  type_from_ast, type_from_node, type_from_shape, type_from_name_text, find_builtin, builtin_types,
}
use apex_forge_night_script.Typeck.Visibility.{
  Checker, PrivateSymbol, node_is_public, node_package_name, same_package_name, decl_visible_from,
  require_decl_visible, find_type_decl, named_visible, ensure_node_visible, ensure_shape_visible,
  ensure_type_visible, ensure_resolved_type_visible,
}

-- A declaration is visible if it is public, or of the package that is checked.
pub data Visible (c : Checker) (n : Node) : Type 0 where
  public : node_is_public n ≡ true → Visible c n
  same_package : c.current_package ≡ node_package_name n → Visible c n

same_package_name_iff : (a b : Option Bytes) → (same_package_name a b ≡ true) ↔ (a ≡ b)
same_package_name_iff none none = (λ h. refl, λ h. refl)
same_package_name_iff (some a) (some b) =
    (λ h. ap some (beq→eq a b h), λ h. rw (← some-injective h) (beq_self a))
same_package_name_iff none (some b) = (λ h. cc, λ h. cc)
same_package_name_iff (some a) none = (λ h. cc, λ h. cc)

decl_visible_from_iff : (c : Checker) (n : Node) → (decl_visible_from c n ≡ true) ↔ Visible c n
unfolding decl_visible_from
decl_visible_from_iff c n = elim (Bool-cases (node_is_public n)) [
  | inl e ↦ rw e (λ h. public e, λ h. refl)
  | inr e ↦
      let same = same_package_name_iff c.current_package (node_package_name n) in
      rw e (λ h. same_package (same.0 h), λ h. elim h [ public f ↦ cc | same_package f ↦ same.1 f ])
]

-- The use of a declaration is refused exactly when the declaration is neither public nor of the
-- package that is checked.
pub require_decl_visible_iff :
    (c : Checker) (n : Node) (line col : ℕ) (name : Bytes)
    → (require_decl_visible c n line col name ≡ none) ↔ Visible c n
unfolding require_decl_visible
require_decl_visible_iff c n line col name = elim (Bool-cases (decl_visible_from c n)) [
  | inl e ↦ rw e (λ h. (decl_visible_from_iff c n).0 e, λ h. refl)
  | inr e ↦ rw e (λ h. cc, λ h. let t = (decl_visible_from_iff c n).1 h in cc)
]

mutual
  -- The name under the pointers and arrays of a type, if it has one.
  pub base_name : Node → Option Bytes
  base_name (node l k s) = base_of s

  pub base_of : Shape → Option Bytes
  base_of (type_named name) = some name
  base_of (type_pointer t c n) = base_name t
  base_of (type_array t n) = base_name t
  base_of _ = none

abbrev pub maybe_base : MaybeNode → Option Bytes
unfolding base_name
maybe_base null = none
maybe_base (at n) = base_name n

abbrev check_base : Checker → Option Bytes → ℕ → ℕ → Option PrivateSymbol
check_base c o line col = case_option o none λ name. named_visible c name line col

mutual
  unfolding base_name ensure_node_visible

  ensure_node-base :
      (c : Checker) (n : Node) (line col : ℕ)
      → ensure_node_visible c n line col ≡ check_base c (base_name n) line col
  ensure_node-base c (node l k s) line col = ensure_shape-base c s line col

  ensure_shape-base :
      (c : Checker) (s : Shape) (line col : ℕ)
      → ensure_shape_visible c s line col ≡ check_base c (base_of s) line col
  ensure_shape-base c (type_named name) line col = refl
  ensure_shape-base c (type_pointer t d n) line col = ensure_node-base c t line col
  ensure_shape-base c (type_array t n) line col = ensure_node-base c t line col
  ensure_shape-base c _ line col = refl

ensure_type-base :
    (c : Checker) (t : MaybeNode) (line col : ℕ)
    → ensure_type_visible c t line col ≡ check_base c (maybe_base t) line col
unfolding ensure_type_visible maybe_base
ensure_type-base c null line col = refl
ensure_type-base c (at n) line col = ensure_node-base c n line col

check_base_iff :
    (c : Checker) (o : Option Bytes) (line col : ℕ)
    → (check_base c o line col ≡ none) ↔ (
        (name : Bytes) (d : Node)
        → o ≡ some name
        → find_type_decl c.sema name ≡ some d
        → Visible c d)
unfolding named_visible
check_base_iff c none line col = (λ h name d e. cc, λ h. refl)
check_base_iff c (some name) line col = elim (Option-cases (find_type_decl c.sema name)) [
  | inl e ↦ rw e (λ h other d f g. let k = some-injective f in cc, λ h. refl)
  | inr (d, e) ↦
      let iff = require_decl_visible_iff c d line col name in
      rw e (
        λ h other d' f g.
            let same_name = some-injective f in
            let same_decl = some-injective (sym e ∙ ap (find_type_decl c.sema) same_name ∙ g) in
            subst (Visible c) same_decl (iff.0 h),
        λ h. iff.1 (h name d refl e),
      )
]

-- The check of a written type passes exactly when the struct, enum or union that its base name stands
-- for, if there is one, is visible.
pub ensure_type_visible_iff :
    (c : Checker) (t : MaybeNode) (line col : ℕ)
    → (ensure_type_visible c t line col ≡ none) ↔ (
        (name : Bytes) (d : Node)
        → maybe_base t ≡ some name
        → find_type_decl c.sema name ≡ some d
        → Visible c d)
ensure_type_visible_iff c t line col =
    rw (ensure_type-base c t line col) (check_base_iff c (maybe_base t) line col)

-- The names that the check of a resolved type never looks up.
unfoldable pub is_reserved : Bytes → Bool
is_reserved name =
    case_option (find_builtin builtin_types name) (beq name (codes "String")) λ k. true

unfoldable pub reserved_base : MaybeNode → Bool
unfolding is_reserved maybe_base
reserved_base t = case_option (maybe_base t) false is_reserved

abbrev resolved_base : Checker → Option Bytes → ℕ → ℕ → Option PrivateSymbol
resolved_base c o line col =
    case_option o none λ name. ensure_resolved_type_visible c (type_from_name_text name) line col

mutual
  unfolding base_name type_from_node ensure_resolved_type_visible

  resolved_node :
      (c : Checker) (n : Node) (line col : ℕ)
      → ensure_resolved_type_visible c (type_from_node n) line col
        ≡ resolved_base c (base_name n) line col
  resolved_node c (node l k s) line col = resolved_shape c s line col

  resolved_shape :
      (c : Checker) (s : Shape) (line col : ℕ)
      → ensure_resolved_type_visible c (type_from_shape s) line col
        ≡ resolved_base c (base_of s) line col
  resolved_shape c (type_named name) line col = refl
  resolved_shape c (type_pointer t d n) line col = resolved_node c t line col
  resolved_shape c (type_array t n) line col = resolved_node c t line col
  resolved_shape c _ line col = refl

resolved_name :
    (c : Checker) (name : Bytes) (line col : ℕ)
    → ensure_resolved_type_visible c (type_from_name_text name) line col
      ≡ (if is_reserved name then none else named_visible c name line col)
unfolding type_from_name_text ensure_resolved_type_visible is_reserved
resolved_name c name line col = elim (Option-cases (find_builtin builtin_types name)) [
  | inl e ↦ rw e refl
  | inr (k, e) ↦ rw e refl
]

resolved_reserved :
    (c : Checker) (o : Option Bytes) (line col : ℕ)
    → resolved_base c o line col
      ≡ (if case_option o false is_reserved then none else check_base c o line col)
resolved_reserved c none line col = refl
resolved_reserved c (some name) line col = resolved_name c name line col

-- The check of a resolved type is that of the type as it was written, save that a type whose base
-- name is a builtin type's or `String` always passes.
pub ensure_resolved_type_visible-type_from_ast :
    (c : Checker) (t : MaybeNode) (line col : ℕ)
    → ensure_resolved_type_visible c (type_from_ast t) line col
      ≡ (if reserved_base t then none else ensure_type_visible c t line col)
unfolding reserved_base type_from_ast ensure_resolved_type_visible ensure_type_visible maybe_base
ensure_resolved_type_visible-type_from_ast c null line col = refl
ensure_resolved_type_visible-type_from_ast c (at n) line col =
    resolved_node c n line col
    ∙ (resolved_reserved c (base_name n) line col
        ∙ ap (λ o. if case_option (base_name n) false is_reserved then none else o)
            (sym (ensure_node-base c n line col)))
