-- ===== src/Typeck/Exprs/Walk/Typing.antt =====
-- The typing relation of expressions: compiler/src/typeck/typeck.c, lines 1262-2149. The error type is the
-- type of an expression that is not known. Calls, selections, slices, literals of structs, matches, `?` and
-- global names take their types from declarations, and are leaves of the relation.
use apex_forge_night_script.Base.{
  ℕ, ◌≡◌, Bool, true, false, ◌||◌, Option, none, some, List, Bytes, codes, beq,
}
use apex_forge_night_script.Base.Int.{ℤ}
use apex_forge_night_script.Ast.{
  Node, node, at, lit_int, lit_char, lit_float, lit_string, lit_bool, lit_null, ident, binary,
  unary, call, field, index_expr, slice_expr, cast, assign, struct_lit, match_expr, group,
}
use apex_forge_night_script.Typeck.Types.{
  Ty, plain, pointer, array, bool, char, u8, str, int_literal, float_literal, string_literal,
  null_type, is_plain, is_castable, type_from_ast,
}
use apex_forge_night_script.Typeck.Scope.{Binding, Scopes, scope_resolve}
use apex_forge_night_script.Typeck.Visibility.{ensure_resolved_type_visible}
use apex_forge_night_script.Typeck.Check.{TypeError, ran, error_type}
use apex_forge_night_script.Typeck.Check.Context.{Context, is_addressable, is_string}
use apex_forge_night_script.Typeck.Exprs.Operators.{immutable_target, bad_index}
use apex_forge_night_script.Typeck.Exprs.Operators.Typing.{UnaryTyping, BinaryTyping, AssignTyping}
use apex_forge_night_script.Typeck.Exprs.Names.{global_type}
use apex_forge_night_script.Typeck.Exprs.Walk.{check_expr}

pub data ElementOf : Ty → Ty → Type 0 where
  of_array : {t : Ty} {len : ℤ} → ElementOf (array t len) t
  of_pointer : {t : Ty} {c nul : Bool} → ElementOf (pointer t c nul) t
  of_text : {t : Ty} → (is_plain str t || is_string t) ≡ true → ElementOf t (plain u8)

-- The leaves of the relation.
abbrev pub IsDeclared : Node → Type 0
IsDeclared (node l c (call callee args)) = Unit
IsDeclared (node l c (field x name)) = Unit
IsDeclared (node l c (slice_expr x from to)) = Unit
IsDeclared (node l c (struct_lit name fs)) = Unit
IsDeclared (node l c (match_expr subject arms)) = Unit
IsDeclared (node l c (unary op x)) = beq op (codes "?") ≡ true
IsDeclared _ = ⊥

pub data IsTyped (e : Context) (u : ℕ) (sc : Scopes) : Node → Ty → Type 0 where
  unknown : {n : Node} → IsTyped e u sc n error_type
  integer : {l c v : ℕ} → IsTyped e u sc (node l c (lit_int v)) (plain int_literal)
  character : {l c v : ℕ} → IsTyped e u sc (node l c (lit_char v)) (plain char)
  floating : {l c : ℕ} {v : Bytes} → IsTyped e u sc (node l c (lit_float v)) (plain float_literal)
  text : {l c : ℕ} {v : Bytes} → IsTyped e u sc (node l c (lit_string v)) (plain string_literal)
  truth : {l c v : ℕ} → IsTyped e u sc (node l c (lit_bool v)) (plain bool)
  nothing : {l c : ℕ} → IsTyped e u sc (node l c lit_null) (plain null_type)
  variable :
      {l c : ℕ} {name : Bytes} {t : Ty} (b : Binding)
      → scope_resolve sc name ≡ some b
      → b.type ≡ some t
      → ensure_resolved_type_visible e.checker t l c ≡ none
      → IsTyped e u sc (node l c (ident name)) t
  global :
      {l c : ℕ} {name : Bytes} {t : Ty} (es fs : List TypeError)
      → scope_resolve sc name ≡ none
      → global_type e u (node l c (ident name)) name es ≡ ran t fs
      → IsTyped e u sc (node l c (ident name)) t
  grouped :
      {l c : ℕ} {x : Node} {t : Ty} → IsTyped e u sc x t → IsTyped e u sc (node l c (group x)) t
  applied :
      {l c : ℕ} {op : Bytes} {x : Node} {a t : Ty}
      → IsTyped e u sc x a
      → UnaryTyping x op a t
      → IsTyped e u sc (node l c (unary op x)) t
  combined :
      {l c : ℕ} {op : Bytes} {x y : Node} {a b t : Ty}
      → IsTyped e u sc x a
      → IsTyped e u sc y b
      → BinaryTyping op a b t
      → IsTyped e u sc (node l c (binary op x y)) t
  assigned :
      {l c : ℕ} {op : Option Bytes} {x y : Node} {a b t : Ty}
      → is_addressable x ≡ true
      → immutable_target sc x ≡ none
      → IsTyped e u sc x a
      → IsTyped e u sc y b
      → AssignTyping a b op t
      → IsTyped e u sc (node l c (assign x y op)) t
  indexed :
      {l c : ℕ} {x y : Node} {a i t : Ty}
      → IsTyped e u sc x a
      → IsTyped e u sc y i
      → bad_index i ≡ false
      → ElementOf a t
      → IsTyped e u sc (node l c (index_expr x y)) t
  converted :
      {l c : ℕ} {x type : Node} {a : Ty}
      → IsTyped e u sc x a
      → is_castable (some a) (some (type_from_ast (at type))) ≡ true
      → IsTyped e u sc (node l c (cast x type)) (type_from_ast (at type))
  declared :
      {n : Node} {t : Ty} (es fs : List TypeError)
      → IsDeclared n
      → check_expr e u sc n es ≡ ran t fs
      → IsTyped e u sc n t
