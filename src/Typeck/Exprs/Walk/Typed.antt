-- ===== src/Typeck/Exprs/Walk/Typed.antt =====
-- Whatever type the checker gives an expression, the relation gives it too:
-- compiler/src/typeck/typeck.c, lines 1262-2149.
use apex_forge_night_script.Base.{
  ℕ, ◌≡◌, sym, inl, inr, false, ◌||◌, some, List, Bytes, codes, beq, Bool-cases, Option-cases,
  subst, case_option,
}
use apex_forge_night_script.Ast.{
  Node, node, at, lit_int, lit_char, lit_float, lit_string, lit_bool, lit_null, ident, binary,
  unary, call, field, index_expr, slice_expr, cast, assign, struct_lit, match_expr, group,
}
use apex_forge_night_script.Typeck.Types.{
  Ty, plain, pointer, array, u8, str, error, is_plain, is_castable, type_from_ast,
}
use apex_forge_night_script.Typeck.Scope.{Binding, Scopes, scope_resolve}
use apex_forge_night_script.Typeck.Visibility.{ensure_resolved_type_visible}
use apex_forge_night_script.Typeck.Check.{
  CheckMessage, TypeError, ran, answer, refuse_type, error_type, when_visible, ◌>>=◌, ◌>>◌,
  not_assignable, immutable_binding, index_operand, shown, cannot_cast, typeck_error,
  private_symbol,
}
use apex_forge_night_script.Typeck.Check.Context.{Context, is_addressable, is_string, visible_type}
use apex_forge_night_script.Typeck.Check.Answers.{bind-ran, answer-ran}
use apex_forge_night_script.Typeck.Exprs.Operators.{
  check_unary, unary_type, check_binary, immutable_target, check_assign, assigned_type, bad_index,
  text_element, element_type, check_index, check_cast,
}
use apex_forge_night_script.Typeck.Exprs.Operators.Typing.{
  unary_type-Typing, binary_type-Typing, assigned_type-Typing,
}
use apex_forge_night_script.Typeck.Exprs.Names.{check_ident}
use apex_forge_night_script.Typeck.Exprs.Matches.Covering.{refuse_type-error}
use apex_forge_night_script.Typeck.Exprs.Walk.{check_expr}
use apex_forge_night_script.Typeck.Exprs.Walk.Typing.{
  IsTyped, of_array, of_pointer, of_text, unknown, integer, character, floating, text, truth,
  nothing, variable, global, grouped, applied, combined, assigned, indexed, converted, declared,
}

module _ (e : Context) (u : ℕ) where
  silent-IsTyped :
      (sc : Scopes) (n : Node) (es : List TypeError) {fs : List TypeError} {t : Ty}
      → answer error_type es ≡ ran t fs
      → IsTyped e u sc n t
  silent-IsTyped sc n es h = subst (IsTyped e u sc n) (answer-ran h).0 unknown

  refused-IsTyped :
      (sc : Scopes) (n x : Node) (m : CheckMessage) (es : List TypeError) {fs : List TypeError}
      {t : Ty}
      → refuse_type x m es ≡ ran t fs
      → IsTyped e u sc n t
  refused-IsTyped sc n x m es h =
      subst (IsTyped e u sc n) (sym (refuse_type-error x m es h)) unknown

  visible-IsTyped :
      (sc : Scopes) (l c : ℕ) (name : Bytes) (b : Binding) (s : Ty) (es fs : List TypeError)
      (t : Ty)
      → scope_resolve sc name ≡ some b
      → b.type ≡ some s
      → visible_type e l c s es ≡ ran t fs
      → IsTyped e u sc (node l c (ident name)) t
  unfolding visible_type when_visible ◌>>◌
  visible-IsTyped sc l c name b s es fs t found typed h =
      elim (Option-cases (ensure_resolved_type_visible e.checker s l c)) [
        | inl f ↦
            let shows : answer s es ≡ ran t fs = rw f at h in
            let same = (answer-ran shows).0 in
            subst (IsTyped e u sc _) same (variable b found typed f)
        | inr (p, f) ↦
            let hidden : (typeck_error p.line p.col (private_symbol p.name p.owner) >>= λ x.
            answer error_type)
                  es
                ≡ ran t fs =
              rw f at h in
            silent-IsTyped sc _ _ (bind-ran (typeck_error p.line p.col _) _ hidden).second
      ]

  binding-IsTyped :
      (sc : Scopes) (l c : ℕ) (name : Bytes) (b : Binding) (es fs : List TypeError) (t : Ty)
      → scope_resolve sc name ≡ some b
      → case_option b.type (answer error_type) (λ s. visible_type e l c s) es ≡ ran t fs
      → IsTyped e u sc (node l c (ident name)) t
  binding-IsTyped sc l c name b es fs t found h = elim (Option-cases b.type) [
    | inl f ↦ silent-IsTyped sc _ es (rw f at h)
    | inr (s, f) ↦ visible-IsTyped sc l c name b s es fs t found f (rw f at h)
  ]

  text-IsTyped :
      (sc : Scopes) (l c : ℕ) (x y : Node) (a i : Ty) (es fs : List TypeError) (t : Ty)
      → IsTyped e u sc x a
      → IsTyped e u sc y i
      → bad_index i ≡ false
      → text_element (node l c (index_expr x y)) a es ≡ ran t fs
      → IsTyped e u sc (node l c (index_expr x y)) t
  unfolding text_element
  text-IsTyped sc l c x y a i es fs t hx hy ok h =
      elim (Bool-cases (is_plain str a || is_string a)) [
        | inl f ↦
            let byte : answer (plain u8) es ≡ ran t fs = rw f at h in
            subst (IsTyped e u sc _) (answer-ran byte).0 (indexed hx hy ok (of_text f))
        | inr f ↦ elim (Bool-cases (is_plain error a)) [
          | inl g ↦ silent-IsTyped sc _ es (rw (f, g) at h)
          | inr g ↦ refused-IsTyped sc _ _ _ es (rw (f, g) at h)
        ]
      ]

  element-IsTyped :
      (sc : Scopes) (l c : ℕ) (x y : Node) (a i : Ty) (es fs : List TypeError) (t : Ty)
      → IsTyped e u sc x a
      → IsTyped e u sc y i
      → bad_index i ≡ false
      → element_type (node l c (index_expr x y)) a es ≡ ran t fs
      → IsTyped e u sc (node l c (index_expr x y)) t
  unfolding element_type
  element-IsTyped sc l c x y (array a len) i es fs t hx hy ok h =
      subst (IsTyped e u sc _) (answer-ran h).0 (indexed hx hy ok of_array)
  element-IsTyped sc l c x y (pointer a q nul) i es fs t hx hy ok h =
      subst (IsTyped e u sc _) (answer-ran h).0 (indexed hx hy ok of_pointer)
  element-IsTyped sc l c x y a i es fs t hx hy ok h = text-IsTyped sc l c x y _ i es fs t hx hy ok h

  expr-IsTyped :
      (sc : Scopes) (n : Node) (es fs : List TypeError) (t : Ty)
      → check_expr e u sc n es ≡ ran t fs
      → IsTyped e u sc n t
  unfolding check_expr check_ident check_unary check_binary check_assign check_index check_cast
  expr-IsTyped sc (node l c (lit_int v)) es fs t h =
      subst (IsTyped e u sc _) (answer-ran h).0 integer
  expr-IsTyped sc (node l c (lit_char v)) es fs t h =
      subst (IsTyped e u sc _) (answer-ran h).0 character
  expr-IsTyped sc (node l c (lit_float v)) es fs t h =
      subst (IsTyped e u sc _) (answer-ran h).0 floating
  expr-IsTyped sc (node l c (lit_string v)) es fs t h =
      subst (IsTyped e u sc _) (answer-ran h).0 text
  expr-IsTyped sc (node l c (lit_bool v)) es fs t h =
      subst (IsTyped e u sc _) (answer-ran h).0 truth
  expr-IsTyped sc (node l c lit_null) es fs t h = subst (IsTyped e u sc _) (answer-ran h).0 nothing
  expr-IsTyped sc (node l c (ident name)) es fs t h = elim (Option-cases (scope_resolve sc name)) [
    | inl f ↦ global es fs f (rw f at h)
    | inr (b, f) ↦ binding-IsTyped sc l c name b es fs t f (rw f at h)
  ]
  expr-IsTyped sc (node l c (group x)) es fs t h = grouped (expr-IsTyped sc x es fs t h)
  expr-IsTyped sc (node l c (unary op x)) es fs t h = elim (Bool-cases (beq op (codes "?"))) [
    | inl f ↦ declared es fs f h
    | inr f ↦
        let plainly : (check_expr e u sc x >>= λ a. unary_type (node l c (unary op x)) op x a) es
            ≡ ran t fs =
          rw f at h in
        let s = bind-ran (check_expr e u sc x) _ plainly in
        applied (expr-IsTyped sc x es s.errors s.value s.first)
          (unary_type-Typing _ op x _ s.errors s.second)
  ]
  expr-IsTyped sc (node l c (binary op x y)) es fs t h =
      let s = bind-ran (check_expr e u sc x) _ h in
      let r = bind-ran (check_expr e u sc y) _ s.second in
      combined (expr-IsTyped sc x es s.errors s.value s.first)
        (expr-IsTyped sc y s.errors r.errors r.value r.first)
        (binary_type-Typing _ op _ _ r.errors r.second)
  expr-IsTyped sc (node l c (assign x y op)) es fs t h = elim (Bool-cases (is_addressable x)) [
    | inr f ↦ refused-IsTyped sc _ _ not_assignable es (rw f at h)
    | inl f ↦ elim (Option-cases (immutable_target sc x)) [
      | inr (name, g) ↦ refused-IsTyped sc _ _ (immutable_binding name) es (rw (f, g) at h)
      | inl g ↦
          let both : (check_expr e u sc x >>= λ a.
          check_expr e u sc y >>= λ b. assigned_type (node l c (assign x y op)) op a b)
                es
              ≡ ran t fs =
            rw (f, g) at h in
          let s = bind-ran (check_expr e u sc x) _ both in
          let r = bind-ran (check_expr e u sc y) _ s.second in
          assigned f g (expr-IsTyped sc x es s.errors s.value s.first)
            (expr-IsTyped sc y s.errors r.errors r.value r.first)
            (assigned_type-Typing _ op _ _ r.errors r.second)
    ]
  ]
  expr-IsTyped sc (node l c (index_expr x y)) es fs t h =
      let s = bind-ran (check_expr e u sc x) _ h in
      let r = bind-ran (check_expr e u sc y) _ s.second in
      elim (Bool-cases (bad_index r.value)) [
        | inl f ↦ refused-IsTyped sc _ _ (index_operand (shown r.value)) r.errors (rw f at r.second)
        | inr f ↦
            element-IsTyped sc l c x y s.value r.value r.errors fs t
              (expr-IsTyped sc x es s.errors s.value s.first)
              (expr-IsTyped sc y s.errors r.errors r.value r.first) f (rw f at r.second)
      ]
  expr-IsTyped sc (node l c (cast x type)) es fs t h =
      let s = bind-ran (check_expr e u sc x) _ h in
      let target = type_from_ast (at type) in
      elim (Bool-cases (is_castable (some s.value) (some target))) [
        | inl f ↦
            let good : answer target s.errors ≡ ran t fs = rw f at s.second in
            subst (IsTyped e u sc _) (answer-ran good).0
              (converted (expr-IsTyped sc x es s.errors s.value s.first) f)
        | inr f ↦
            refused-IsTyped sc _ _ (cannot_cast (shown s.value) (shown target)) s.errors
              (rw f at s.second)
      ]
  expr-IsTyped sc (node l c (call callee args)) es fs t h = declared es fs tt h
  expr-IsTyped sc (node l c (field x name)) es fs t h = declared es fs tt h
  expr-IsTyped sc (node l c (slice_expr x from to)) es fs t h = declared es fs tt h
  expr-IsTyped sc (node l c (struct_lit name vs)) es fs t h = declared es fs tt h
  expr-IsTyped sc (node l c (match_expr subject arms)) es fs t h = declared es fs tt h
  expr-IsTyped sc (node l c s) es fs t h = silent-IsTyped sc _ es h

-- Whatever type the check of an expression answers, the typing relation gives the expression that type:
-- names in scope, literals, groups, operators, assignments to what is addressable and not immutable, indices
-- and casts by their rules. Calls, selections, slices, literals of structs, matches, `?` and global names are
-- leaves of the relation, and the error type is a type of every expression.
pub check_expr-IsTyped :
    (e : Context) (u : ℕ) (sc : Scopes) (n : Node) (es fs : List TypeError) (t : Ty)
    → check_expr e u sc n es ≡ ran t fs
    → IsTyped e u sc n t
check_expr-IsTyped e u sc n es fs t h = expr-IsTyped e u sc n es fs t h
