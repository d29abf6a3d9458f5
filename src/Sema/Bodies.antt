-- ===== src/Sema/Bodies.antt =====
-- Expressions in bodies: compiler/src/sema/sema.c, lines 821-1014. The analysis changes no table: it is
-- `none`, or the error that it reports.
pub mod Statements
pub mod Loops
pub mod Enclosing
use apex_forge_night_script.Base.{
  ℕ, Bool, true, false, ◌||◌, ◌&&◌, not, ◌==◌, Option, none, some, List, [], ◌∷◌, ◌++◌, Bytes,
  codes, beq, ltb, map, length, if◌then◌else◌, case_option,
}
use apex_forge_night_script.Ast.{
  Node, Shape, Nodes, MaybeNode, Inits, Arms, Variants, node, null, at, none_left, next, no_inits,
  init, no_arms, arm, items, shape, lit_int, lit_char, lit_float, lit_string, lit_bool, lit_null,
  ident, binary, unary, call, field, index_expr, slice_expr, cast, assign, struct_lit, match_expr,
  group, struct_decl, enum_decl, union_decl,
}
use apex_forge_night_script.Sema.Analyzer.{
  SemaMessage, SemaError, Analyzer, NamedDecl, MethodDecl, error_at, unknown_symbol,
  invalid_pattern, unknown_pattern_enum, unknown_composite, duplicate_literal_field,
  duplicate_binding, unknown_variant, unknown_enum_member, unknown_literal_field,
  unsupported_expression, functions, extern_functions, structs, enums, unions, find_named_decl,
  declared, find_method_decl, is_name_in, is_known_type,
}
use apex_forge_night_script.Sema.TypeNames.{validate_type, before_bracket, last_byte}
use apex_forge_night_script.Sema.Register.{let_name, variant_names, then_check}
use apex_forge_night_script.Sema.Symbols.{
  io_names, is_builtin_io, LocalBinding, Locals, LocalScopes, find_local, define_local,
  resolve_local, is_resolved, enum_variants, enum_has_variant, composite_fields,
  composite_has_field, split_dot, plain_patterns, analyze_match_pattern, bind_names, is_symbol,
  is_generic_function, is_constructor, static_field, find_composite,
}

unfoldable mutual
  pub analyze_expr : Analyzer → LocalScopes → Node → Option SemaError
  analyze_expr a sc (node l c (lit_int v)) = none
  analyze_expr a sc (node l c (lit_char v)) = none
  analyze_expr a sc (node l c (lit_float v)) = none
  analyze_expr a sc (node l c (lit_string v)) = none
  analyze_expr a sc (node l c (lit_bool v)) = none
  analyze_expr a sc (node l c lit_null) = none
  analyze_expr a sc (node l c (ident name)) =
      if is_symbol a sc name
      then none
      else some (error_at (node l c (ident name)) (unknown_symbol name))
  analyze_expr a sc (node l c (group e)) = analyze_expr a sc e
  analyze_expr a sc (node l c (unary op e)) = analyze_expr a sc e
  analyze_expr a sc (node l c (binary op x y)) =
      then_check (analyze_expr a sc x) (analyze_expr a sc y)
  analyze_expr a sc (node l c (assign x y op)) =
      then_check (analyze_expr a sc x) (analyze_expr a sc y)
  analyze_expr a sc (node l c (index_expr x y)) =
      let object = analyze_expr a sc x in
      let index = analyze_expr a sc y in
      if is_generic_function a x then object else then_check object index
  analyze_expr a sc (node l c (slice_expr x from to)) =
      then_check (analyze_expr a sc x)
        (then_check (analyze_optional a sc from) (analyze_optional a sc to))
  analyze_expr a sc (node l c (call callee args)) =
      let called = analyze_expr a sc callee in
      let passed = analyze_exprs a sc args in
      if is_constructor callee then passed else then_check called passed
  analyze_expr a sc (node l c (cast e type)) =
      then_check (validate_type a (at type)) (analyze_expr a sc e)
  analyze_expr a sc (node l c (field e name)) =
      let object = analyze_expr a sc e in
      case_option (static_field a (node l c (field e name)) e name) object λ decided. decided
  analyze_expr a sc (node l c (struct_lit name fs)) =
      let n = node l c (struct_lit name fs) in
      case_option (find_composite a name) (some (error_at n (unknown_composite name)))
        λ d. analyze_inits a sc n name d.node [] fs
  analyze_expr a sc (node l c (match_expr subject arms)) =
      let n = node l c (match_expr subject arms) in
      then_check (analyze_expr a sc subject) (analyze_arms a sc n arms)
  analyze_expr a sc (node l c s) = some (error_at (node l c s) unsupported_expression)

  pub analyze_optional : Analyzer → LocalScopes → MaybeNode → Option SemaError
  analyze_optional a sc null = none
  analyze_optional a sc (at n) = analyze_expr a sc n

  pub analyze_exprs : Analyzer → LocalScopes → Nodes → Option SemaError
  analyze_exprs a sc none_left = none
  analyze_exprs a sc (next n ns) = then_check (analyze_expr a sc n) (analyze_exprs a sc ns)

  -- The fields of a literal of `decl`, with the names before them.
  pub analyze_inits :
      Analyzer → LocalScopes → Node → Bytes → Node → List Bytes → Inits → Option SemaError
  analyze_inits a sc n name decl seen no_inits = none
  analyze_inits a sc n name decl seen (init f value rest) =
      let this = analyze_expr a sc value in
      let others = analyze_inits a sc n name decl (seen ++ f ∷ []) rest in
      if is_name_in seen f
      then some (error_at n (duplicate_literal_field f))
      else if not (composite_has_field decl f)
      then some (error_at n (unknown_literal_field f name))
      else then_check this others

  pub analyze_arms : Analyzer → LocalScopes → Node → Arms → Option SemaError
  analyze_arms a sc n no_arms = none
  analyze_arms a sc n (arm pattern bindings value rest) =
      let others = analyze_arms a sc n rest in
      then_check (analyze_match_pattern a n pattern)
        (then_check (bind_names n bindings [] λ scope. analyze_expr a (scope ∷ sc) value) others)
