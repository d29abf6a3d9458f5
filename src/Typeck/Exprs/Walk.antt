-- ===== src/Typeck/Exprs/Walk.antt =====
-- `check_expr` along the tree: compiler/src/typeck/typeck.c, lines 1262-2147. The only expression that is not
-- a part of the one checked is the value of an untyped constant, which `check_const` of the context checks.
pub mod Parts
pub mod NameParts
pub mod CallParts
pub mod MatchParts
pub mod Named
pub mod Typing
pub mod Typed
pub mod Total
use apex_forge_night_script.Base.{ℕ, Option, none, some, List, [], ◌∷◌, Bytes}
use apex_forge_night_script.Ast.{
  Node, Shape, Nodes, MaybeNode, Inits, Arms, node, null, at, none_left, next, no_inits, init,
  no_arms, arm, lit_int, lit_char, lit_float, lit_string, lit_bool, lit_null, ident, binary, unary,
  call, field, index_expr, slice_expr, cast, assign, struct_lit, match_expr, group,
}
use apex_forge_night_script.Typeck.Types.{
  Ty, plain, bool, char, int_literal, float_literal, string_literal, null_type,
}
use apex_forge_night_script.Typeck.Scope.{Scope, Scopes}
use apex_forge_night_script.Typeck.Check.{Check, answer, error_type}
use apex_forge_night_script.Typeck.Check.Context.{Context}
use apex_forge_night_script.Typeck.Exprs.Constructors.{Operand}
use apex_forge_night_script.Typeck.Exprs.Operators.{
  check_unary, check_binary, check_assign, check_index, check_slice, check_cast,
}
use apex_forge_night_script.Typeck.Exprs.Names.{check_ident}
use apex_forge_night_script.Typeck.Exprs.Fields.{check_field}
use apex_forge_night_script.Typeck.Exprs.Calls.{check_call}
use apex_forge_night_script.Typeck.Exprs.Literals.{FieldValue, check_struct_lit}
use apex_forge_night_script.Typeck.Exprs.Matches.{MatchArm, check_match_expr}

-- `u` is `unsafe_depth`.
unfoldable mutual
  pub check_expr : Context → ℕ → Scopes → Node → Check Ty
  check_expr e u sc (node l c (lit_int v)) = answer (plain int_literal)
  check_expr e u sc (node l c (lit_char v)) = answer (plain char)
  check_expr e u sc (node l c (lit_float v)) = answer (plain float_literal)
  check_expr e u sc (node l c (lit_string v)) = answer (plain string_literal)
  check_expr e u sc (node l c (lit_bool v)) = answer (plain bool)
  check_expr e u sc (node l c lit_null) = answer (plain null_type)
  check_expr e u sc (node l c (ident name)) = check_ident e u sc (node l c (ident name)) name
  check_expr e u sc (node l c (group x)) = check_expr e u sc x
  check_expr e u sc (node l c (unary op x)) =
      check_unary e (node l c (unary op x)) op x (check_expr e u sc x)
  check_expr e u sc (node l c (binary op x y)) =
      check_binary (node l c (binary op x y)) op (check_expr e u sc x) (check_expr e u sc y)
  check_expr e u sc (node l c (assign x y op)) =
      check_assign sc (node l c (assign x y op)) x op (check_expr e u sc x) (check_expr e u sc y)
  check_expr e u sc (node l c (index_expr x y)) =
      check_index (node l c (index_expr x y)) (check_expr e u sc x) (check_expr e u sc y)
  check_expr e u sc (node l c (slice_expr x from to)) =
      check_slice (node l c (slice_expr x from to)) (check_expr e u sc x)
        (check_optional e u sc from) (check_optional e u sc to)
  check_expr e u sc (node l c (call callee args)) =
      check_call e (node l c (call callee args)) callee (check_object e u sc callee)
        (check_expr e u sc callee) (check_operands e u sc args)
  check_expr e u sc (node l c (cast x type)) =
      check_cast (node l c (cast x type)) type (check_expr e u sc x)
  check_expr e u sc (node l c (field x name)) =
      check_field e u (node l c (field x name)) x name (check_expr e u sc x)
  check_expr e u sc (node l c (struct_lit name fs)) =
      check_struct_lit e (node l c (struct_lit name fs)) name (check_inits e u sc fs)
  check_expr e u sc (node l c (match_expr subject arms)) =
      check_match_expr e (node l c (match_expr subject arms)) (check_expr e u sc subject)
        (check_arms e u sc arms)
  check_expr e u sc (node l c s) = answer error_type

  pub check_optional : Context → ℕ → Scopes → MaybeNode → Option (Check Ty)
  check_optional e u sc null = none
  check_optional e u sc (at n) = some (check_expr e u sc n)

  -- The check of the object of a selection.
  pub check_object : Context → ℕ → Scopes → Node → Check Ty
  check_object e u sc (node l c (field x name)) = check_expr e u sc x
  check_object e u sc n = answer error_type

  pub check_operands : Context → ℕ → Scopes → Nodes → List Operand
  check_operands e u sc none_left = []
  check_operands e u sc (next n ns) =
      record { node = n; type = check_expr e u sc n; arguments = check_arguments e u sc n }
      ∷ check_operands e u sc ns

  -- The checks of the arguments of a call.
  pub check_arguments : Context → ℕ → Scopes → Node → List (Check Ty)
  check_arguments e u sc (node l c (call callee args)) = check_exprs e u sc args
  check_arguments e u sc n = []

  pub check_exprs : Context → ℕ → Scopes → Nodes → List (Check Ty)
  check_exprs e u sc none_left = []
  check_exprs e u sc (next n ns) = check_expr e u sc n ∷ check_exprs e u sc ns

  pub check_inits : Context → ℕ → Scopes → Inits → List FieldValue
  check_inits e u sc no_inits = []
  check_inits e u sc (init name n rest) =
      record { name = name; node = n; type = check_expr e u sc n } ∷ check_inits e u sc rest

  pub check_arms : Context → ℕ → Scopes → Arms → List MatchArm
  check_arms e u sc no_arms = []
  check_arms e u sc (arm pattern bindings n rest) =
      record {
        pattern = pattern;
        bindings = bindings;
        node = n;
        value = λ scope. check_expr e u (scope ∷ sc) n;
      }
      ∷ check_arms e u sc rest

-- An expression as an operand.
unfoldable pub operand_of : Context → ℕ → Scopes → Node → Operand
unfolding check_expr
operand_of e u sc n = record {
  node = n;
  type = check_expr e u sc n;
  arguments = check_arguments e u sc n;
}
