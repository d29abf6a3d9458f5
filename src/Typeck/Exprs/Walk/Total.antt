-- ===== src/Typeck/Exprs/Walk/Total.antt =====
-- The check of an expression comes to an end, and adds its errors to those before, if the constants that it
-- names do: compiler/src/typeck/typeck.c, lines 1262-2149.
use apex_forge_night_script.Base.{ℕ, ◌∷◌, All}
use apex_forge_night_script.Ast.{
  Node, Nodes, MaybeNode, Inits, Arms, node, null, at, none_left, next, no_inits, init, no_arms,
  arm, ident, binary, unary, call, field, index_expr, slice_expr, cast, assign, struct_lit,
  match_expr, group,
}
use apex_forge_night_script.Typeck.Scope.{Scopes}
use apex_forge_night_script.Typeck.Check.Context.{Context}
use apex_forge_night_script.Typeck.Check.Runs.{
  Completes, Completes-answer, Decided, decided, undecided,
}
use apex_forge_night_script.Typeck.Exprs.Walk.{
  check_expr, check_optional, check_object, check_operands, check_arguments, check_exprs,
  check_inits, check_arms,
}
use apex_forge_night_script.Typeck.Exprs.Walk.Named.{
  Names, NamesMaybe, NamesAll, NamesInits, NamesArms,
}
use apex_forge_night_script.Typeck.Exprs.Walk.Parts.{
  SettledOperand, check_unary-Completes, check_binary-Completes, check_assign-Completes,
  check_index-Completes, check_slice-Completes, check_cast-Completes,
}
use apex_forge_night_script.Typeck.Exprs.Walk.NameParts.{
  ConstSettled, ValuesSettled, check_ident-Completes, check_field-Completes,
  check_struct_lit-Completes,
}
use apex_forge_night_script.Typeck.Exprs.Walk.CallParts.{check_call-Completes}
use apex_forge_night_script.Typeck.Exprs.Walk.MatchParts.{ArmsSettled, check_match-Completes}

module _ (e : Context) (u : ℕ) where
  mutual
    unfolding check_expr Names

    pub check_expr-Completes :
        (sc : Scopes) (n : Node) → Names (ConstSettled e u) n → Completes (check_expr e u sc n)
    check_expr-Completes sc (node l c (ident name)) h = check_ident-Completes e u sc _ name h
    check_expr-Completes sc (node l c (group x)) h = check_expr-Completes sc x h
    check_expr-Completes sc (node l c (unary op x)) h =
        check_unary-Completes e _ op x (check_expr-Completes sc x h)
    check_expr-Completes sc (node l c (binary op x y)) (h, g) =
        check_binary-Completes _ op (check_expr-Completes sc x h) (check_expr-Completes sc y g)
    check_expr-Completes sc (node l c (assign x y op)) (h, g) =
        check_assign-Completes sc _ x op (check_expr-Completes sc x h) (check_expr-Completes sc y g)
    check_expr-Completes sc (node l c (index_expr x y)) (h, g) =
        check_index-Completes _ (check_expr-Completes sc x h) (check_expr-Completes sc y g)
    check_expr-Completes sc (node l c (slice_expr x from to)) (h, (f, t)) =
        check_slice-Completes _ _ _ (check_expr-Completes sc x h) (optional-Decided sc from f)
          (optional-Decided sc to t)
    check_expr-Completes sc (node l c (call callee args)) (h, g) =
        check_call-Completes e _ callee _ (object-Completes sc callee h)
          (check_expr-Completes sc callee h) (operands-Settled sc args g)
    check_expr-Completes sc (node l c (cast x type)) h =
        check_cast-Completes _ type (check_expr-Completes sc x h)
    check_expr-Completes sc (node l c (field x name)) h =
        check_field-Completes e u _ x name (check_expr-Completes sc x h)
    check_expr-Completes sc (node l c (struct_lit name fs)) h =
        check_struct_lit-Completes e _ name _ (inits-Settled sc fs h)
    check_expr-Completes sc (node l c (match_expr subject arms)) (h, g) =
        check_match-Completes e _ _ (check_expr-Completes sc subject h) (arms-Settled sc arms g)
    check_expr-Completes sc (node l c s) h = Completes-answer _

    optional-Decided :
        (sc : Scopes) (n : MaybeNode)
        → NamesMaybe (ConstSettled e u) n
        → Decided (check_optional e u sc n)
    optional-Decided sc null h = undecided
    optional-Decided sc (at n) h = decided (check_expr-Completes sc n h)

    object-Completes :
        (sc : Scopes) (n : Node) → Names (ConstSettled e u) n → Completes (check_object e u sc n)
    object-Completes sc (node l c (field x name)) h = check_expr-Completes sc x h
    object-Completes sc n h = Completes-answer _

    operands-Settled :
        (sc : Scopes) (ns : Nodes)
        → NamesAll (ConstSettled e u) ns
        → All SettledOperand (check_operands e u sc ns)
    operands-Settled sc none_left h = tt
    operands-Settled sc (next n ns) (h, hs) =
        ((check_expr-Completes sc n h, arguments-Settled sc n h), operands-Settled sc ns hs)

    pub arguments-Settled :
        (sc : Scopes) (n : Node)
        → Names (ConstSettled e u) n
        → All Completes (check_arguments e u sc n)
    arguments-Settled sc (node l c (call callee args)) (h, g) = exprs-Settled sc args g
    arguments-Settled sc n h = tt

    exprs-Settled :
        (sc : Scopes) (ns : Nodes)
        → NamesAll (ConstSettled e u) ns
        → All Completes (check_exprs e u sc ns)
    exprs-Settled sc none_left h = tt
    exprs-Settled sc (next n ns) (h, hs) = (check_expr-Completes sc n h, exprs-Settled sc ns hs)

    inits-Settled :
        (sc : Scopes) (fs : Inits)
        → NamesInits (ConstSettled e u) fs
        → ValuesSettled (check_inits e u sc fs)
    inits-Settled sc no_inits h = tt
    inits-Settled sc (init name n rest) (h, hs) =
        (check_expr-Completes sc n h, inits-Settled sc rest hs)

    arms-Settled :
        (sc : Scopes) (arms : Arms)
        → NamesArms (ConstSettled e u) arms
        → ArmsSettled (check_arms e u sc arms)
    arms-Settled sc no_arms h = tt
    arms-Settled sc (arm pattern bindings n rest) (h, hs) =
        ((λ scope. check_expr-Completes (scope ∷ sc) n h), arms-Settled sc rest hs)
