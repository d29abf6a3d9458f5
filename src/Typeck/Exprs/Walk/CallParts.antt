-- ===== src/Typeck/Exprs/Walk/CallParts.antt =====
-- Calls come to an end when the checks of their parts do: compiler/src/typeck/typeck.c, lines 984-1039 and
-- 1583-1917.
use apex_forge_night_script.Base.{List, [], ◌∷◌, Bytes, All}
use apex_forge_night_script.Ast.{Node, node, ident, field, index_expr}
use apex_forge_night_script.Typeck.Types.{Ty, plain, named, pointer, array, function}
use apex_forge_night_script.Typeck.Check.{Check, check_each}
use apex_forge_night_script.Typeck.Check.Context.{Context}
use apex_forge_night_script.Typeck.Check.Runs.{
  Completes, Completes-answer, Completes-check_each, Completes-refuse_with, Decided, undecided,
  Decided-Completes, decided_rules, completes_rules,
}
use apex_forge_night_script.Typeck.Exprs.Constructors.{
  Operand, argument_loop, check_call_arguments, check_receiver,
}
use apex_forge_night_script.Typeck.Exprs.Methods.{
  operand_types, stream_call, string_from, variant_arguments, enum_constructor, call_declared,
  static_method, static_call, string_method, builtin_method, instance_method, method_call,
}
use apex_forge_night_script.Typeck.Exprs.Calls.{
  builtin_call, generic_call, value_call, check_value_call, named_call, static_base, check_call,
}
use apex_forge_night_script.Typeck.Exprs.Walk.Parts.{SettledOperand, check_in_context-Completes}
use apex_forge_night_script.Typeck.Exprs.Walk.NameParts.{typed_rules}

argument_loop-Completes :
    (ps : List Node) (xs : List Operand) → All SettledOperand xs → Completes (argument_loop ps xs)
unfolding argument_loop
argument_loop-Completes [] xs h = Completes-answer _
argument_loop-Completes (p ∷ ps) [] h = Completes-answer _
argument_loop-Completes (p ∷ ps) (x ∷ xs) (h, hs) =
    let rest = argument_loop-Completes ps xs hs in
    search (check_in_context-Completes, completes_rules) depth 20

arguments-Completes :
    (n : Node) (ps : List Node) (xs : List Operand)
    → All SettledOperand xs
    → Completes (check_call_arguments n ps xs)
unfolding check_call_arguments
arguments-Completes n ps xs h = search (argument_loop-Completes, completes_rules) depth 20

receiver-Completes : (t s : Ty) (n : Node) → Completes (check_receiver t s n)
unfolding check_receiver
receiver-Completes t s n = search completes_rules depth 20

each-Settled : (xs : List Operand) → All SettledOperand xs → All Completes (operand_types xs)
each-Settled [] h = tt
each-Settled (x ∷ xs) (h, hs) = (h.0, each-Settled xs hs)

each-Completes :
    (xs : List Operand) → All SettledOperand xs → Completes (check_each (operand_types xs))
each-Completes xs h = Completes-check_each _ (each-Settled xs h)

call_declared-Completes :
    (e : Context) (n d : Node) (ps : List Node) (xs : List Operand)
    → All SettledOperand xs
    → Completes (call_declared e n d ps xs)
unfolding call_declared
call_declared-Completes e n d ps xs h = search (arguments-Completes, typed_rules) depth 20

string_from-Completes :
    (n : Node) (xs : List Operand) → All SettledOperand xs → Completes (string_from n xs)
unfolding string_from
string_from-Completes n [] h = Completes-refuse_with _ _ _
string_from-Completes n (x ∷ []) ((h, hs), g) = search completes_rules depth 20
string_from-Completes n (x ∷ y ∷ xs) h = Completes-refuse_with _ _ _

variant_arguments-Completes :
    (name : Bytes) (fs : List Node) (xs : List Operand)
    → All SettledOperand xs
    → Completes (variant_arguments name fs xs)
unfolding variant_arguments
variant_arguments-Completes name [] xs h = Completes-answer _
variant_arguments-Completes name (f ∷ fs) [] h = Completes-answer _
variant_arguments-Completes name (f ∷ fs) (x ∷ xs) ((h, g), hs) =
    let rest = variant_arguments-Completes name fs xs hs in search completes_rules depth 20

stream_call-Decided :
    (base name : Bytes) (xs : List Operand)
    → All SettledOperand xs
    → Decided (stream_call base name xs)
unfolding stream_call
stream_call-Decided base name xs h =
    search (each-Completes, decided_rules, completes_rules) depth 20

enum_constructor-Completes :
    (e : Context) (n : Node) (enum name : Bytes) (xs : List Operand) (d : Node)
    → All SettledOperand xs
    → Completes (enum_constructor e n enum name xs d)
unfolding enum_constructor
enum_constructor-Completes e n enum name xs d h =
    search (variant_arguments-Completes, completes_rules) depth 20

static_method-Completes :
    (e : Context) (n : Node) (name : Bytes) (xs : List Operand) (m : Node)
    → All SettledOperand xs
    → Completes (static_method e n name xs m)
unfolding static_method
static_method-Completes e n name xs m h = search (call_declared-Completes, completes_rules) depth 20

static_call-Decided :
    (e : Context) (n : Node) (base name : Bytes) (xs : List Operand)
    → All SettledOperand xs
    → Decided (static_call e n base name xs)
unfolding static_call
static_call-Decided e n base name xs h =
    search
      (
        stream_call-Decided, string_from-Completes, enum_constructor-Completes,
        static_method-Completes, decided_rules,
      )
      depth 20

builtin_method-Decided :
    (n x : Node) (t : Ty) (name : Bytes) (xs : List Operand)
    → Decided (builtin_method n x t name xs)
unfolding builtin_method string_method
builtin_method-Decided n x t name xs = search (decided_rules, completes_rules) depth 20

instance_method-Completes :
    (e : Context) (n callee x : Node) (t : Ty) (owner name : Bytes) (xs : List Operand) (m : Node)
    → All SettledOperand xs
    → Completes (instance_method e n callee x t owner name xs m)
unfolding instance_method
instance_method-Completes e n callee x t owner name xs m h =
    search (receiver-Completes, call_declared-Completes, completes_rules) depth 20

method_call-Completes :
    (e : Context) (n callee x : Node) (t : Ty) (name : Bytes) (xs : List Operand) {k : Check Ty}
    → All SettledOperand xs
    → Completes k
    → Completes (method_call e n callee x t name xs k)
unfolding method_call
method_call-Completes e n callee x t name xs h g =
    search (builtin_method-Decided, Decided-Completes, instance_method-Completes, completes_rules)
      depth 20

builtin_call-Decided :
    (n : Node) (name : Bytes) (xs : List Operand)
    → All SettledOperand xs
    → Decided (builtin_call n name xs)
unfolding builtin_call
builtin_call-Decided n name xs h = search (each-Completes, decided_rules, completes_rules) depth 20

value_call-Completes :
    (e : Context) (n : Node) (t : Ty) (xs : List Operand)
    → All SettledOperand xs
    → Completes (value_call e n t xs)
unfolding value_call
value_call-Completes e n (function d) xs h = call_declared-Completes e n d.decl _ xs h
value_call-Completes e n (plain k) xs h = Completes-refuse_with _ _ _
value_call-Completes e n (named name) xs h = Completes-refuse_with _ _ _
value_call-Completes e n (pointer t c nul) xs h = Completes-refuse_with _ _ _
value_call-Completes e n (array t len) xs h = Completes-refuse_with _ _ _

check_value_call-Completes :
    (e : Context) (n : Node) {m : Check Ty} (xs : List Operand)
    → Completes m
    → All SettledOperand xs
    → Completes (check_value_call e n m xs)
unfolding check_value_call
check_value_call-Completes e n xs g h = search (value_call-Completes, completes_rules) depth 12

named_call-Completes :
    (e : Context) (n : Node) (name : Bytes) {m : Check Ty} (xs : List Operand)
    → Completes m
    → All SettledOperand xs
    → Completes (named_call e n name m xs)
unfolding named_call
named_call-Completes e n name xs g h =
    search
      (
        builtin_call-Decided, Decided-Completes, each-Completes, check_value_call-Completes,
        completes_rules,
      )
      depth 20

generic_call-Decided :
    (e : Context) (n argument : Node) (xs : List Operand)
    → All SettledOperand xs
    → Decided (generic_call e n argument xs)
unfolding generic_call
generic_call-Decided e (node l c (ident name)) argument xs h =
    search (each-Completes, decided_rules, completes_rules) depth 20
generic_call-Decided e _ argument xs h = undecided

static_base-Decided :
    (e : Context) (n x : Node) (name : Bytes) (xs : List Operand)
    → All SettledOperand xs
    → Decided (static_base e n x name xs)
unfolding static_base
static_base-Decided e n (node l c (ident base)) name xs h = static_call-Decided e n base name xs h
static_base-Decided e n _ name xs h = undecided

pub check_call-Completes :
    (e : Context) (n callee : Node) {object m : Check Ty} (xs : List Operand)
    → Completes object
    → Completes m
    → All SettledOperand xs
    → Completes (check_call e n callee object m xs)
unfolding check_call
check_call-Completes e n (node l c (ident name)) xs o g h = named_call-Completes e n name xs g h
check_call-Completes e n (node l c (field base name)) xs o g h =
    search
      (
        static_base-Decided, Decided-Completes, method_call-Completes, check_value_call-Completes,
        completes_rules,
      )
      depth 20
check_call-Completes e n (node l c (index_expr t argument)) xs o g h =
    search (generic_call-Decided, Decided-Completes, check_value_call-Completes) depth 20
check_call-Completes e n callee xs o g h = check_value_call-Completes e n xs g h
