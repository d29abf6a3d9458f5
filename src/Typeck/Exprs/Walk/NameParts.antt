-- ===== src/Typeck/Exprs/Walk/NameParts.antt =====
-- Names, selections and literals come to an end when the checks of their parts do:
-- compiler/src/typeck/typeck.c, lines 1282-1330 and 1933-2139.
use apex_forge_night_script.Base.{ℕ, List, [], ◌∷◌, Bytes, All}
use apex_forge_night_script.Ast.{Node, node, ident}
use apex_forge_night_script.Typeck.Types.{Ty}
use apex_forge_night_script.Typeck.Scope.{Scopes}
use apex_forge_night_script.Typeck.Check.{Check}
use apex_forge_night_script.Typeck.Check.Context.{Context, const_type, visible_type}
use apex_forge_night_script.Typeck.Check.Runs.{
  Completes, Completes-answer, Completes-then, Completes-check_each, Completes-refuse_with, Decided,
  undecided, Decided-Completes, decided_rules, completes_rules,
}
use apex_forge_night_script.Typeck.Exprs.Names.{global_type, check_ident}
use apex_forge_night_script.Typeck.Exprs.Fields.{
  field_type, composite_field_type, owner_field, object_field, static_type, check_field,
}
use apex_forge_night_script.Typeck.Exprs.Literals.{
  FieldValue, check_values, check_value, check_field_values, check_struct_lit,
}

-- The constants of the program that the name may stand for.
abbrev pub ConstSettled : Context → ℕ → Bytes → Type 0
ConstSettled e u name = Completes (const_type e u e.decls name)

pub visible_type-Completes :
    (e : Context) (line col : ℕ) (t : Ty) → Completes (visible_type e line col t)
unfolding visible_type
visible_type-Completes e line col t = search completes_rules depth 12

pub ruleset typed_rules = (visible_type-Completes, completes_rules)

global_type-Completes :
    (e : Context) (u : ℕ) (n : Node) (name : Bytes)
    → ConstSettled e u name
    → Completes (global_type e u n name)
unfolding global_type
global_type-Completes e u n name h = search completes_rules depth 20

pub check_ident-Completes :
    (e : Context) (u : ℕ) (sc : Scopes) (n : Node) (name : Bytes)
    → ConstSettled e u name
    → Completes (check_ident e u sc n name)
unfolding check_ident
check_ident-Completes e u sc n name h = search (global_type-Completes, typed_rules) depth 20

object_field-Completes :
    (e : Context) (u : ℕ) (n : Node) (name : Bytes) (t : Ty) → Completes (object_field e u n name t)
unfolding object_field owner_field composite_field_type field_type
object_field-Completes e u n name t = search typed_rules depth 30

static_type-Decided :
    (e : Context) (n : Node) (name : Bytes) (x : Node) → Decided (static_type e n name x)
unfolding static_type
static_type-Decided e n name (node l c (ident base)) =
    search (decided_rules, completes_rules) depth 20
static_type-Decided e n name _ = undecided

pub check_field-Completes :
    (e : Context) (u : ℕ) (n x : Node) (name : Bytes) {m : Check Ty}
    → Completes m
    → Completes (check_field e u n x name m)
unfolding check_field
check_field-Completes e u n x name h =
    search (static_type-Decided, object_field-Completes, Decided-Completes, completes_rules) depth
      20

abbrev pub ValuesSettled : List FieldValue → Type 0
ValuesSettled vs = All (λ v. Completes v.type) vs

check_values-Completes :
    (t : Ty) (vs : List FieldValue) → ValuesSettled vs → Completes (check_values t vs)
unfolding check_values
check_values-Completes t [] h = Completes-answer t
check_values-Completes t (v ∷ vs) (h, hs) = Completes-then h (check_values-Completes t vs hs)

field_values-Completes :
    (e : Context) (n : Node) (name : Bytes) (d : Node) (vs : List FieldValue)
    → ValuesSettled vs
    → Completes (check_field_values e n name d vs)
unfolding check_field_values check_value
field_values-Completes e n name d [] h = Completes-answer _
field_values-Completes e n name d (v ∷ vs) (h, hs) =
    let rest = field_values-Completes e n name d vs hs in search completes_rules depth 20

pub check_struct_lit-Completes :
    (e : Context) (n : Node) (name : Bytes) (vs : List FieldValue)
    → ValuesSettled vs
    → Completes (check_struct_lit e n name vs)
unfolding check_struct_lit
check_struct_lit-Completes e n name vs h =
    search (check_values-Completes, field_values-Completes, completes_rules) depth 20
