-- ===== src/Parser/Ui/Total.antt =====
-- The parsing of user interfaces keeps within its fuel and passes a token:
-- compiler/src/parser/parser.c, lines 881-970.
use apex_forge_night_script.Base.{ℕ, suc, List, [], ◌∷◌, String}
use apex_forge_night_script.Ast.{ElementKind}
use apex_forge_night_script.Token.{Token}
use apex_forge_night_script.Parser.Knots.{Knots, Ties, Loose, Ties-Loose}
use apex_forge_night_script.Parser.Reads.{
  Reads, Enters, Looks, Looks-bind, Looks-if, Looks-pure, Looks-Reads, Looks-Enters, looks_rules,
  reads_rules, enters_rules, passes_rules, first_rules, Enters-Reads, Enters-option,
}
use apex_forge_night_script.Parser.Statements.Total.{block-Reads}
use apex_forge_night_script.Parser.Ui.{
  cur_ident_is, cur_ident_of, parse_ui_property, handler_kind, parse_ui_handler, ui_member,
  ui_title, ui_element_body, parse_ui_element,
}

ident_is-Looks : (name : String) → Looks (cur_ident_is name)
unfolding cur_ident_is
ident_is-Looks name = search looks_rules depth 12

ident_of-Looks {ℓ} : {A : Type ℓ} (table : List (String × A)) → Looks (cur_ident_of table)
unfolding cur_ident_of
ident_of-Looks [] = Looks-pure _
ident_of-Looks ((name, a) ∷ rest) =
    Looks-bind _ _ (ident_is-Looks name) λ here. Looks-if here (Looks-pure _) (ident_of-Looks rest)

ident_of-Reads {ℓ} :
    {n : ℕ} {A : Type ℓ} (table : List (String × A)) → Reads n 0 (cur_ident_of table)
ident_of-Reads table = Looks-Reads (ident_of-Looks table)

property-Enters : {n : ℕ} (k : Knots) → Loose n k → Enters n (parse_ui_property k)
unfolding parse_ui_property
property-Enters k h = search (looks_rules, Looks-Enters, enters_rules) depth 12

handler_kind-Reads : {n : ℕ} → Reads n 1 handler_kind
unfolding handler_kind
handler_kind-Reads = search (first_rules, ident_of-Reads) depth 12

handler-Reads : {n : ℕ} (k : Knots) → Ties n k → Reads n 1 (parse_ui_handler k)
unfolding parse_ui_handler
handler-Reads k h = search (first_rules, handler_kind-Reads, block-Reads) depth 12

member-Enters : {n : ℕ} (k : Knots) → Ties n k → Enters n (ui_member k)
unfolding ui_member
member-Enters k h =
    let loose = Ties-Loose h in
    let in_element = Enters-Reads h.ui_element in
    let in_handler = Enters-Reads (handler-Reads k h) in
    search (ident_of-Looks, Looks-Enters, Enters-option, property-Enters, enters_rules) depth 12

title-Reads : {n : ℕ} → Reads n 0 ui_title
unfolding ui_title
title-Reads = search reads_rules depth 12

body-Reads :
    {n : ℕ} (k : Knots) (t : Token) (kind : ElementKind)
    → Ties n k
    → Reads n 0 (ui_element_body k t kind)
unfolding ui_element_body
body-Reads k t kind h = search (reads_rules, title-Reads, member-Enters) depth 12

pub element-Reads : {n : ℕ} (k : Knots) → Ties n k → Reads (suc n) 1 (parse_ui_element k)
unfolding parse_ui_element
element-Reads k h = search (passes_rules, ident_of-Reads, body-Reads) depth 12
