-- ===== src/Parser/Ui.antt =====
-- The declarative user interface: compiler/src/parser/parser.c, lines 49-54 and 881-970. The chains of
-- comparisons are the tables `handlers` and `elements`, tried in their order.
pub mod Total
use apex_forge_night_script.Base.{
  Bool, true, false, ◌&&◌, Option, none, some, List, [], ◌∷◌, Bytes, String, codes, beq,
  if◌then◌else◌, case_option,
}
use apex_forge_night_script.Ast.{
  Node, Nodes, nodes_of, lit_null, HandlerKind, click, key, change, ElementKind, window, button,
  label, input, row, column, canvas, panel, menu, ui_property, ui_handler, ui_element,
}
use apex_forge_night_script.Token.{
  TokenKind, Token, kind_eq, kind_number, tok_ident, tok_colon, tok_semicolon, tok_lparen,
  tok_rparen, tok_string, tok_lbrace, tok_rbrace,
}
use apex_forge_night_script.Parser.Knots.{Knots}
use apex_forge_night_script.Parser.Statements.{parse_block}
use apex_forge_night_script.Parser.Expressions.{string_of}
use apex_forge_night_script.Parser.State.{
  Parse, unknown_handler, unknown_ui_element, pure, ◌>>=◌, ◌>>◌, cur, skip_token, check, after,
  report, expect, intern, until_closed, node_at,
}

unfoldable pub cur_ident_is : String → Parse Bool
unfolding kind_number
cur_ident_is name = do
  t ← cur
  text ← intern t
  pure (kind_eq t.kind tok_ident && beq text (codes name))

-- The first name of the table that the current token is.
unfoldable pub cur_ident_of {ℓ} : {A : Type ℓ} → List (String × A) → Parse (Option A)
cur_ident_of [] = pure none
cur_ident_of ((name, a) ∷ rest) = do
  here ← cur_ident_is name
  if here then pure (some a) else cur_ident_of rest

abbrev pub handlers : List (String × HandlerKind)
handlers = ("onClick", click) ∷ ("onKey", key) ∷ ("onChange", change) ∷ []

abbrev pub elements : List (String × ElementKind)
elements =
    ("window", window)
    ∷ ("button", button)
    ∷ ("label", label)
    ∷ ("input", input)
    ∷ ("row", row)
    ∷ ("column", column)
    ∷ ("canvas", canvas)
    ∷ ("panel", panel)
    ∷ ("menu", menu)
    ∷ []

unfoldable pub parse_ui_property : Knots → Parse Node
parse_ui_property k = do
  t ← cur
  name ← expect tok_ident "expected property name"
  expect tok_colon "expected ':' after property name"
  value ← k.expr
  expect tok_semicolon "expected ';' after property value"
  text ← intern name
  pure (node_at t (ui_property text value))

unfoldable pub handler_kind : Parse HandlerKind
handler_kind = do
  t ← cur
  found ← cur_ident_of handlers
  case_option found (report t unknown_handler >> (skip_token >> pure click))
      λ kind. skip_token >> pure kind

unfoldable pub parse_ui_handler : Knots → Parse Node
parse_ui_handler k = do
  t ← cur
  kind ← handler_kind
  body ← parse_block k
  pure (node_at t (ui_handler kind body))

-- What an element holds, with the list it goes to.
pub data UiMember : Type 0 where
  handler child property : Node → UiMember

abbrev handlers_of : List UiMember → List Node
handlers_of [] = []
handlers_of (handler n ∷ rest) = n ∷ handlers_of rest
handlers_of (child n ∷ rest) = handlers_of rest
handlers_of (property n ∷ rest) = handlers_of rest

abbrev children_of : List UiMember → List Node
children_of [] = []
children_of (handler n ∷ rest) = children_of rest
children_of (child n ∷ rest) = n ∷ children_of rest
children_of (property n ∷ rest) = children_of rest

abbrev properties_of : List UiMember → List Node
properties_of [] = []
properties_of (handler n ∷ rest) = properties_of rest
properties_of (child n ∷ rest) = properties_of rest
properties_of (property n ∷ rest) = n ∷ properties_of rest

unfoldable pub ui_member : Knots → Parse UiMember
ui_member k = do
  as_handler ← cur_ident_of handlers
  case_option as_handler
      (do
        as_element ← cur_ident_of elements
        case_option as_element (do n ← parse_ui_property k; pure (property n))
            λ kind. do n ← k.ui_element; pure (child n))
      λ kind. do n ← parse_ui_handler k; pure (handler n)

-- The title in parentheses.
unfoldable pub ui_title : Parse (Option Bytes)
ui_title = do
  is_string ← check tok_string
  text ← if is_string then (do t ← cur; skip_token; pure (some (string_of t))) else pure none
  expect tok_rparen "expected ')' after element title"
  pure text

unfoldable pub ui_element_body : Knots → Token → ElementKind → Parse Node
ui_element_body k t kind = do
  text ← after tok_lparen ui_title
  expect tok_lbrace "expected '{' after UI element"
  members ← until_closed tok_rbrace (ui_member k)
  expect tok_rbrace "expected '}' after UI element body"
  pure (
      node_at t (
        ui_element kind (case_option text none λ title. title) (nodes_of (properties_of members))
          (nodes_of (children_of members)) (nodes_of (handlers_of members))))

unfoldable pub parse_ui_element : Knots → Parse Node
parse_ui_element k = do
  t ← cur
  name ← intern t
  found ← cur_ident_of elements
  case_option found
      (report t (unknown_ui_element name) >> (skip_token >> pure (node_at t lit_null)))
      λ kind. skip_token >> ui_element_body k t kind
