-- ===== src/Parser/State.antt =====
-- The parser's state and its one-token steps: compiler/src/parser/parser.c, lines 10-105.
-- `pos` is kept as the tokens from there on, `rest`, with the token before them, `last`. To read a token
-- outside the array is a `fault`, which in C is a read behind the array. A parse is a function of the
-- state; `out_of_fuel` has no counterpart in the code. The arena's copies are the texts themselves.
use apex_forge_night_script.Base.{
  ℕ, zero, suc, ◌+◌, Bool, true, false, ◌||◌, ◌&&◌, case_option, case_list, Option, none, some,
  List, [], ◌∷◌, Bytes, String, if◌then◌else◌, length,
}
use apex_forge_night_script.Ast.{Node, Shape, node}
use apex_forge_night_script.Token.{
  TokenKind, Token, kind_number, kind_eq, lexeme, tok_ident, tok_self, tok_kernel, tok_native,
  tok_ui, tok_android, tok_driver, tok_app, tok_module, tok_eof,
}

pub data ParseMessage : Type 0 where
  -- what is expected, and the kind of the token that is there
  expected : String → TokenKind → ParseMessage
  unexpected_in_expression unexpected_at_top_level : TokenKind → ParseMessage
  unknown_handler expected_const expected_fn : ParseMessage
  unknown_ui_element : Bytes → ParseMessage

pub record ParseError : Type 0 where
  pub line : ℕ
  pub col : ℕ
  pub message : ParseMessage

-- The errors are kept with the newest first, where the code prints them and sets `had_error`.
pub record Parser : Type 0 where
  pub src : Bytes
  pub last : Option Token
  pub rest : List Token
  pub errors : List ParseError
  pub current_package : Option Bytes

pub data Outcome {ℓ} (A : Type ℓ) : Type ℓ where
  done : A → Parser → Outcome A
  fault out_of_fuel : Outcome A

abbrev pub Parse {ℓ} : Type ℓ → Type ℓ
Parse A = Parser → Outcome A

abbrev pub left : Parser → ℕ
left p = length p.rest

module _ {ℓ} {A : Type ℓ} where
  unfoldable pub pure : A → Parse A
  pure a p = done a p

  unfoldable pub no_fuel : Parse A
  no_fuel p = out_of_fuel

  -- A read of memory that is not the buffer's.
  unfoldable pub bad_read : Parse A
  bad_read p = fault

  -- A loop with one round more than there are tokens left.
  unfoldable pub rounds : (ℕ → Parse A) → Parse A
  rounds m p = m (left p + 1) p

module _ {ℓ κ} {A : Type ℓ} {B : Type κ} where
  abbrev pub continue : Outcome A → (A → Parse B) → Outcome B
  continue (done a p) f = f a p
  continue fault f = fault
  continue out_of_fuel f = out_of_fuel

  infixl 10 ◌>>=◌ ◌>>◌
  unfoldable pub ◌>>=◌ : Parse A → (A → Parse B) → Parse B
  ◌>>=◌ m f p = continue (m p) f

  unfoldable pub ◌>>◌ : Parse A → Parse B → Parse B
  m >> n = m >>= λ _. n

-- The state behind the current token.
abbrev pub next_pos : Parser → Parser
next_pos p = record p {
  last = case_list p.rest none λ t ts. some t;
  rest = case_list p.rest [] λ t ts. ts;
}

unfoldable pub cur : Parse Token
cur p = case_list p.rest (fault) λ t ts. done t p

unfoldable pub prev : Parse Token
prev p = case_option p.last fault λ t. done t p

-- `p->pos++`, where the current token has been read.
unfoldable pub skip_token : Parse (Unit {0})
skip_token p = case_list p.rest (fault) λ t ts. done tt (next_pos p)

-- `p->pos < p->tl->count`
unfoldable pub in_array : Parse Bool
in_array p = case_list p.rest (done false p) λ t ts. done true p

-- `tokens[p->pos]` and those behind it, up to `count`.
unfoldable pub ahead : Parse (List Token)
ahead p = done p.rest p

unfoldable pub check : TokenKind → Parse Bool
unfolding kind_number
check k p = case_list p.rest (fault) λ t ts. done (kind_eq t.kind k) p

-- `if (match(p, k)) m else n`
unfoldable pub if_match {ℓ} : {A : Type ℓ} → TokenKind → Parse A → Parse A → Parse A
unfolding kind_number
if_match k m n p = case_list p.rest (fault) λ t ts. if kind_eq t.kind k then m (next_pos p) else n p

-- `if (match(p, k1) || match(p, k2) || ...) m else n`
unfoldable pub if_match_any {ℓ} : {A : Type ℓ} → List TokenKind → Parse A → Parse A → Parse A
if_match_any [] m n = n
if_match_any (k ∷ ks) m n = if_match k m (if_match_any ks m n)

unfoldable pub match_kind : TokenKind → Parse Bool
match_kind k = if_match k (pure true) (pure false)

-- `if (match(p, k)) n = m`
unfoldable pub after {ℓ} : {A : Type ℓ} → TokenKind → Parse A → Parse (Option A)
after k m = if_match k (do a ← m; pure (some a)) (pure none)

-- `if (!check(p, k)) n = m`
unfoldable pub unless {ℓ} : {A : Type ℓ} → TokenKind → Parse A → Parse (Option A)
unless k m = do closed ← check k; if closed then pure none else (do a ← m; pure (some a))

abbrev pub with_error : Parser → Token → ParseMessage → Parser
with_error p t m = record p {
  errors = record { line = t.line; col = t.col; message = m } ∷ p.errors;
}

unfoldable pub report : Token → ParseMessage → Parse (Unit {0})
report t m p = done tt (with_error p t m)

-- The token that is there is passed even where it is not the one expected, save the end token.
unfoldable pub expect : TokenKind → String → Parse Token
unfolding kind_number
expect k msg p = case_list p.rest fault λ t ts.
    if kind_eq t.kind k
    then done t (next_pos p)
    else if kind_eq t.kind tok_eof
    then done t (with_error p t (expected msg t.kind))
    else done t (next_pos (with_error p t (expected msg t.kind)))

-- `if (!check(p, k) && !check(p, TOK_EOF)) m else n`, the test of the loops up to a closing token.
unfoldable pub unless_closed {ℓ} : {A : Type ℓ} → TokenKind → Parse A → Parse A → Parse A
unfolding kind_number
unless_closed k m n p =
    case_list p.rest fault λ t ts. if kind_eq t.kind k || kind_eq t.kind tok_eof then n p else m p

module _ {ℓ} {A : Type ℓ} where
  -- `while (!check(p, k) && !check(p, TOK_EOF)) push(m)`
  unfoldable pub until_loop : ℕ → TokenKind → Parse A → Parse (List A)
  until_loop zero k m = no_fuel
  until_loop (suc fuel) k m =
      unless_closed k (do x ← m; xs ← until_loop fuel k m; pure (x ∷ xs)) (pure [])

  unfoldable pub until_closed : TokenKind → Parse A → Parse (List A)
  until_closed k m = rounds λ fuel. until_loop fuel k m

  -- `do push(m) while (match(p, k))`
  unfoldable pub separated_loop : ℕ → TokenKind → Parse A → Parse (List A)
  separated_loop zero k m = no_fuel
  separated_loop (suc fuel) k m = do
    x ← m
    if_match k (do xs ← separated_loop fuel k m; pure (x ∷ xs)) (pure (x ∷ []))

  unfoldable pub separated : TokenKind → Parse A → Parse (List A)
  separated k m = rounds λ fuel. separated_loop fuel k m

unfoldable pub intern : Token → Parse Bytes
intern t p = done (lexeme p.src t) p

unfoldable pub package_name : Parse (Option Bytes)
package_name p = done p.current_package p

abbrev pub node_at : Token → Shape → Node
node_at t s = node t.line t.col s

-- The kinds that `is_path_token` accepts beside an identifier.
abbrev path_kinds : List TokenKind
path_kinds = tok_kernel ∷ tok_native ∷ tok_ui ∷ tok_android ∷ tok_driver ∷ tok_app ∷ tok_module ∷ []

unfoldable pub is_kind_in : List TokenKind → TokenKind → Bool
unfolding kind_number
is_kind_in [] k = false
is_kind_in (j ∷ js) k = kind_eq k j || is_kind_in js k

unfoldable pub is_path_token : TokenKind → Bool → Bool
is_path_token k allow_self =
    if kind_eq k tok_ident
    then true
    else if allow_self && kind_eq k tok_self
    then true
    else is_kind_in path_kinds k

unfoldable pub expect_path_token : String → Bool → Parse Token
expect_path_token msg allow_self = do
  t ← cur
  if is_path_token t.kind allow_self then (skip_token >> pure t) else expect tok_ident msg
