-- ===== src/Parser/Program/Spelling.antt =====
-- Types as they are written: compiler/src/parser/parser.c, lines 133-196.
use apex_forge_night_script.Base.{
  ℕ, zero, suc, ◌≤◌, ◌≡◌, refl, true, false, List, [], ◌∷◌, ◌++◌, Option, some, Bytes, String,
  subst, length, take, if◌then◌else◌, arith, case_list,
}
use apex_forge_night_script.Base.Int.{minus_one}
use apex_forge_night_script.Ast.{Node, node, type_named, type_pointer, type_array}
use apex_forge_night_script.Token.{
  TokenKind, Token, Payload, lexeme, kind_eq, kind_number, tok_ident, tok_star, tok_const,
  tok_lbracket, tok_rbracket, tok_int, tok_dot, tok_question,
}
use apex_forge_night_script.Parser.State.{
  Parser, Parse, left, ParseError, done, fault, next_pos, pure, rounds, ◌>>=◌, ◌>>◌, cur,
  skip_token, check, if_match, expect, intern, expect_path_token, is_path_token, is_kind_in,
}
use apex_forge_night_script.Parser.TypeNames.{
  int_of, to_int, dotted_loop, parse_named_type, parse_array_type, parse_type_from, parse_type,
}
use apex_forge_night_script.Parser.Program.{knots}

-- A token, as a place in the source gives it a kind.
pub record Place : Type 0 where
  pub start : ℕ
  pub len : ℕ
  pub line : ℕ
  pub col : ℕ
  pub value : Payload

abbrev pub placed : TokenKind → Place → Token
placed k a = record {
  kind = k;
  start = a.start;
  len = a.len;
  line = a.line;
  col = a.col;
  value = a.value;
}

-- The tokens that spell a type: a name, a pointer, to a constant or not, one that may be null, a slice, an
-- array. The type stands at its first token.
pub data Spells (src : Bytes) : List Token → Node → Type 0 where
  name :
      (a : Place)
      → Spells src
          (placed tok_ident a ∷ [])
          (node a.line a.col (type_named (take 255 (lexeme src (placed tok_ident a)))))
  pointer :
      {ts : List Token} {n : Node} (a : Place)
      → Spells src ts n
      → Spells src (placed tok_star a ∷ ts) (node a.line a.col (type_pointer n false false))
  const_pointer :
      {ts : List Token} {n : Node} (a b : Place)
      → Spells src ts n
      → Spells src
          (placed tok_star a ∷ placed tok_const b ∷ ts)
          (node a.line a.col (type_pointer n true false))
  nullable :
      {ts : List Token} {n : Node} (a b : Place)
      → Spells src ts n
      → Spells src
          (placed tok_question a ∷ placed tok_star b ∷ ts)
          (node a.line a.col (type_pointer n false true))
  slice :
      {ts : List Token} {n : Node} (a b : Place)
      → Spells src ts n
      → Spells src
          (placed tok_lbracket a ∷ placed tok_rbracket b ∷ ts)
          (node a.line a.col (type_array n minus_one))
  array :
      {ts : List Token} {n : Node} (a i b : Place)
      → Spells src ts n
      → Spells src
          (placed tok_lbracket a ∷ placed tok_int i ∷ placed tok_rbracket b ∷ ts)
          (node a.line a.col (type_array n (to_int (int_of (placed tok_int i)))))

abbrev pub at_tokens : Bytes → Option Token → List Token → List ParseError → Option Bytes → Parser
at_tokens src last ts es current = record {
  src = src;
  last = last;
  rest = ts;
  errors = es;
  current_package = current;
}

-- Neither a dotted path nor arguments go on with the token.
abbrev pub Follows : Token → Type 0
unfolding kind_number
Follows t = (kind_eq t.kind tok_dot ≡ false) × (kind_eq t.kind tok_lbracket ≡ false)

not_const :
    {src : Bytes} {n : Node} (ts : List Token)
    → Spells src ts n
    → (us : List Token) → (case_list (ts ++ us) true λ t rest. kind_eq t.kind tok_const) ≡ false
unfolding kind_number
not_const ts (name a) us = refl
not_const ts (pointer a s) us = refl
not_const ts (const_pointer a b s) us = refl
not_const ts (nullable a b s) us = refl
not_const ts (slice a b s) us = refl
not_const ts (array a i b s) us = refl

-- A token that is not of the kind is left.
passed_list {ℓ} :
    {A : Type ℓ} (ts : List Token) (m n : Parse A) (k : TokenKind) (p : Parser)
    → (case_list ts true λ t rest. kind_eq t.kind k) ≡ false
    → (case_list ts fault λ t rest. if kind_eq t.kind k then m (next_pos p) else n p) ≡ n p
passed_list [] m n k p h = cc
passed_list (t ∷ ts) m n k p h = rw h refl

passed_over {ℓ} :
    {A : Type ℓ} (k : TokenKind) (m n : Parse A) (p : Parser)
    → (case_list p.rest true λ t rest. kind_eq t.kind k) ≡ false
    → if_match k m n p ≡ n p
unfolding if_match
passed_over k m n p h = passed_list p.rest m n k p h

dotted_loop-stops :
    (msg : String) (i : ℕ) (buf : Bytes) (p : Parser)
    → (case_list p.rest true λ t rest. kind_eq t.kind tok_dot) ≡ false
    → dotted_loop msg (suc i) buf p ≡ done buf p
unfolding dotted_loop pure
dotted_loop-stops msg i buf p h = passed_over tok_dot _ (pure buf) p h

-- A path ends in front of such a token.
dotted-stops :
    (msg : String) (buf : Bytes) (p : Parser)
    → (case_list p.rest true λ t rest. kind_eq t.kind tok_dot) ≡ false
    → rounds (λ fuel. dotted_loop msg fuel buf) p ≡ done buf p
unfolding rounds
dotted-stops msg buf p h =
    subst (λ i. dotted_loop msg i buf p ≡ done buf p) (omega arith)
      (dotted_loop-stops msg (left p) buf p h)

-- A type that is spelled is read: where its tokens are followed by one that goes on neither with a dotted
-- path nor with arguments, with fuel for their number, `parse_type` gives the type, reports nothing, and
-- leaves the tokens behind it.
pub parse_type-Spells :
    (src : Bytes) (fuel : ℕ) (ts : List Token) (n : Node) (last : Option Token) (t : Token)
    (us : List Token) (es : List ParseError) (current : Option Bytes)
    → length ts ≤ fuel
    → Spells src ts n
    → Follows t
    → (l : Token) × (parse_type (knots fuel) (at_tokens src last (ts ++ t ∷ us) es current)
        ≡ done n (at_tokens src (some l) (t ∷ us) es current))
unfolding kind_number knots parse_type parse_type_from parse_named_type parse_array_type if_match
    pure ◌>>=◌ ◌>>◌ cur skip_token check expect intern expect_path_token is_path_token is_kind_in
parse_type-Spells src fuel ts n last t us es current h (name a) f = (
  placed tok_ident a,
  rw
      (
        dotted-stops "expected identifier after '.'" (take 255 (lexeme src (placed tok_ident a)))
            (at_tokens src (some (placed tok_ident a)) (t ∷ us) es current) f.0,
        f.1,
      )
      refl,
)
parse_type-Spells src (suc fuel) ts n last t us es current h (pointer {ts = vs} {n = m} a s) f =
    let more =
      parse_type-Spells src fuel vs m (some (placed tok_star a)) t us es current (omega (arith, h))
        s f in
    let inner = at_tokens src (some (placed tok_star a)) (vs ++ t ∷ us) es current in
    (
      more.0,
      rw (passed_over tok_const (pure true) (pure false) inner (not_const vs s (t ∷ us)), more.1)
          refl,
    )
parse_type-Spells src (suc fuel) ts n last t us es current h (const_pointer {ts = vs} {n = m} a b s)
      f =
    let more =
      parse_type-Spells src fuel vs m (some (placed tok_const b)) t us es current (omega (arith, h))
        s f in
    (more.0, rw (more.1) refl)
parse_type-Spells src (suc fuel) ts n last t us es current h (nullable {ts = vs} {n = m} a b s) f =
    let more =
      parse_type-Spells src fuel vs m (some (placed tok_star b)) t us es current (omega (arith, h))
        s f in
    let inner = at_tokens src (some (placed tok_star b)) (vs ++ t ∷ us) es current in
    (
      more.0,
      rw (passed_over tok_const (pure true) (pure false) inner (not_const vs s (t ∷ us)), more.1)
          refl,
    )
parse_type-Spells src (suc fuel) ts n last t us es current h (slice {ts = vs} {n = m} a b s) f =
    let more =
      parse_type-Spells src fuel vs m (some (placed tok_rbracket b)) t us es current
        (omega (arith, h)) s f in
    (more.0, rw (more.1) refl)
parse_type-Spells src (suc fuel) ts n last t us es current h (array {ts = vs} {n = m} a i b s) f =
    let more =
      parse_type-Spells src fuel vs m (some (placed tok_rbracket b)) t us es current
        (omega (arith, h)) s f in
    (more.0, rw (more.1) refl)
parse_type-Spells src zero ts n last t us es current h s f = absurd (omega (arith, h))
