-- ===== src/Parser/Expressions/Operands.antt =====
-- What stands between binary operators, by how it is read: compiler/src/parser/parser.c, lines 216-592.
use apex_forge_night_script.Base.{
  ℕ, zero, suc, ◌≡◌, Bool, true, false, List, [], ◌∷◌, some, case_option, Bytes, arith, subst, sym,
  refl,
}
use apex_forge_night_script.Ast.{
  Node, Nodes, MaybeNode, Shape, node, binary, unary, cast, assign, call, field, index_expr,
  slice_expr, lit_int,
}
use apex_forge_night_script.Token.{TokenKind, Token, lexeme, kind_eq, tok_question}
use apex_forge_night_script.Parser.Knots.{Knots}
use apex_forge_night_script.Parser.State.{
  Parser, Parse, done, fault, continue, prev, intern, if_match, if_match_any, is_kind_in, next_pos,
  node_at, ◌>>=◌,
}
use apex_forge_night_script.Parser.Gives.{Holds, faults, Holds-list, Holds-if}
use apex_forge_night_script.Parser.Gives.Rules.{
  Gives, Gives-after, Gives-if_match, Gives-if_match_any, Gives-map, Gives-no_fuel, Gives-bind,
  Gives-rounds, Gives-pure,
}
use apex_forge_night_script.Parser.Gives.Steps.{keeps_rules, Keeps-prev, Keeps-expect, Keeps-intern}
use apex_forge_night_script.Parser.Expressions.Source.{
  Settled, match_arm-Keeps, generic_name_loop-Keeps, field_inits-Keeps, call_args-Keeps,
  slice_end-Keeps,
}
use apex_forge_night_script.Parser.Matches.{parse_match}
use apex_forge_night_script.Parser.Literals.{parse_generic_literal, parse_plain_name, parse_name}
use apex_forge_night_script.Parser.Expressions.{
  parse_group, parse_literal, parse_primary, parse_bracket, postfix_step, postfix_loop,
  parse_postfix, parse_unary, unary_ops, cast_loop, parse_cast,
}

-- Literals, names, struct literals, matches and what is in parentheses: no node that a suffix, a prefix,
-- `as`, a binary operator or an assignment makes.
abbrev pub is_primary : Shape → Bool
is_primary s = elim s [
  | binary op x y ↦ false
  | unary op x ↦ false
  | cast x t ↦ false
  | assign x y op ↦ false
  | call f args ↦ false
  | field x name ↦ false
  | index_expr x i ↦ false
  | slice_expr x i j ↦ false
  | other ↦ true
]

-- A primary with suffixes: calls, fields, indices, slices, `?`, `++` and `--`. The two last are the
-- assignments of one more or one less. The text and the position of `?` are the token's.
pub data Suffixed (s : Bytes) : Node → Type 0 where
  primary : {l c : ℕ} {a : Shape} → is_primary a ≡ true → Suffixed s (node l c a)
  called : {l c : ℕ} {f : Node} {args : Nodes} → Suffixed s f → Suffixed s (node l c (call f args))
  selected :
      {l c : ℕ} {x : Node} {name : Bytes} → Suffixed s x → Suffixed s (node l c (field x name))
  indexed : {l c : ℕ} {x i : Node} → Suffixed s x → Suffixed s (node l c (index_expr x i))
  sliced :
      {l c : ℕ} {x : Node} {i j : MaybeNode}
      → Suffixed s x
      → Suffixed s (node l c (slice_expr x i j))
  tried :
      {x : Node} (t : Token)
      → is_kind_in (tok_question ∷ []) t.kind ≡ true
      → Suffixed s x
      → Suffixed s (node t.line t.col (unary (lexeme s t) x))
  stepped :
      {l c : ℕ} {x : Node} {op : Bytes}
      → Suffixed s x
      → Suffixed s (node l c (assign x (node l c (lit_int 1)) (some op)))

-- Prefix operators in front of that.
pub data Prefixed (s : Bytes) : Node → Type 0 where
  bare : {n : Node} → Suffixed s n → Prefixed s n
  signed :
      {x : Node} (t : Token)
      → is_kind_in unary_ops t.kind ≡ true
      → Prefixed s x
      → Prefixed s (node t.line t.col (unary (lexeme s t) x))

-- Casts behind that: what a binary operator takes.
pub data IsOperand (s : Bytes) : Node → Type 0 where
  uncast : {n : Node} → Prefixed s n → IsOperand s n
  converted : {l c : ℕ} {x t : Node} → IsOperand s x → IsOperand s (node l c (cast x t))

module _ {s : Bytes} where
  -- Behind a matched operator, `prev` is its token.
  Gives-prev :
      {P : Node → Type 0} (f : Token → Parse Node) (q : Parser) (t : Token)
      → q.last ≡ some t
      → q.src ≡ s
      → Gives s P (f t)
      → Holds (λ a r. P a × (r.src ≡ s)) ((prev >>= f) q)
  unfolding prev ◌>>=◌
  Gives-prev {P = P} f q t e i h =
      subst (λ l. Holds (λ a r. P a × (r.src ≡ s)) (continue (case_option l fault λ u. done u q) f))
        (sym e) (h.at q i)

  pub Gives-intern :
      {P : Node → Type 0} (t : Token) (f : Bytes → Parse Node)
      → Gives s P (f (lexeme s t))
      → Gives s P (intern t >>= f)
  unfolding intern ◌>>=◌
  Gives-intern {P = P} t f h = record {
    at = λ p e. subst (λ u. Holds (λ a r. P a × (r.src ≡ s)) (f (lexeme u t) p)) (sym e) (h.at p e);
  }

  pub Gives-operator :
      {P : Node → Type 0} (ops : List TokenKind) (f : Token → Parse Node) {y : Parse Node}
      → ((t : Token) → is_kind_in ops t.kind ≡ true → Gives s P (f t))
      → Gives s P y
      → Gives s P (if_match_any ops (prev >>= f) y)
  unfolding if_match_any if_match is_kind_in
  Gives-operator [] f h g = g
  Gives-operator (k ∷ ks) f h g = record {
    at = λ p i.
        Holds-list p.rest (λ _. faults)
          λ t ts e.
            Holds-if (kind_eq t.kind k)
              (λ same. Gives-prev f (next_pos p) t (rw e refl) i (h t (rw same refl)))
              (λ other. (Gives-operator ks f (λ u m. h u (ground (arith, m))) g).at p i);
  }

module _ {s : Bytes} where
  literal-Gives :
      (t : Token) {m : Parse Node}
      → Gives s (Suffixed s) m
      → Gives s (Suffixed s) (parse_literal t m)
  unfolding parse_literal
  literal-Gives t h = search (Gives-pure, primary, keeps_rules) depth 30

module _ {s : Bytes} (k : Knots) (h : Settled s k) where
  match-Gives : (t : Token) → Gives s (Suffixed s) (parse_match k t)
  unfolding parse_match
  match-Gives t = search (Gives-pure, primary, match_arm-Keeps, keeps_rules) depth 12

  group-Gives : (t : Token) → Gives s (Suffixed s) (parse_group k t)
  unfolding parse_group
  group-Gives t = search (Gives-pure, primary, keeps_rules) depth 12

  name-Gives : Gives s (Suffixed s) (parse_name k)
  unfolding parse_name parse_plain_name parse_generic_literal
  name-Gives =
      search (Gives-pure, primary, keeps_rules, generic_name_loop-Keeps, field_inits-Keeps) depth 20

  primary-Gives : Gives s (Suffixed s) (parse_primary k)
  unfolding parse_primary
  primary-Gives =
      search (Gives-pure, primary, literal-Gives, match-Gives, group-Gives, name-Gives, keeps_rules)
        depth 20

  bracket-Gives : (t : Token) (e : Node) → Suffixed s e → Gives s (Suffixed s) (parse_bracket k t e)
  unfolding parse_bracket
  bracket-Gives t e i =
      search (Gives-pure, indexed, sliced, i, slice_end-Keeps, keeps_rules) depth 20

  question-Gives :
      (e : Node) (again : Node → Parse Node) {y : Parse Node}
      → Suffixed s e
      → ((x : Node) → Suffixed s x → Gives s (Suffixed s) (again x))
      → Gives s (Suffixed s) y
      → Gives s (Suffixed s) (
          if_match tok_question
            (do op ← prev; text ← intern op; again (node_at op (unary text e)))
            y)
  unfolding if_match_any
  question-Gives e again i g h =
      Gives-operator (tok_question ∷ []) _ (λ t k. Gives-intern t _ (g _ (tried t k i))) h

  step-Gives :
      (e : Node) (again : Node → Parse Node)
      → Suffixed s e
      → ((x : Node) → Suffixed s x → Gives s (Suffixed s) (again x))
      → Gives s (Suffixed s) (postfix_step k e again)
  unfolding postfix_step
  step-Gives e again i g =
      Gives-if_match _
        (Gives-after _ _ Keeps-prev
          λ pt. Gives-after _ _ (call_args-Keeps k h) λ args. g _ (called i))
        (Gives-if_match _
          (Gives-after _ _ (Keeps-expect _ _)
            λ name. Gives-after _ _ (Keeps-intern name) λ text. g _ (selected i))
          (Gives-if_match _
            (Gives-after _ _ Keeps-prev λ bt. Gives-bind _ again (bracket-Gives bt e i) g)
            (question-Gives e again i g (
              Gives-if_match_any _ (Gives-after _ _ Keeps-prev λ op. g _ (stepped i))
                (Gives-pure e i)))))

  postfix_loop-Gives : (i : ℕ) (e : Node) → Suffixed s e → Gives s (Suffixed s) (postfix_loop k i e)
  unfolding postfix_loop
  postfix_loop-Gives zero e o = Gives-no_fuel
  postfix_loop-Gives (suc i) e o = step-Gives e _ o (postfix_loop-Gives i)

  postfix-Gives : Gives s (Suffixed s) (parse_postfix k)
  unfolding parse_postfix
  postfix-Gives = Gives-bind _ _ primary-Gives λ e o. Gives-rounds _ λ i. postfix_loop-Gives i e o

module _ {s : Bytes} (k : Knots) (h : Settled s k) (u : Gives s (Prefixed s) k.unary) where
  pub unary-Gives : Gives s (Prefixed s) (parse_unary k)
  unfolding parse_unary
  unary-Gives =
      Gives-operator unary_ops _
        (λ t e. Gives-bind _ _ u λ x o. Gives-intern t _ (Gives-pure _ (signed t e o)))
        (Gives-map (λ n o. bare o) (postfix-Gives k h))

  cast_loop-Gives : (i : ℕ) (e : Node) → IsOperand s e → Gives s (IsOperand s) (cast_loop k i e)
  unfolding cast_loop
  cast_loop-Gives zero e o = Gives-no_fuel
  cast_loop-Gives (suc i) e o =
      Gives-if_match _
        (Gives-after _ _ Keeps-prev
          λ as_tok. Gives-after _ _ h.type λ type. cast_loop-Gives i _ (converted o))
        (Gives-pure e o)

  pub cast-Gives : Gives s (IsOperand s) (parse_cast k)
  unfolding parse_cast
  cast-Gives = Gives-bind _ _ unary-Gives λ e o. Gives-rounds _ λ i. cast_loop-Gives i e (uncast o)
