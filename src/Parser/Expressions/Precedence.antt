-- ===== src/Parser/Expressions/Precedence.antt =====
-- The precedence and associativity of the binary operators:
-- compiler/src/parser/parser.c, lines 594-690.
use apex_forge_night_script.Base.{
  ℕ, zero, suc, ◌≤◌, ◌≡◌, ◌==◌, refl, true, List, [], ◌∷◌, Option, Bytes, arith, if◌then◌else◌,
}
use apex_forge_night_script.Ast.{Node, node, binary, assign}
use apex_forge_night_script.Token.{
  TokenKind, Token, lexeme, tok_oror, tok_andand, tok_pipe, tok_caret, tok_amp, tok_eqeq, tok_ne,
  tok_lt, tok_gt, tok_le, tok_ge, tok_lshift, tok_rshift, tok_plus, tok_minus, tok_star, tok_slash,
  tok_percent,
}
use apex_forge_night_script.Parser.Knots.{Knots}
use apex_forge_night_script.Parser.State.{Parse, is_kind_in, node_at}
use apex_forge_night_script.Parser.Gives.Rules.{
  Gives, Gives-no_fuel, Gives-bind, Gives-after, Gives-rounds, Gives-pure, Gives-map,
  Gives-if_match,
}
use apex_forge_night_script.Parser.Gives.Steps.{Keeps-prev}
use apex_forge_night_script.Parser.Expressions.Source.{Settled}
use apex_forge_night_script.Parser.Expressions.Operands.{
  IsOperand, Prefixed, Gives-intern, Gives-operator, cast-Gives,
}
use apex_forge_night_script.Parser.Expressions.{
  binop_loop, parse_binop, levels, parse_levels, parse_logical_or, assign_value, parse_assign,
  parse_expr,
}

-- The operators by their precedence, the loosest first.
abbrev pub operators : ℕ → List TokenKind
operators n =
    if n == 1
    then tok_oror ∷ []
    else if n == 2
    then tok_andand ∷ []
    else if n == 3
    then tok_pipe ∷ []
    else if n == 4
    then tok_caret ∷ []
    else if n == 5
    then tok_amp ∷ []
    else if n == 6
    then tok_eqeq ∷ tok_ne ∷ []
    else if n == 7
    then tok_lt ∷ tok_gt ∷ tok_le ∷ tok_ge ∷ []
    else if n == 8
    then tok_lshift ∷ tok_rshift ∷ []
    else if n == 9
    then tok_plus ∷ tok_minus ∷ []
    else if n == 10
    then tok_star ∷ tok_slash ∷ tok_percent ∷ []
    else []

-- The operators outside parentheses bind with precedence `m` at least: to the left of an operator those
-- of its precedence or more, to the right those of more. The text and the position are the token's.
pub data Nested (s : Bytes) : ℕ → Node → Type 0 where
  operand : {m : ℕ} {n : Node} → IsOperand s n → Nested s m n
  operation :
      {m c : ℕ} {l r : Node} (t : Token)
      → is_kind_in (operators c) t.kind ≡ true
      → m ≤ c
      → Nested s c l
      → Nested s (suc c) r
      → Nested s m (node t.line t.col (binary (lexeme s t) l r))

Nested-le : {s : Bytes} {m i : ℕ} {n : Node} → i ≤ m → Nested s m n → Nested s i n
Nested-le h (operand o) = operand o
Nested-le h (operation t k e l r) = operation t k (omega (arith, h, e)) l r

-- The levels have the precedences from `c` down to 1.
abbrev Ranked : ℕ → List (List TokenKind) → Type 0
Ranked zero [] = Unit {0}
Ranked zero (ops ∷ rest) = ⊥
Ranked (suc c) [] = ⊥
Ranked (suc c) (ops ∷ rest) = (ops ≡ operators (suc c)) × Ranked c rest

module _ {s : Bytes} where
  binop_loop-Nested :
      (c i : ℕ) (m : Parse Node) (l : Node)
      → Gives s (Nested s (suc c)) m
      → Nested s c l
      → Gives s (Nested s c) (binop_loop m (operators c) i l)
  unfolding binop_loop
  binop_loop-Nested c zero m l h o = Gives-no_fuel
  binop_loop-Nested c (suc i) m l h o =
      Gives-operator (operators c) _
        (λ t e.
          Gives-bind _ _ h
            λ r g. Gives-intern t _ (binop_loop-Nested c i m _ h (operation t e (omega arith) o g)))
        (Gives-pure l o)

  binop-Nested :
      (c : ℕ) (m : Parse Node)
      → Gives s (Nested s (suc c)) m
      → Gives s (Nested s c) (parse_binop m (operators c))
  unfolding parse_binop
  binop-Nested c m h =
      Gives-bind _ _ h
        λ l o. Gives-rounds _ λ i. binop_loop-Nested c i m l h (Nested-le (omega arith) o)

  levels-Nested :
      (c : ℕ) (ls : List (List TokenKind)) (m : Parse Node)
      → Ranked c ls
      → Gives s (Nested s (suc c)) m
      → Gives s (Nested s 1) (parse_levels m ls)
  unfolding parse_levels
  levels-Nested zero [] m r h = h
  levels-Nested zero (ops ∷ rest) m r h = absurd r
  levels-Nested (suc c) [] m r h = absurd r
  levels-Nested (suc c) (ops ∷ rest) m r h =
      levels-Nested c rest _ r.1 (rw r.0 (binop-Nested (suc c) m h))

module _ {s : Bytes} (k : Knots) (h : Settled s k) (u : Gives s (Prefixed s) k.unary) where
  logical_or-Nested : Gives s (Nested s 1) (parse_logical_or k)
  unfolding parse_logical_or
  logical_or-Nested =
      levels-Nested 10 levels _
        ((refl, (refl, (refl, (refl, (refl, (refl, (refl, (refl, (refl, (refl, tt)))))))))))
        (Gives-map (λ n o. operand o) (cast-Gives k h u))

-- An operand of assignments, or an assignment of such an expression to one.
pub data Assigned (s : Bytes) : Node → Type 0 where
  unassigned : {n : Node} → Nested s 1 n → Assigned s n
  assigned :
      {l c : ℕ} {target value : Node} {op : Option Bytes}
      → Nested s 1 target
      → Assigned s value
      → Assigned s (node l c (assign target value op))

module _ {s : Bytes} (k : Knots) (h : Settled s k) (u : Gives s (Prefixed s) k.unary)
    (x : Gives s (Assigned s) k.expr) where
  value-Assigned :
      (l : Node) (op : Option Bytes) → Nested s 1 l → Gives s (Assigned s) (assign_value k l op)
  unfolding assign_value
  value-Assigned l op o =
      Gives-after _ _ Keeps-prev
        λ eq. Gives-bind _ _ x λ val v. Gives-pure (node_at eq (assign l val op)) (assigned o v)

  pub parse_expr-Assigned : Gives s (Assigned s) (parse_expr k)
  unfolding parse_expr parse_assign
  parse_expr-Assigned =
      Gives-bind _ _ (logical_or-Nested k h u)
        λ l o. search (Gives-if_match, Gives-pure, value-Assigned, unassigned) depth 12
