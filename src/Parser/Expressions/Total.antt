-- ===== src/Parser/Expressions/Total.antt =====
-- The parsing of expressions keeps within its fuel and passes a token:
-- compiler/src/parser/parser.c, lines 216-690.
use apex_forge_night_script.Base.{ℕ, zero, suc, ◌≤◌, List, [], ◌∷◌, Option, Bytes, arith}
use apex_forge_night_script.Ast.{Node}
use apex_forge_night_script.Token.{TokenKind, Token}
use apex_forge_night_script.Parser.Knots.{Knots, Loose, Loose-le}
use apex_forge_night_script.Parser.State.{Parse}
use apex_forge_night_script.Parser.Reads.{
  Reads, reads_rules, passes_rules, Reads-rounds, Reads-weaken, Reads-le, Reads-bind_strict,
}
use apex_forge_night_script.Parser.Matches.Total.{parse_match-Reads}
use apex_forge_night_script.Parser.Literals.Total.{parse_name-Reads}
use apex_forge_night_script.Parser.Expressions.{
  parse_group, parse_literal, parse_primary, call_args, slice_end, parse_bracket, postfix_step,
  postfix_loop, parse_postfix, parse_unary, cast_loop, parse_cast, binop_loop, parse_binop, levels,
  parse_levels, parse_logical_or, assign_value, parse_assign, parse_expr,
}

literal-Reads :
    {n : ℕ} (t : Token) {m : Parse Node} → Reads (suc n) 1 m → Reads (suc n) 1 (parse_literal t m)
unfolding parse_literal
literal-Reads t h = search passes_rules depth 30

group-Reads : {n : ℕ} (k : Knots) (t : Token) → Loose n k → Reads n 0 (parse_group k t)
unfolding parse_group
group-Reads k t h = search reads_rules depth 12

primary-Reads : {n : ℕ} (k : Knots) → Loose n k → Reads (suc n) 1 (parse_primary k)
unfolding parse_primary
primary-Reads k h =
    search (passes_rules, literal-Reads, parse_match-Reads, group-Reads, parse_name-Reads) depth 20

call_args-Reads : {n : ℕ} (k : Knots) → Loose n k → Reads n 0 (call_args k)
unfolding call_args
call_args-Reads k h = search reads_rules depth 12

slice_end-Reads : {n : ℕ} (k : Knots) → Loose n k → Reads n 0 (slice_end k)
unfolding slice_end
slice_end-Reads k h = search reads_rules depth 12

bracket-Reads :
    {n : ℕ} (k : Knots) (t : Token) (e : Node) → Loose n k → Reads n 0 (parse_bracket k t e)
unfolding parse_bracket
bracket-Reads k t e h = search (reads_rules, slice_end-Reads) depth 12

step-Reads :
    {n : ℕ} (k : Knots) (e : Node) (again : Node → Parse Node)
    → Loose n k
    → ((x : Node) → Reads n 0 (again x))
    → Reads (suc n) 0 (postfix_step k e again)
unfolding postfix_step
step-Reads k e again h g = search (passes_rules, g, call_args-Reads, bracket-Reads) depth 20

postfix_loop-Reads :
    (i n : ℕ) (k : Knots) (e : Node) → i ≤ n → Loose n k → Reads i 0 (postfix_loop k i e)
unfolding postfix_loop
postfix_loop-Reads zero n k e h t = record { at = λ p l. absurd (omega (arith, l)) }
postfix_loop-Reads (suc i) n k e h t =
    let below : i ≤ n = omega (arith, h) in
    step-Reads k e _ (Loose-le below t) λ x. postfix_loop-Reads i n k x below t

postfix-Reads : {n : ℕ} (k : Knots) → Loose n k → Reads (suc n) 1 (parse_postfix k)
unfolding parse_postfix
postfix-Reads {n} k h =
    Reads-bind_strict _ _ (primary-Reads k h)
      λ e. Reads-rounds _ λ i b. postfix_loop-Reads i n k e b h

pub unary-Reads : {n : ℕ} (k : Knots) → Loose n k → Reads (suc n) 1 (parse_unary k)
unfolding parse_unary
unary-Reads k h = search (passes_rules, postfix-Reads) depth 12

cast_loop-Reads : (i n : ℕ) (k : Knots) (e : Node) → i ≤ n → Loose n k → Reads i 0 (cast_loop k i e)
unfolding cast_loop
cast_loop-Reads zero n k e h t = record { at = λ p l. absurd (omega (arith, l)) }
cast_loop-Reads (suc i) n k e h t =
    let below : i ≤ n = omega (arith, h) in
    let t' = Loose-le below t in
    let more = λ (x : Node). cast_loop-Reads i n k x below t in search (passes_rules, more) depth 12

cast-Reads : {n : ℕ} (k : Knots) → Loose n k → Reads (suc n) 1 (parse_cast k)
unfolding parse_cast
cast-Reads {n} k h =
    Reads-bind_strict _ _ (unary-Reads k h) λ e. Reads-rounds _ λ i b. cast_loop-Reads i n k e b h

binop_loop-Reads :
    (i n : ℕ) (m : Parse Node) (ops : List TokenKind) (e : Node)
    → i ≤ n
    → Reads n 0 m
    → Reads i 0 (binop_loop m ops i e)
unfolding binop_loop
binop_loop-Reads zero n m ops e h t = record { at = λ p l. absurd (omega (arith, l)) }
binop_loop-Reads (suc i) n m ops e h t =
    let below : i ≤ n = omega (arith, h) in
    let t' = Reads-le below t in
    let more = λ (x : Node). binop_loop-Reads i n m ops x below t in
    search (passes_rules, more) depth 12

binop-Reads :
    {n : ℕ} (m : Parse Node) (ops : List TokenKind)
    → Reads (suc n) 1 m
    → Reads (suc n) 1 (parse_binop m ops)
unfolding parse_binop
binop-Reads {n} m ops h = Reads-bind_strict _ _ h λ e.
    Reads-rounds _ λ i b. binop_loop-Reads i (suc n) m ops e (omega (arith, b)) (Reads-weaken h)

levels-Reads :
    {n : ℕ} (m : Parse Node) (ls : List (List TokenKind))
    → Reads (suc n) 1 m
    → Reads (suc n) 1 (parse_levels m ls)
unfolding parse_levels
levels-Reads m [] h = h
levels-Reads m (ops ∷ ls) h = levels-Reads (parse_binop m ops) ls (binop-Reads m ops h)

pub logical_or-Reads : {n : ℕ} (k : Knots) → Loose n k → Reads (suc n) 1 (parse_logical_or k)
unfolding parse_logical_or
logical_or-Reads k h = levels-Reads _ levels (cast-Reads k h)

value-Reads :
    {n : ℕ} (k : Knots) (e : Node) (op : Option Bytes) → Loose n k → Reads n 0 (assign_value k e op)
unfolding assign_value
value-Reads k e op h = search reads_rules depth 12

pub parse_expr-Reads : {n : ℕ} (k : Knots) → Loose n k → Reads (suc n) 1 (parse_expr k)
unfolding parse_expr parse_assign
parse_expr-Reads k h =
    Reads-bind_strict _ _ (logical_or-Reads k h) λ l. search (reads_rules, value-Reads) depth 12
