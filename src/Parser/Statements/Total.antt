-- ===== src/Parser/Statements/Total.antt =====
-- The parsing of statements keeps within its fuel and passes a token:
-- compiler/src/parser/parser.c, lines 694-852.
use apex_forge_night_script.Base.{ℕ, suc, String}
use apex_forge_night_script.Token.{Token}
use apex_forge_night_script.Parser.Knots.{Knots, Ties, Loose, Ties-Loose}
use apex_forge_night_script.Parser.Reads.{Reads, reads_rules, passes_rules, Enters-Reads}
use apex_forge_night_script.Parser.Expressions.Total.{parse_expr-Reads}
use apex_forge_night_script.Parser.Statements.{
  parse_block, let_parts, const_parts, parse_let, parse_const, parse_return, parse_else, parse_if,
  parse_while, for_init, parse_for, parse_defer, parse_expr_stmt, parse_stmt,
}

pub block-Reads : {n : ℕ} (k : Knots) → Ties n k → Reads n 0 (parse_block k)
unfolding parse_block
block-Reads k h = let inside = Enters-Reads h.stmt in search reads_rules depth 12

module _ {n : ℕ} (k : Knots) (h : Loose n k) where
  let_parts-Reads : (t : Token) → Reads n 0 (let_parts k t)
  unfolding let_parts
  let_parts-Reads t = search reads_rules depth 12

  pub const_parts-Reads :
      (t name : Token) (eq_msg end_msg : String) → Reads n 0 (const_parts k t name eq_msg end_msg)
  unfolding const_parts
  const_parts-Reads t name eq_msg end_msg = search reads_rules depth 12

  let-Reads : (t : Token) → Reads n 0 (parse_let k t)
  unfolding parse_let
  let-Reads t = search (reads_rules, let_parts-Reads) depth 12

  const-Reads : (t : Token) → Reads n 0 (parse_const k t)
  unfolding parse_const
  const-Reads t = search (reads_rules, const_parts-Reads) depth 12

  return-Reads : (t : Token) → Reads n 0 (parse_return k t)
  unfolding parse_return
  return-Reads t = search reads_rules depth 12

  for_init-Reads : (t : Token) → Reads n 0 (for_init k t)
  unfolding for_init
  for_init-Reads t = search (reads_rules, let_parts-Reads) depth 12

  defer-Reads : (t : Token) → Reads n 0 (parse_defer k t)
  unfolding parse_defer
  defer-Reads t = search reads_rules depth 12

  module _ (inside : Reads n 0 (parse_block k)) where
    else-Reads : Reads n 0 (parse_else k)
    unfolding parse_else
    else-Reads = search reads_rules depth 12

    if-Reads : (t : Token) → Reads n 0 (parse_if k t)
    unfolding parse_if
    if-Reads t = search (reads_rules, else-Reads) depth 12

    while-Reads : (t : Token) → Reads n 0 (parse_while k t)
    unfolding parse_while
    while-Reads t = search reads_rules depth 12

    for-Reads : (t : Token) → Reads n 0 (parse_for k t)
    unfolding parse_for
    for-Reads t = search (reads_rules, for_init-Reads) depth 14

expr_stmt-Reads :
    {n : ℕ} (k : Knots) (t : Token) → Loose n k → Reads (suc n) 1 (parse_expr_stmt k t)
unfolding parse_expr_stmt
expr_stmt-Reads k t h = search (passes_rules, parse_expr-Reads) depth 12

pub parse_stmt-Reads : {n : ℕ} (k : Knots) → Ties n k → Reads (suc n) 1 (parse_stmt k)
unfolding parse_stmt
parse_stmt-Reads k h =
    let loose = Ties-Loose h in
    let inside = block-Reads k h in
    search
      (
        passes_rules, let-Reads, const-Reads, return-Reads, if-Reads, while-Reads, for-Reads,
        defer-Reads, expr_stmt-Reads,
      )
      depth 30
