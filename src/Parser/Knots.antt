-- ===== src/Parser/Knots.antt =====
-- The parsers that parts of the parser call on what is nested in them, as a record that the parts take,
-- and what is asked of it. A part is checked against parsers that work on fewer tokens.
use apex_forge_night_script.Base.{ℕ, ◌≤◌}
use apex_forge_night_script.Ast.{Node}
use apex_forge_night_script.Parser.State.{Parse}
use apex_forge_night_script.Parser.Reads.{Reads, Reads-weaken, Reads-le}

pub record Knots : Type 0 where
  pub type : Parse Node
  pub expr : Parse Node
  pub unary : Parse Node
  pub stmt : Parse Node
  pub ui_element : Parse Node

-- The parsers keep within their fuel where fewer than `n` tokens are left, and all but that of types
-- pass a token.
pub record Ties (n : ℕ) (k : Knots) : Type 0 where
  pub type : Reads n 0 k.type
  pub expr : Reads n 1 k.expr
  pub unary : Reads n 1 k.unary
  pub stmt : Reads n 1 k.stmt
  pub ui_element : Reads n 1 k.ui_element

pub Ties-le : {i n : ℕ} {k : Knots} → i ≤ n → Ties n k → Ties i k
Ties-le h t = record {
  type = Reads-le h t.type;
  expr = Reads-le h t.expr;
  unary = Reads-le h t.unary;
  stmt = Reads-le h t.stmt;
  ui_element = Reads-le h t.ui_element;
}

-- The same, with no token that must be passed.
pub record Loose (n : ℕ) (k : Knots) : Type 0 where
  pub type : Reads n 0 k.type
  pub expr : Reads n 0 k.expr
  pub unary : Reads n 0 k.unary
  pub stmt : Reads n 0 k.stmt
  pub ui_element : Reads n 0 k.ui_element

pub Ties-Loose : {n : ℕ} {k : Knots} → Ties n k → Loose n k
Ties-Loose t = record {
  type = t.type;
  expr = Reads-weaken t.expr;
  unary = Reads-weaken t.unary;
  stmt = Reads-weaken t.stmt;
  ui_element = Reads-weaken t.ui_element;
}

pub Loose-le : {i n : ℕ} {k : Knots} → i ≤ n → Loose n k → Loose i k
Loose-le h t = record {
  type = Reads-le h t.type;
  expr = Reads-le h t.expr;
  unary = Reads-le h t.unary;
  stmt = Reads-le h t.stmt;
  ui_element = Reads-le h t.ui_element;
}
