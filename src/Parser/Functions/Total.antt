-- ===== src/Parser/Functions/Total.antt =====
-- The parsing of functions keeps within its fuel: compiler/src/parser/parser.c, lines 856-877 and
-- 975-1008.
use apex_forge_night_script.Base.{ℕ, Bool, Option, Bytes}
use apex_forge_night_script.Parser.Knots.{Knots, Ties, Loose}
use apex_forge_night_script.Parser.Reads.{Reads, reads_rules}
use apex_forge_night_script.Parser.Statements.Total.{block-Reads}
use apex_forge_night_script.Parser.Functions.{
  parse_param, parse_params, type_param, parse_type_params, parse_fn_decl,
}

param-Reads : {n : ℕ} (k : Knots) → Loose n k → Reads n 0 (parse_param k)
unfolding parse_param
param-Reads k h = search reads_rules depth 12

pub params-Reads : {n : ℕ} (k : Knots) → Loose n k → Reads n 0 (parse_params k)
unfolding parse_params
params-Reads k h = search (reads_rules, param-Reads) depth 12

type_param-Reads : {n : ℕ} → Reads n 0 type_param
unfolding type_param
type_param-Reads = search reads_rules depth 12

pub type_params-Reads : {n : ℕ} → Reads n 0 parse_type_params
unfolding parse_type_params
type_params-Reads = search (reads_rules, type_param-Reads) depth 12

pub fn_decl-Reads :
    {n : ℕ} (k : Knots) (is_public : Bool) (owner_type : Option Bytes)
    → Loose n k
    → Ties n k
    → Reads n 0 (parse_fn_decl k is_public owner_type)
unfolding parse_fn_decl
fn_decl-Reads k is_public owner_type h t =
    let body = block-Reads k t in search (reads_rules, params-Reads, type_params-Reads) depth 14
