-- ===== src/Typeck/Exprs/Walk/Parts.antt =====
-- The cases of `check_expr` come to an end when the checks of their parts do:
-- compiler/src/typeck/typeck.c, lines 708-783, 860-932, 1335-1581 and 1919-1931.
use apex_forge_night_script.Base.{Option, none, some, List, [], ◌∷◌, Bytes, All}
use apex_forge_night_script.Ast.{Node}
use apex_forge_night_script.Typeck.Types.{Ty, plain, named, pointer, array, function}
use apex_forge_night_script.Typeck.Scope.{Scopes}
use apex_forge_night_script.Typeck.Check.{Check}
use apex_forge_night_script.Typeck.Check.Context.{Context}
use apex_forge_night_script.Typeck.Check.Runs.{
  Completes, Completes-answer, Completes-refuse_with, Decided, decided, undecided,
  Decided-Completes, decided_rules, completes_rules,
}
use apex_forge_night_script.Typeck.Exprs.Constructors.{
  Operand, constructor_of, result_constructor, check_contextual_constructor, check_in_context,
  try_option, try_result, check_try_expr,
}
use apex_forge_night_script.Typeck.Exprs.Operators.{
  dereferenced, unary_type, check_unary, binary_type, check_binary, assigned_type, check_assign,
  text_element, element_type, check_index, slice_type, optional_type, check_slice, check_cast,
}

-- An operand whose checks come to an end.
abbrev pub SettledOperand : Operand → Type 0
SettledOperand x = Completes x.type × All Completes x.arguments

constructor_of-Completes :
    (name : Bytes) (n : Node) (t inner : Ty) (ms : List (Check Ty))
    → All Completes ms
    → Completes (constructor_of name n t inner ms)
unfolding constructor_of
constructor_of-Completes name n t inner [] h = Completes-refuse_with _ _ _
constructor_of-Completes name n t inner (m ∷ []) (h, hs) = search completes_rules depth 12
constructor_of-Completes name n t inner (m ∷ k ∷ ms) h = Completes-refuse_with _ _ _

result_constructor-Completes :
    (n : Node) (t : Ty) (ms : List (Check Ty))
    → All Completes ms
    → Completes (result_constructor n t ms)
unfolding result_constructor
result_constructor-Completes n t ms h = search (constructor_of-Completes, completes_rules) depth 12

contextual-Decided :
    (t : Ty) (x : Operand) → SettledOperand x → Decided (check_contextual_constructor t x)
unfolding check_contextual_constructor
contextual-Decided t x (h, hs) =
    search (constructor_of-Completes, result_constructor-Completes, decided_rules, completes_rules)
      depth 20

pub check_in_context-Completes :
    (t : Ty) (x : Operand) → SettledOperand x → Completes (check_in_context t x)
unfolding check_in_context
check_in_context-Completes t x h = Decided-Completes (contextual-Decided t x h) h.0

check_try_expr-Completes :
    (e : Context) (n : Node) {m : Check Ty} → Completes m → Completes (check_try_expr e n m)
unfolding check_try_expr try_option try_result
check_try_expr-Completes e n h = search completes_rules depth 20

dereferenced-Completes : (n : Node) (op : Bytes) (t : Ty) → Completes (dereferenced n op t)
unfolding dereferenced
dereferenced-Completes n op (pointer t c nul) = Completes-answer _
dereferenced-Completes n op (plain k) = Completes-refuse_with _ _ _
dereferenced-Completes n op (named name) = Completes-refuse_with _ _ _
dereferenced-Completes n op (array t len) = Completes-refuse_with _ _ _
dereferenced-Completes n op (function d) = Completes-refuse_with _ _ _

unary_type-Completes : (n : Node) (op : Bytes) (x : Node) (t : Ty) → Completes (unary_type n op x t)
unfolding unary_type
unary_type-Completes n op x t = search (dereferenced-Completes, completes_rules) depth 20

pub check_unary-Completes :
    (e : Context) (n : Node) (op : Bytes) (x : Node) {m : Check Ty}
    → Completes m
    → Completes (check_unary e n op x m)
unfolding check_unary
check_unary-Completes e n op x h =
    search (check_try_expr-Completes, unary_type-Completes, completes_rules) depth 12

binary_type-Completes : (n : Node) (op : Bytes) (a b : Ty) → Completes (binary_type n op a b)
unfolding binary_type
binary_type-Completes n op a b = search completes_rules depth 20

pub check_binary-Completes :
    (n : Node) (op : Bytes) {m k : Check Ty}
    → Completes m
    → Completes k
    → Completes (check_binary n op m k)
unfolding check_binary
check_binary-Completes n op h g = search (binary_type-Completes, completes_rules) depth 12

assigned_type-Completes :
    (n : Node) (op : Option Bytes) (a b : Ty) → Completes (assigned_type n op a b)
unfolding assigned_type
assigned_type-Completes n none a b = search completes_rules depth 12
assigned_type-Completes n (some op) a b = search completes_rules depth 12

pub check_assign-Completes :
    (sc : Scopes) (n x : Node) (op : Option Bytes) {m k : Check Ty}
    → Completes m
    → Completes k
    → Completes (check_assign sc n x op m k)
unfolding check_assign
check_assign-Completes sc n x op h g = search (assigned_type-Completes, completes_rules) depth 20

text_element-Completes : (n : Node) (t : Ty) → Completes (text_element n t)
unfolding text_element
text_element-Completes n t = search completes_rules depth 12

element_type-Completes : (n : Node) (t : Ty) → Completes (element_type n t)
unfolding element_type
element_type-Completes n (array t len) = Completes-answer _
element_type-Completes n (pointer t c nul) = Completes-answer _
element_type-Completes n t = text_element-Completes n t

pub check_index-Completes :
    (n : Node) {m k : Check Ty} → Completes m → Completes k → Completes (check_index n m k)
unfolding check_index
check_index-Completes n h g = search (element_type-Completes, completes_rules) depth 12

slice_type-Completes : (n : Node) (t : Ty) → Completes (slice_type n t)
unfolding slice_type
slice_type-Completes n (array t len) = Completes-answer _
slice_type-Completes n (pointer t c nul) = search completes_rules depth 12
slice_type-Completes n (plain k) = search completes_rules depth 12
slice_type-Completes n (named name) = search completes_rules depth 12
slice_type-Completes n (function d) = search completes_rules depth 12

optional_type-Completes : (o : Option (Check Ty)) → Decided o → Completes (optional_type o)
unfolding optional_type
optional_type-Completes none undecided = Completes-answer _
optional_type-Completes (some m) (decided h) = h

pub check_slice-Completes :
    (n : Node) {m : Check Ty} (from to : Option (Check Ty))
    → Completes m
    → Decided from
    → Decided to
    → Completes (check_slice n m from to)
unfolding check_slice
check_slice-Completes n from to h f t =
    search (slice_type-Completes, optional_type-Completes, completes_rules) depth 20

pub check_cast-Completes :
    (n type : Node) {m : Check Ty} → Completes m → Completes (check_cast n type m)
unfolding check_cast
check_cast-Completes n type h = search completes_rules depth 12
