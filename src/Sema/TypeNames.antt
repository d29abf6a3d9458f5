-- ===== src/Sema/TypeNames.antt =====
-- The text of type names: compiler/src/sema/sema.c, lines 306-396 and 496-528, and the same helpers in
-- compiler/src/typeck/typeck.c, lines 594-684. A name is nested in `[ ]`: each recursive call is on a
-- part that is shorter, and the fuel is the length of the name and one more.
pub mod Parts
pub mod Splits
use apex_forge_night_script.Base.{
  ℕ, zero, suc, ◌+◌, ◌-◌, Bool, true, false, ◌||◌, ◌&&◌, not, Option, none, some, List, [], ◌∷◌,
  ◌++◌, Bytes, codes, beq, ltb, leb, ◌==◌, take, drop, length, every, if◌then◌else◌, case_option,
}
use apex_forge_night_script.Base.Int.{ℤ, pos, negsuc, int_eq, int_suc, int_pred}
use apex_forge_night_script.Ast.{
  Node, Shape, MaybeNode, node, null, at, shape, items, struct_decl, type_named, type_pointer,
  type_array,
}
use apex_forge_night_script.Sema.Analyzer.{
  Analyzer, NamedDecl, SemaError, structs, find_named_decl, is_known_type, unknown_type,
  unsupported_type,
}

-- The byte before the terminator.
abbrev pub last_byte : Bytes → ℕ
last_byte [] = 0
last_byte (c ∷ []) = c
last_byte (c ∷ d ∷ cs) = last_byte (d ∷ cs)

abbrev pub byte_at : Bytes → ℕ → ℕ
byte_at s i = elim (drop i s) [ [] ↦ 0 | c ∷ cs ↦ c ]

unfoldable pub type_name_has_form : Bytes → Bytes → Bool
type_name_has_form name form =
    let n = length form in
    ltb (n + 1) (length name)
    && beq (take n name) form
    && byte_at name n == b'['
    && last_byte name == b']'

-- The bytes from `start` on and before `end`.
abbrev pub slice_range_dup : Bytes → ℕ → ℕ → Bytes
slice_range_dup text start end = take (end - start) (drop start text)

-- `slice_range_dup(name + 7, name + strlen(name) - 1)`: both prefixes have six bytes.
abbrev pub inner_name : Bytes → Bytes
inner_name name = slice_range_dup name 7 (length name - 1)

pub record Split : Type 0 where
  pub left : Bytes
  pub right : Bytes

abbrev pub next_depth : ℤ → ℕ → ℤ
next_depth depth c =
    if c == b'[' then int_suc depth else if c == b']' then int_pred depth else depth

-- `seen` is the text before the bytes that are left.
unfoldable pub split_loop : ℤ → Bytes → Bytes → Option Split
split_loop depth seen [] = none
split_loop depth seen (c ∷ cs) =
    let rest = split_loop (next_depth depth c) (seen ++ c ∷ []) cs in
    if c == b'['
    then rest
    else if c == b']'
    then rest
    else if c == b',' && int_eq depth (pos 0)
    then some (record { left = seen; right = cs })
    else rest

unfoldable pub split_top_level_comma : Bytes → Option Split
unfolding split_loop
split_top_level_comma text = split_loop (pos 0) [] text

abbrev pub is_name_byte : ℕ → Bool
is_name_byte c =
    (leb b'a' c && leb c b'z')
    || (leb b'A' c && leb c b'Z')
    || (leb b'0' c && leb c b'9')
    || c == b'_'
    || c == b'.'

unfoldable pub is_identifier_like_name : Bytes → Bool
unfolding every
is_identifier_like_name [] = false
is_identifier_like_name (c ∷ cs) = every is_name_byte (c ∷ cs)

-- The bytes before the first `[`, if there is one.
unfoldable pub before_bracket : Bytes → Option Bytes
before_bracket [] = none
before_bracket (c ∷ cs) =
    let rest = before_bracket cs in
    if c == b'[' then some [] else case_option rest none λ s. some (c ∷ s)

abbrev pub has_type_params : Node → Bool
has_type_params (node l k (struct_decl name p params fields pub' packed)) = elim (items params) [
  | [] ↦ false
  | _ ∷ _ ↦ true
]
has_type_params _ = false

-- A generic struct with arguments, like `Pair[i32]`: the arguments are not looked at.
unfoldable pub is_generic_struct : Analyzer → Bytes → Bool
unfolding before_bracket find_named_decl
is_generic_struct a name = case_option (before_bracket name) false λ base.
    last_byte name == b']'
    && ltb (length base) 256
    && case_option (find_named_decl (a.decls structs) base) false λ d. has_type_params d.node

abbrev pub is_plain_type : Analyzer → Bytes → Bool
unfolding is_generic_struct is_identifier_like_name is_known_type
is_plain_type a name =
    is_generic_struct a name || (is_identifier_like_name name && is_known_type a name)

-- `p && q`, where `q` is not computed if `p` is false; `none` is out of fuel.
abbrev pub both_valid : Option Bool → Option Bool → Option Bool
both_valid none q = none
both_valid (some false) q = some false
both_valid (some true) q = q

unfoldable pub validate_name_within : ℕ → Analyzer → Bytes → Option Bool
unfolding type_name_has_form split_top_level_comma is_plain_type
validate_name_within zero a name = none
validate_name_within (suc fuel) a name =
    if type_name_has_form name (codes "Option")
    then validate_name_within fuel a (inner_name name)
    else if type_name_has_form name (codes "Result")
    then case_option (split_top_level_comma (inner_name name)) (some false)
        (λ s. both_valid (validate_name_within fuel a s.left) (validate_name_within fuel a s.right))
    else some (is_plain_type a name)

unfoldable pub validate_type_name : Analyzer → Bytes → Bool
unfolding validate_name_within
validate_type_name a name = case_option (validate_name_within (length name + 1) a name) false λ b. b

unfoldable mutual
  unfolding validate_type_name

  -- `none` is the answer 1, and an error is what the code reports with the answer 0.
  pub validate_type_node : Analyzer → Node → Option SemaError
  validate_type_node a (node line col s) = validate_type_shape a line col s

  pub validate_type_shape : Analyzer → ℕ → ℕ → Shape → Option SemaError
  validate_type_shape a line col (type_named name) =
      if validate_type_name a name
      then none
      else some (record { line = line; col = col; message = unknown_type name })
  validate_type_shape a line col (type_pointer inner c n) = validate_type_node a inner
  validate_type_shape a line col (type_array elem n) = validate_type_node a elem
  validate_type_shape a line col _ =
      some (record { line = line; col = col; message = unsupported_type })

unfoldable pub validate_type : Analyzer → MaybeNode → Option SemaError
unfolding validate_type_node
validate_type a null = none
validate_type a (at n) = validate_type_node a n
