-- ===== src/Typeck/Types.antt =====
-- The types of the checker: compiler/src/typeck/typeck.c, lines 8-170, 329-333, 398-404 and 415-590.
-- A kind with no payload is `plain`; the other kinds carry the fields that the code reads of them. A
-- `Type *` that is tested for NULL is an option. A declaration that a function type points at is its
-- address with the node, since `type_equals` compares the pointers. Allocation is not modelled.
pub mod Equality
pub mod Names
pub mod Casts
use apex_forge_night_script.Base.{
  ℕ, zero, suc, ◌+◌, ◌-◌, ◌/◌, ◌%◌, Bool, true, false, ◌&&◌, ◌||◌, not, Option, none, some, List,
  [], ◌∷◌, ◌++◌, String, Bytes, codes, beq, ltb, ◌==◌, if◌then◌else◌, take, case_option,
}
use apex_forge_night_script.Base.Int.{ℤ, pos, negsuc, int_eq}
use apex_forge_night_script.Ast.{
  Node, Shape, MaybeNode, node, null, at, type_named, type_pointer, type_array,
}

pub data PlainKind : Type 0 where
  error void bool char i8 i16 i32 i64 isize u8 u16 u32 u64 usize f32 f64 str cstr : PlainKind
  int_literal float_literal string_literal null_type : PlainKind

unfoldable pub plain_number : PlainKind → ℕ
plain_number error = 0
plain_number void = 1
plain_number bool = 2
plain_number char = 3
plain_number i8 = 4
plain_number i16 = 5
plain_number i32 = 6
plain_number i64 = 7
plain_number isize = 8
plain_number u8 = 9
plain_number u16 = 10
plain_number u32 = 11
plain_number u64 = 12
plain_number usize = 13
plain_number f32 = 14
plain_number f64 = 15
plain_number str = 16
plain_number cstr = 17
plain_number int_literal = 22
plain_number float_literal = 23
plain_number string_literal = 24
plain_number null_type = 25

pub record DeclPtr : Type 0 where
  pub address : ℕ
  pub decl : Node

pub data Ty : Type 0 where
  plain : PlainKind → Ty
  named : Bytes → Ty
  -- inner, is_const, is_nullable
  pointer : Ty → Bool → Bool → Ty
  array : Ty → ℤ → Ty
  function : DeclPtr → Ty

-- `a->kind == b->kind` for kinds with no payload.
abbrev pub plain_eq : PlainKind → PlainKind → Bool
plain_eq a b = plain_number a == plain_number b

abbrev pub is_plain : PlainKind → Ty → Bool
is_plain k (plain j) = plain_eq j k
is_plain k (named n) = false
is_plain k (pointer t c n) = false
is_plain k (array t n) = false
is_plain k (function d) = false

abbrev pub is_pointer : Ty → Bool
is_pointer (pointer t c n) = true
is_pointer (plain k) = false
is_pointer (named n) = false
is_pointer (array t n) = false
is_pointer (function d) = false

abbrev flag_eq : Bool → Bool → Bool
flag_eq true b = b
flag_eq false b = not b

unfoldable pub is_integer_kind : Ty → Bool
unfolding plain_number
is_integer_kind t =
    is_plain char t
    || is_plain i8 t
    || is_plain i16 t
    || is_plain i32 t
    || is_plain i64 t
    || is_plain isize t
    || is_plain u8 t
    || is_plain u16 t
    || is_plain u32 t
    || is_plain u64 t
    || is_plain usize t
    || is_plain int_literal t

unfoldable pub is_float_kind : Ty → Bool
unfolding plain_number
is_float_kind t = is_plain f32 t || is_plain f64 t || is_plain float_literal t

unfoldable pub is_numeric_type : Ty → Bool
unfolding is_integer_kind is_float_kind
is_numeric_type t = is_integer_kind t || is_float_kind t

-- The test on two pointers that are not NULL. Equal pointers are equal types, see `type_equals_self`.
unfoldable pub type_equals : Ty → Ty → Bool
unfolding plain_number
type_equals (plain a) (plain b) = plain_eq a b
type_equals (named a) (named b) = beq a b
type_equals (pointer a c n) (pointer b d m) = flag_eq c d && (flag_eq n m && type_equals a b)
type_equals (array a n) (array b m) = int_eq n m && type_equals a b
type_equals (function a) (function b) = a.address == b.address
type_equals _ _ = false

unfoldable pub is_assignable : Option Ty → Option Ty → Bool
unfolding plain_number type_equals is_integer_kind is_float_kind
is_assignable (some expected) (some actual) =
    is_plain error expected
    || is_plain error actual
    || type_equals expected actual
    || (is_plain int_literal actual && (is_integer_kind expected || is_plain char expected))
    || (is_plain float_literal actual && is_float_kind expected)
    || (is_plain string_literal actual && (is_plain str expected || is_plain cstr expected))
    || (is_plain null_type actual && is_pointer expected)
is_assignable _ _ = false

unfoldable pub is_castable : Option Ty → Option Ty → Bool
is_castable (some source) (some target) =
    is_plain error source
    || is_plain error target
    || type_equals source target
    || (is_numeric_type source && is_numeric_type target)
    || (is_pointer source && is_pointer target)
    || (is_pointer source && is_integer_kind target)
    || (is_pointer target && is_integer_kind source)
    || (is_plain null_type source && is_pointer target)
    || (is_plain null_type target && is_pointer source)
is_castable _ _ = false

unfoldable pub widen_literal : Option Ty → Ty
unfolding plain_number
widen_literal none = plain error
widen_literal (some t) =
    if is_plain int_literal t
    then plain i32
    else if is_plain float_literal t
    then plain f64
    else if is_plain string_literal t
    then plain str
    else t

unfoldable pub builtin_name : PlainKind → Option Bytes
builtin_name error = none
builtin_name void = some (codes "void")
builtin_name bool = some (codes "bool")
builtin_name char = some (codes "char")
builtin_name i8 = some (codes "i8")
builtin_name i16 = some (codes "i16")
builtin_name i32 = some (codes "i32")
builtin_name i64 = some (codes "i64")
builtin_name isize = some (codes "isize")
builtin_name u8 = some (codes "u8")
builtin_name u16 = some (codes "u16")
builtin_name u32 = some (codes "u32")
builtin_name u64 = some (codes "u64")
builtin_name usize = some (codes "usize")
builtin_name f32 = some (codes "f32")
builtin_name f64 = some (codes "f64")
builtin_name str = some (codes "str")
builtin_name cstr = some (codes "cstr")
builtin_name int_literal = some (codes "<int literal>")
builtin_name float_literal = some (codes "<float literal>")
builtin_name string_literal = some (codes "<string literal>")
builtin_name null_type = some (codes "null")

-- `%d` of a number that is not negative.
unfoldable pub decimal : ℕ → ℕ → Bytes → Bytes
decimal zero n acc = acc
decimal (suc fuel) n acc =
    let more = decimal fuel (n / 10) ((b'0' + n % 10) ∷ acc) in
    if ltb n 10 then (b'0' + n) ∷ acc else more

abbrev pub array_prefix : ℤ → Bytes
array_prefix (pos n) = b'[' ∷ (decimal (n + 1) n [] ++ codes "]")
array_prefix (negsuc n) = codes "[]"

-- What `snprintf` leaves of a text in a buffer of `size` bytes.
abbrev pub fit : ℕ → Bytes → Bytes
fit size s = take (size - 1) s

abbrev pub inner_size : ℕ
inner_size = 128

unfoldable pub format_type : Ty → ℕ → Bytes
unfolding builtin_name
format_type (named n) size = fit size n
format_type (pointer t c n) size =
    fit size (format_type t inner_size ++ (if c then codes "*const" else codes "*"))
format_type (array t n) size = fit size (array_prefix n ++ format_type t inner_size)
format_type (function d) size = fit size (codes "<function>")
format_type (plain k) size = fit size (case_option (builtin_name k) (codes "<type>") λ s. s)

-- The chain of comparisons in `type_from_ast`.
pub record BuiltinType : Type 0 where
  pub name : Bytes
  pub kind : PlainKind

abbrev builtin : String → PlainKind → BuiltinType
builtin s k = record { name = codes s; kind = k }

unfoldable pub builtin_types : List BuiltinType
builtin_types =
    builtin "void" void
    ∷ builtin "bool" bool
    ∷ builtin "char" char
    ∷ builtin "i8" i8
    ∷ builtin "i16" i16
    ∷ builtin "i32" i32
    ∷ builtin "i64" i64
    ∷ builtin "isize" isize
    ∷ builtin "u8" u8
    ∷ builtin "u16" u16
    ∷ builtin "u32" u32
    ∷ builtin "u64" u64
    ∷ builtin "usize" usize
    ∷ builtin "f32" f32
    ∷ builtin "f64" f64
    ∷ builtin "str" str
    ∷ builtin "cstr" cstr
    ∷ []

unfoldable pub find_builtin : List BuiltinType → Bytes → Option PlainKind
find_builtin [] name = none
find_builtin (b ∷ bs) name = if beq name b.name then some b.kind else find_builtin bs name

unfoldable pub type_from_name_text : Bytes → Ty
unfolding find_builtin builtin_types
type_from_name_text name = case_option (find_builtin builtin_types name) (named name) plain

unfoldable mutual
  unfolding type_from_name_text

  pub type_from_node : Node → Ty
  type_from_node (node line col s) = type_from_shape s

  pub type_from_shape : Shape → Ty
  type_from_shape (type_named name) = type_from_name_text name
  type_from_shape (type_pointer inner c n) = pointer (type_from_node inner) c n
  type_from_shape (type_array elem n) = array (type_from_node elem) n
  type_from_shape _ = plain error

unfoldable pub type_from_ast : MaybeNode → Ty
unfolding type_from_node
type_from_ast null = plain void
type_from_ast (at n) = type_from_node n
