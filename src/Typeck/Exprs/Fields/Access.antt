-- ===== src/Typeck/Exprs/Fields/Access.antt =====
-- What an accepted selection reads: compiler/src/typeck/typeck.c, lines 1953-2082.
use apex_forge_night_script.Base.{ℕ, ◌<◌, ◌≡◌, true, some, Bytes, codes, false, none}
use apex_forge_night_script.Base.Int.{negsuc}
use apex_forge_night_script.Ast.{Node, line_of, col_of}
use apex_forge_night_script.Sema.Register.{let_type}
use apex_forge_night_script.Typeck.Visibility.{ensure_resolved_type_visible}
use apex_forge_night_script.Typeck.Types.{
  Ty, plain, named, pointer, array, u8, usize, str, type_from_ast, type_from_name_text,
}
use apex_forge_night_script.Typeck.Check.Context.{Context, composite_field}
use apex_forge_night_script.Typeck.Exprs.Fields.{owner_name, find_owner, is_union, substituted}

-- The type that a declared field has: its declared type, which is visible at the selection, or, where that
-- is a parameter of the struct, the type that the owner's name gives for it.
pub data FieldType (e : Context) (n decl : Node) (owner : Bytes) (field : Node) : Ty → Type 0 where
  of_declaration :
      substituted decl owner (let_type field) ≡ none
      → ensure_resolved_type_visible e.checker
          (type_from_ast (let_type field))
          (line_of n)
          (col_of n)
        ≡ none
      → FieldType e n decl owner field (type_from_ast (let_type field))
  of_argument :
      (text : Bytes)
      → substituted decl owner (let_type field) ≡ some text
      → FieldType e n decl owner field (type_from_name_text text)

-- The declaration of the object's type has the field, with the type, and is a union only in an unsafe
-- block.
pub record FieldRead (e : Context) (u : ℕ) (n : Node) (t : Ty) (name : Bytes) (r : Ty)
    : Type 0 where
  pub owner : Bytes
  pub decl : Node
  pub field : Node
  pub named : owner_name t ≡ some owner
  pub found : find_owner e owner ≡ some decl
  pub has_field : composite_field decl name ≡ some field
  pub unsafe_union : is_union decl ≡ true → 0 < u
  pub typed : FieldType e n decl owner field r

-- The fields that a type has of itself, with their types: the length and the pointer of a slice, which
-- is an array of negative length, and of a `str`, and the length, the capacity and the pointer of a
-- `String`.
pub data BuiltinField : Ty → Bytes → Ty → Type 0 where
  slice_len : {t : Ty} {i : ℕ} → BuiltinField (array t (negsuc i)) (codes "len") (plain usize)
  slice_ptr :
      {t : Ty} {i : ℕ} → BuiltinField (array t (negsuc i)) (codes "ptr") (pointer t false false)
  str_len : BuiltinField (plain str) (codes "len") (plain usize)
  str_ptr : BuiltinField (plain str) (codes "ptr") (pointer (plain u8) true false)
  string_len : BuiltinField (named (codes "String")) (codes "len") (plain usize)
  string_cap : BuiltinField (named (codes "String")) (codes "cap") (plain usize)
  string_ptr : BuiltinField (named (codes "String")) (codes "ptr") (pointer (plain u8) false false)
