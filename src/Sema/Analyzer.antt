-- ===== src/Sema/Analyzer.antt =====
-- The analyzer's tables: compiler/src/sema/sema.c, lines 8-61, 72-82, 201-302 and 398-423. A table is
-- the list of its entries, in the order in which they were added; that the arrays double when they are
-- full, and that they are never refused memory, is not modelled. The errors are kept with the newest
-- first, where the code prints them.
use apex_forge_night_script.Base.{
  ℕ, Bool, true, false, ◌||◌, ◌&&◌, Option, none, some, List, [], ◌∷◌, ◌++◌, Bytes, codes, beq, map,
  if◌then◌else◌, case_option,
}
use apex_forge_night_script.Ast.{Node, line_of, col_of}

pub data SemaMessage : Type 0 where
  duplicate_symbol unknown_type duplicate_parameter : Bytes → SemaMessage
  unsupported_type out_of_memory : SemaMessage
  -- the owner
  bad_receiver : Bytes → SemaMessage
  -- what is declared (function, struct, ...) and its name
  duplicate_declaration : Bytes → Bytes → SemaMessage
  unknown_impl_target unknown_interface : Bytes → SemaMessage
  -- the owner and the method
  duplicate_method : Bytes → Bytes → SemaMessage
  -- the target, the interface, the method
  missing_method : Bytes → Bytes → Bytes → SemaMessage
  -- what has the field, and the field
  duplicate_field : Bytes → Bytes → SemaMessage
  -- the enum and the variant
  duplicate_variant : Bytes → Bytes → SemaMessage
  -- the errors of bodies
  unknown_symbol invalid_pattern unknown_pattern_enum unknown_composite : Bytes → SemaMessage
  duplicate_literal_field duplicate_binding duplicate_local : Bytes → SemaMessage
  -- the enum and what is selected from it
  unknown_variant unknown_enum_member : Bytes → Bytes → SemaMessage
  -- the field and the type
  unknown_literal_field : Bytes → Bytes → SemaMessage
  empty_import : SemaMessage
  unresolved_import : Bytes → SemaMessage
  unsupported_expression unsupported_statement break_outside continue_outside : SemaMessage

pub record SemaError : Type 0 where
  pub line : ℕ
  pub col : ℕ
  pub message : SemaMessage

abbrev pub error_at : Node → SemaMessage → SemaError
error_at n m = record { line = line_of n; col = col_of n; message = m }

pub record NamedDecl : Type 0 where
  pub name : Bytes
  pub node : Node

pub record MethodDecl : Type 0 where
  pub owner : Bytes
  pub name : Bytes
  pub node : Node

-- The arrays of declarations of an analyzer.
pub data Table : Type 0 where
  functions extern_functions structs enums unions interfaces : Table

pub record Analyzer : Type 0 where
  pub errors : List SemaError
  pub had_error : Bool
  pub decls : Table → List NamedDecl
  pub methods : List MethodDecl
  pub global_names : List Bytes

-- `memset(a, 0, sizeof(*a))`
abbrev pub empty_analyzer : Analyzer
empty_analyzer = record {
  errors = [];
  had_error = false;
  decls = λ t. [];
  methods = [];
  global_names = [];
}

abbrev pub sema_error : Analyzer → SemaError → Analyzer
sema_error a e = record a { errors = e ∷ a.errors; had_error = true }

-- What an operation answers, with the analyzer that it leaves.
pub record Step : Type 0 where
  pub ok : Bool
  pub after : Analyzer

abbrev pub accept : Analyzer → Step
accept a = record { ok = true; after = a }

abbrev pub refuse : Analyzer → SemaError → Step
refuse a e = record { ok = false; after = sema_error a e }

unfoldable pub find_named_decl : List NamedDecl → Bytes → Option NamedDecl
find_named_decl [] name = none
find_named_decl (d ∷ ds) name = if beq d.name name then some d else find_named_decl ds name

unfoldable pub declared : List NamedDecl → Bytes → Bool
unfolding find_named_decl
declared ds name = case_option (find_named_decl ds name) false λ d. true

unfoldable pub find_method_decl : List MethodDecl → Bytes → Bytes → Option MethodDecl
find_method_decl [] owner name = none
find_method_decl (m ∷ ms) owner name =
    if beq m.owner owner && beq m.name name then some m else find_method_decl ms owner name

abbrev pub table_eq : Table → Table → Bool
table_eq functions functions = true
table_eq extern_functions extern_functions = true
table_eq structs structs = true
table_eq enums enums = true
table_eq unions unions = true
table_eq interfaces interfaces = true
table_eq _ _ = false

unfoldable pub push_named_decl : Table → Analyzer → NamedDecl → Analyzer
push_named_decl t a d = record a {
  decls = λ u. if table_eq t u then a.decls u ++ d ∷ [] else a.decls u;
}

unfoldable pub push_method_decl : Analyzer → MethodDecl → Analyzer
push_method_decl a m = record a { methods = a.methods ++ m ∷ [] }

unfoldable pub is_name_in : List Bytes → Bytes → Bool
is_name_in [] name = false
is_name_in (n ∷ ns) name = beq n name || is_name_in ns name

unfoldable pub register_global_name : Analyzer → Bytes → Node → Step
unfolding is_name_in
register_global_name a name n =
    if is_name_in a.global_names name
    then refuse a (error_at n (duplicate_symbol name))
    else accept (record a { global_names = a.global_names ++ name ∷ [] })

abbrev pub builtins : List Bytes
builtins = map codes (
    "i8" ∷ "i16" ∷ "i32" ∷ "i64" ∷ "isize" ∷ "u8" ∷ "u16" ∷ "u32" ∷ "u64" ∷ "usize" ∷ "f32" ∷ "f64"
    ∷ "bool" ∷ "char" ∷ "void" ∷ "never" ∷ "str" ∷ "String" ∷ "cstr" ∷ [])

unfoldable pub is_builtin_type : Bytes → Bool
unfolding is_name_in
is_builtin_type name = is_name_in builtins name

unfoldable pub is_known_type : Analyzer → Bytes → Bool
unfolding is_builtin_type declared
is_known_type a name =
    is_builtin_type name
    || declared (a.decls structs) name
    || declared (a.decls enums) name
    || declared (a.decls unions) name
    || declared (a.decls interfaces) name
