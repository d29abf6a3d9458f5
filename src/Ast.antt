-- ===== src/Ast.antt =====
-- The syntax tree: compiler/src/parser/ast.h. A node is its line, its column and its shape; the
-- shapes are the members of the union, under the names of the node kinds. A pointer that may be
-- NULL is `MaybeNode`, or an option where it points at text; the parallel arrays of struct literals,
-- match arms and enum variants are lists. A floating literal is its text.
use apex_forge_night_script.Base.{ℕ, Bool, Option, none, some, List, [], ◌∷◌, Bytes}
use apex_forge_night_script.Base.Int.{ℤ}

pub data ElementKind : Type 0 where
  window button label input row column canvas panel menu : ElementKind

pub data HandlerKind : Type 0 where
  click key change : HandlerKind

mutual
  pub data Node : Type 0 where
    node : ℕ → ℕ → Shape → Node

  pub data Shape : Type 0 where
    type_named : Bytes → Shape
    -- inner, is_const, is_nullable
    type_pointer : Node → Bool → Bool → Shape
    -- element, length (-1 for a slice)
    type_array : Node → ℤ → Shape
    lit_int : ℕ → Shape
    lit_char : ℕ → Shape
    lit_float : Bytes → Shape
    lit_string : Bytes → Shape
    lit_bool : ℕ → Shape
    lit_null : Shape
    ident : Bytes → Shape
    binary : Bytes → Node → Node → Shape
    unary : Bytes → Node → Shape
    call : Node → Nodes → Shape
    field : Node → Bytes → Shape
    index_expr : Node → Node → Shape
    slice_expr : Node → MaybeNode → MaybeNode → Shape
    cast : Node → Node → Shape
    -- target, value, operator (none for `=`)
    assign : Node → Node → Option Bytes → Shape
    struct_lit : Bytes → Inits → Shape
    match_expr : Node → Arms → Shape
    group : Node → Shape
    block : Nodes → Shape
    -- name, type, value
    let_stmt : Bytes → MaybeNode → MaybeNode → Shape
    const_stmt : Bytes → MaybeNode → Node → Shape
    return_stmt : MaybeNode → Shape
    if_stmt : Node → Node → MaybeNode → Shape
    while_stmt : Node → Node → Shape
    loop_stmt : Node → Shape
    unsafe_stmt : Node → Shape
    break_stmt : Shape
    continue_stmt : Shape
    defer_stmt : Node → Shape
    -- init, cond, post, body
    for_stmt : MaybeNode → MaybeNode → MaybeNode → Node → Shape
    expr_stmt : Node → Shape
    program : MaybeNode → Nodes → Nodes → Shape
    package_decl : Bytes → Shape
    import_decl : Bytes → Shape
    -- name, owner_type, package_name, type_params, params, ret_type, body, is_public
    fn_decl :
        Bytes → Option Bytes → Option Bytes → Nodes → Nodes → MaybeNode → MaybeNode → Bool → Shape
    -- name, package_name, calling_conv, params, ret_type, is_public
    extern_fn : Bytes → Option Bytes → Option Bytes → Nodes → MaybeNode → Bool → Shape
    -- name, package_name, type_params, fields, is_public, is_packed
    struct_decl : Bytes → Option Bytes → Nodes → Nodes → Bool → Bool → Shape
    -- name, package_name, variants, is_public
    enum_decl : Bytes → Option Bytes → Variants → Bool → Shape
    -- name, package_name, fields, is_public
    union_decl : Bytes → Option Bytes → Nodes → Bool → Shape
    -- target, package_name, interface_name, methods
    impl_decl : Bytes → Option Bytes → Option Bytes → Nodes → Shape
    -- name, package_name, methods, is_public
    interface_decl : Bytes → Option Bytes → Nodes → Bool → Shape
    -- name, package_name, children, is_public
    ui_app : Bytes → Option Bytes → Nodes → Bool → Shape
    -- kind, text, properties, children, handlers
    ui_element : ElementKind → Option Bytes → Nodes → Nodes → Nodes → Shape
    ui_handler : HandlerKind → Node → Shape
    ui_property : Bytes → Node → Shape
    -- name, package_name, functions, is_public
    kernel_app : Bytes → Option Bytes → Nodes → Bool → Shape
    comptime_block : Nodes → Shape

  -- NodeList
  pub data Nodes : Type 0 where
    none_left : Nodes
    next : Node → Nodes → Nodes

  pub data MaybeNode : Type 0 where
    null : MaybeNode
    at : Node → MaybeNode

  -- field_names and field_values
  pub data Inits : Type 0 where
    no_inits : Inits
    init : Bytes → Node → Inits → Inits

  -- patterns, binding_names and values
  pub data Arms : Type 0 where
    no_arms : Arms
    arm : Bytes → List Bytes → Node → Arms → Arms

  -- variants and variant_fields
  pub data Variants : Type 0 where
    no_variants : Variants
    variant : Bytes → Nodes → Variants → Variants

abbrev pub shape : Node → Shape
shape (node l c s) = s

abbrev pub line_of : Node → ℕ
line_of (node l c s) = l

abbrev pub col_of : Node → ℕ
col_of (node l c s) = c

abbrev pub items : Nodes → List Node
items none_left = []
items (next n ns) = n ∷ items ns

abbrev pub nodes_of : List Node → Nodes
nodes_of [] = none_left
nodes_of (n ∷ ns) = next n (nodes_of ns)

abbrev pub maybe_node : Option Node → MaybeNode
maybe_node none = null
maybe_node (some n) = at n
