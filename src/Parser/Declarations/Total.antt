-- ===== src/Parser/Declarations/Total.antt =====
-- The parsing of declarations keeps within its fuel and passes a token:
-- compiler/src/parser/parser.c, lines 1010-1313.
use apex_forge_night_script.Base.{ℕ, suc, Bool}
use apex_forge_night_script.Token.{Token}
use apex_forge_night_script.Parser.Knots.{Knots, Ties, Loose, Ties-Loose}
use apex_forge_night_script.Parser.Reads.{
  Reads, Enters, reads_rules, enters_rules, passes_rules, first_rules, Enters-Reads,
  Enters-match_kind,
}
use apex_forge_night_script.Parser.Statements.Total.{const_parts-Reads}
use apex_forge_night_script.Parser.Functions.Total.{params-Reads, type_params-Reads, fn_decl-Reads}
use apex_forge_night_script.Parser.Declarations.Records.{
  struct_field, parse_packed, parse_struct, variant_field, variant_fields, enum_variant, parse_enum,
  parse_union,
}
use apex_forge_night_script.Parser.Declarations.{
  parse_const_decl, impl_method, iface_name_of, parse_impl, interface_method, parse_interface,
  comptime_const, comptime_item, parse_comptime, calling_conv, parse_extern, parse_ui_app,
  kernel_fn, parse_kernel_app, parse_decl,
}

iface_name-Reads : {n : ℕ} → Reads n 0 iface_name_of
unfolding iface_name_of
iface_name-Reads = search reads_rules depth 12

calling_conv-Reads : {n : ℕ} → Reads n 0 calling_conv
unfolding calling_conv
calling_conv-Reads = search reads_rules depth 12

module _ {n : ℕ} (k : Knots) (h : Loose n k) where
  const_decl-Reads : (t : Token) → Reads n 0 (parse_const_decl k t)
  unfolding parse_const_decl
  const_decl-Reads t = search (reads_rules, const_parts-Reads) depth 12

  interface_method-Enters : Enters n (interface_method k)
  unfolding interface_method
  interface_method-Enters = search (enters_rules, Enters-match_kind, params-Reads) depth 16

  interface-Reads : (t : Token) (is_public : Bool) → Reads n 0 (parse_interface k t is_public)
  unfolding parse_interface
  interface-Reads t is_public = search (reads_rules, interface_method-Enters) depth 12

  comptime_const-Reads : Reads n 0 (comptime_const k)
  unfolding comptime_const
  comptime_const-Reads = search (reads_rules, const_parts-Reads) depth 12

  comptime-Reads : (t : Token) → Reads n 0 (parse_comptime k t)
  unfolding parse_comptime comptime_item
  comptime-Reads t =
      search (enters_rules, Enters-match_kind, Enters-Reads, first_rules, comptime_const-Reads)
        depth 16

  field-Enters : Enters n (struct_field k)
  unfolding struct_field
  field-Enters = search enters_rules depth 12

  packed-Reads : (t : Token) (is_public : Bool) → Reads n 0 (parse_packed k t is_public)
  unfolding parse_packed
  packed-Reads t is_public = search (reads_rules, field-Enters, type_params-Reads) depth 12

  struct-Reads : (t : Token) (is_public : Bool) → Reads n 0 (parse_struct k t is_public)
  unfolding parse_struct
  struct-Reads t is_public = search (reads_rules, field-Enters, type_params-Reads) depth 12

  union-Reads : (t : Token) (is_public : Bool) → Reads n 0 (parse_union k t is_public)
  unfolding parse_union
  union-Reads t is_public = search (reads_rules, field-Enters) depth 12

  variant_field-Enters : Enters n (variant_field k)
  unfolding variant_field
  variant_field-Enters = search enters_rules depth 12

  variant_fields-Reads : Reads n 0 (variant_fields k)
  unfolding variant_fields
  variant_fields-Reads = search (reads_rules, variant_field-Enters) depth 12

  variant-Enters : Enters n (enum_variant k)
  unfolding enum_variant
  variant-Enters = search (enters_rules, variant_fields-Reads) depth 12

  enum-Reads : (t : Token) (is_public : Bool) → Reads n 0 (parse_enum k t is_public)
  unfolding parse_enum
  enum-Reads t is_public = search (reads_rules, variant-Enters) depth 12

  extern-Reads : (t : Token) (is_public : Bool) → Reads n 0 (parse_extern k t is_public)
  unfolding parse_extern
  extern-Reads t is_public = search (reads_rules, calling_conv-Reads, params-Reads) depth 14

module _ {n : ℕ} (k : Knots) (h : Loose n k) (ties : Ties n k) where
  impl_method-Enters : (target : Token) → Enters n (impl_method k target)
  unfolding impl_method
  impl_method-Enters target = search (enters_rules, Enters-match_kind, fn_decl-Reads) depth 12

  impl-Reads : (t : Token) → Reads n 0 (parse_impl k t)
  unfolding parse_impl
  impl-Reads t = search (reads_rules, iface_name-Reads, impl_method-Enters) depth 12

  ui_app-Reads : (t : Token) (is_public : Bool) → Reads n 0 (parse_ui_app k t is_public)
  unfolding parse_ui_app
  ui_app-Reads t is_public =
      let inside = Enters-Reads ties.ui_element in search reads_rules depth 12

  kernel_app-Reads : (t : Token) (is_public : Bool) → Reads n 0 (parse_kernel_app k t is_public)
  unfolding parse_kernel_app kernel_fn
  kernel_app-Reads t is_public =
      search (enters_rules, Enters-match_kind, Enters-Reads, first_rules, fn_decl-Reads) depth 16

pub decl-Reads : {n : ℕ} (k : Knots) → Ties n k → Reads (suc n) 1 (parse_decl k)
unfolding parse_decl
decl-Reads k h =
    let loose = Ties-Loose h in
    search
      (
        passes_rules, const_decl-Reads, impl-Reads, interface-Reads, comptime-Reads, packed-Reads,
        struct-Reads, enum-Reads, union-Reads, extern-Reads, fn_decl-Reads, ui_app-Reads,
        kernel_app-Reads,
      )
      depth 40 fits 4000
