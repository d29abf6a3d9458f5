-- ===== src/Sema/Declare/Invariants.antt =====
-- What every operation keeps, the passes over the declarations keep: compiler/src/sema/sema.c, lines
-- 1269 to 1371.
use apex_forge_night_script.Base.{
  Bool, true, false, Option, none, some, List, [], ◌∷◌, Bytes, codes, Bool-cases, Option-cases, inl,
  inr, if◌then◌else◌, case_option,
}
use apex_forge_night_script.Ast.{
  Node, node, items, struct_decl, enum_decl, union_decl, interface_decl, impl_decl, fn_decl,
  extern_fn, const_stmt, comptime_block, kernel_app,
}
use apex_forge_night_script.Sema.Analyzer.{
  Analyzer, Step, SemaError, MethodDecl, Table, error_at, sema_error, empty_analyzer,
  duplicate_method, unknown_interface, unknown_impl_target, out_of_memory, functions,
  extern_functions, structs, enums, unions, interfaces, register_global_name, find_named_decl,
  find_method_decl, push_method_decl, declared,
}
use apex_forge_night_script.Sema.TypeNames.{validate_type}
use apex_forge_night_script.Sema.Register.{
  register_decl, validate_fields, validate_enum_variants, fn_name, fn_params, fn_ret_type, and_then,
  and_check, Receiver, accepted, refused, reported,
}
use apex_forge_night_script.Sema.Register.Impl.{
  register_impl_decl, register_methods, register_method, register_interface_of, check_method_params,
  and_receive, check_impl_satisfies_interface, coerce_name, impl_target, impl_interface,
  impl_methods,
}
use apex_forge_night_script.Sema.Declare.{
  has_any, fail_unless, fail_on, fail_with, until_error, declare_type, check_type, declare_comptime,
  declare_interface, declare_kernel_function, declare_function, declare_all,
}

-- A property of analyzers that is kept by an error, a failure and the additions to the tables.
pub record Kept (P : Analyzer → Type 0) : Type 0 where
  pub error : (a : Analyzer) (e : SemaError) → P a → P (sema_error a e)
  pub failed : (a : Analyzer) → P a → P (record a { had_error = true })
  pub method : (a : Analyzer) (m : MethodDecl) → P a → P (push_method_decl a m)
  pub global :
      (a : Analyzer) (name : Bytes) (n : Node) → P a → P (register_global_name a name n).after
  pub decl :
      (t : Table) (a : Analyzer) (name : Bytes) (n : Node)
      → P a
      → P (register_decl t a name n).after

module _ (P : Analyzer → Type 0) (kept : Kept P) where
  -- A step whose state has the property.
  abbrev Keeps : Step → Type 0
  Keeps s = P s.after

  and_then-Kept :
      (s : Step) (k : Analyzer → Step)
      → Keeps s
      → ((a : Analyzer) → P a → Keeps (k a))
      → Keeps (and_then s k)
  and_then-Kept s k h f = elim (Bool-cases s.ok) [ inl e ↦ rw e (f s.after h) | inr e ↦ rw e h ]

  and_check-Kept :
      (a : Analyzer) (o : Option SemaError) (k : Analyzer → Step)
      → P a
      → Keeps (k a)
      → Keeps (and_check a o k)
  and_check-Kept a none k c h = h
  and_check-Kept a (some e) k c h = kept.error a e c

  and_receive-Kept :
      (a : Analyzer) (r : Receiver) (k : Analyzer → Step)
      → P a
      → Keeps (k a)
      → Keeps (and_receive a r k)
  and_receive-Kept a accepted k c h = h
  and_receive-Kept a refused k c h = c
  and_receive-Kept a (reported e) k c h = kept.error a e c

  register_method-Kept :
      (a : Analyzer) (target : Bytes) (m : Node) → P a → Keeps (register_method a target m)
  unfolding register_method push_method_decl
  register_method-Kept a target m c =
      elim (Bool-cases
        (case_option (find_method_decl a.methods target (fn_name m)) false λ d. true)) [
          | inl e ↦ rw e (kept.error a (error_at m (duplicate_method target (fn_name m))) c)
          | inr e ↦ rw e (
              and_check-Kept a (validate_type a (fn_ret_type m)) _ c (
                and_receive-Kept a (check_method_params a target [] (fn_params m)) _ c
                  (kept.method a (record { owner = target; name = fn_name m; node = m }) c)))
        ]

  register_methods-Kept :
      (a : Analyzer) (target : Bytes) (ms : List Node) (k : Analyzer → Step)
      → P a
      → ((b : Analyzer) → P b → Keeps (k b))
      → Keeps (register_methods a target ms k)
  unfolding register_methods
  register_methods-Kept a target [] k c f = f a c
  register_methods-Kept a target (m ∷ ms) k c f =
      and_then-Kept (register_method a target m) (λ b. register_methods b target ms k)
        (register_method-Kept a target m c) (λ b d. register_methods-Kept b target ms k d f)

  register_interface_of-Kept :
      (impl : Node) (i : Bytes) (a : Analyzer) → P a → Keeps (register_interface_of impl i a)
  unfolding register_interface_of
  register_interface_of-Kept impl i a c =
      elim (Option-cases (find_named_decl (a.decls interfaces) i)) [
        | inl e ↦ rw e (kept.error a (error_at impl (unknown_interface i)) c)
        | inr (entry, e) ↦ rw e (
            and_check-Kept a (check_impl_satisfies_interface impl entry.node) _ c
              (kept.global a (coerce_name (impl_target impl) i) impl c))
      ]

  register_impl_decl-Kept : (a : Analyzer) (impl : Node) → P a → Keeps (register_impl_decl a impl)
  unfolding register_impl_decl
  register_impl_decl-Kept a impl c =
      elim (Bool-cases (declared (a.decls structs) (impl_target impl))) [
        | inl e ↦
            rw e (register_methods-Kept a (impl_target impl) (impl_methods impl) _ c (rest impl))
        | inr e ↦ rw e (kept.error a (error_at impl (unknown_impl_target (impl_target impl))) c)
      ]
    where
      rest :
          (impl : Node) (b : Analyzer)
          → P b
          → Keeps (
              case_option
                (impl_interface impl)
                (record { ok = true; after = b })
                λ i. register_interface_of impl i b)
      rest impl b d = elim (Option-cases (impl_interface impl)) [
        | inl e ↦ rw e d
        | inr (i, e) ↦ rw e (register_interface_of-Kept impl i b d)
      ]

  either-Kept : (b : Bool) (x y : Analyzer) → P x → P y → P (if b then x else y)
  either-Kept true x y c d = c
  either-Kept false x y c d = d

  fail_unless-Kept : (s : Step) → Keeps s → P (fail_unless s)
  fail_unless-Kept s c = either-Kept s.ok _ _ c (kept.failed s.after c)

  fail_on-Kept : (a : Analyzer) (o : Option SemaError) → P a → P (fail_on a o)
  fail_on-Kept a none c = c
  fail_on-Kept a (some e) c = kept.error a e c

  fail_with-Kept : (s : Step) (n : Node) → Keeps s → P (fail_with s n)
  fail_with-Kept s n c =
      either-Kept s.ok _ _ c
        (either-Kept s.after.had_error _ _ c (kept.error s.after (error_at n out_of_memory) c))

  until_error-Kept :
      (f : Analyzer → Node → Analyzer) (ns : List Node) (a : Analyzer)
      → ((b : Analyzer) (n : Node) → P b → P (f b n))
      → P a
      → P (until_error f ns a)
  unfolding until_error
  until_error-Kept f [] a h c = c
  until_error-Kept f (n ∷ ns) a h c =
      either-Kept a.had_error _ _ c (until_error-Kept f ns (f a n) h (h a n c))

  declare_type-Kept : (a : Analyzer) (n : Node) → P a → P (declare_type a n)
  unfolding declare_type
  declare_type-Kept a (node l k (struct_decl name p t fs pub' packed)) c =
      fail_unless-Kept
        (register_decl structs a name (node l k (struct_decl name p t fs pub' packed)))
        (kept.decl structs a name (node l k (struct_decl name p t fs pub' packed)) c)
  declare_type-Kept a (node l k (enum_decl name p vs pub')) c =
      fail_unless-Kept (register_decl enums a name (node l k (enum_decl name p vs pub')))
        (kept.decl enums a name (node l k (enum_decl name p vs pub')) c)
  declare_type-Kept a (node l k (union_decl name p fs pub')) c =
      fail_unless-Kept (register_decl unions a name (node l k (union_decl name p fs pub')))
        (kept.decl unions a name (node l k (union_decl name p fs pub')) c)
  declare_type-Kept a (node l k (const_stmt name type value)) c =
      fail_unless-Kept (register_global_name a name (node l k (const_stmt name type value)))
        (kept.global a name (node l k (const_stmt name type value)) c)
  declare_type-Kept a _ c = c

  check_type-Kept : (a : Analyzer) (n : Node) → P a → P (check_type a n)
  unfolding check_type
  check_type-Kept a (node l k (struct_decl name p t fs pub' packed)) c =
      either-Kept (has_any t) _ _ c
        (fail_on-Kept a (validate_fields a (items fs) (codes "struct")) c)
  check_type-Kept a (node l k (union_decl name p fs pub')) c =
      fail_on-Kept a (validate_fields a (items fs) (codes "union")) c
  check_type-Kept a (node l k (enum_decl name p vs pub')) c =
      fail_on-Kept a (validate_enum_variants (node l k (enum_decl name p vs pub'))) c
  check_type-Kept a _ c = c

  declare_comptime-Kept : (a : Analyzer) (n : Node) → P a → P (declare_comptime a n)
  unfolding declare_comptime
  declare_comptime-Kept a (node l k (const_stmt name type value)) c =
      kept.global a name (node l k (const_stmt name type value)) c
  declare_comptime-Kept a _ c = c

  declare_interface-Kept : (a : Analyzer) (n : Node) → P a → P (declare_interface a n)
  unfolding declare_interface
  declare_interface-Kept a (node l k (interface_decl name p ms pub')) c =
      fail_unless-Kept (register_decl interfaces a name (node l k (interface_decl name p ms pub')))
        (kept.decl interfaces a name (node l k (interface_decl name p ms pub')) c)
  declare_interface-Kept a (node l k (comptime_block ns)) c =
      until_error-Kept declare_comptime (items ns) a declare_comptime-Kept c
  declare_interface-Kept a _ c = c

  declare_kernel_function-Kept :
      (app : Node) (a : Analyzer) (f : Node) → P a → P (declare_kernel_function app a f)
  unfolding declare_kernel_function
  declare_kernel_function-Kept app a f c =
      fail_with-Kept (register_decl functions a (fn_name f) f) app
        (kept.decl functions a (fn_name f) f c)

  declare_function-Kept : (a : Analyzer) (n : Node) → P a → P (declare_function a n)
  unfolding declare_function
  declare_function-Kept a (node l k (fn_decl name o p t ps r b pub')) c =
      either-Kept (has_any t) _ _ (kept.global a name (node l k (fn_decl name o p t ps r b pub')) c)
        (fail_with-Kept (register_decl functions a name (node l k (fn_decl name o p t ps r b pub')))
          (node l k (fn_decl name o p t ps r b pub'))
          (kept.decl functions a name (node l k (fn_decl name o p t ps r b pub')) c))
  declare_function-Kept a (node l k (extern_fn name p v ps r pub')) c =
      fail_with-Kept
        (register_decl extern_functions a name (node l k (extern_fn name p v ps r pub')))
        (node l k (extern_fn name p v ps r pub'))
        (kept.decl extern_functions a name (node l k (extern_fn name p v ps r pub')) c)
  declare_function-Kept a (node l k (impl_decl target p i ms)) c =
      fail_unless-Kept (register_impl_decl a (node l k (impl_decl target p i ms)))
        (register_impl_decl-Kept a (node l k (impl_decl target p i ms)) c)
  declare_function-Kept a (node l k (kernel_app name p fs pub')) c =
      until_error-Kept (declare_kernel_function (node l k (kernel_app name p fs pub'))) (items fs) a
        (declare_kernel_function-Kept (node l k (kernel_app name p fs pub'))) c
  declare_function-Kept a _ c = c

  -- A property that every operation keeps holds after the passes, if it holds of the empty analyzer.
  pub declare_all-Kept : (decls : List Node) → P empty_analyzer → P (declare_all decls)
  unfolding declare_all
  declare_all-Kept decls c = until_error-Kept declare_function decls _ declare_function-Kept (
      until_error-Kept declare_interface decls _ declare_interface-Kept (
        until_error-Kept check_type decls _ check_type-Kept
          (until_error-Kept declare_type decls _ declare_type-Kept c)))
