-- ===== src/Sema/Register/Impl.antt =====
-- The registration of impl blocks: compiler/src/sema/sema.c, lines 636-728.
use apex_forge_night_script.Base.{
  ◌≡◌, refl, ◌↔◌, true, false, not, Option, none, some, List, [], ◌∷◌, ◌++◌, Bytes, codes, beq,
  take, if◌then◌else◌, case_option, All, Bool-cases, inl, inr, map,
}
use apex_forge_night_script.Ast.{Node, node, items, interface_decl, impl_decl, line_of, col_of}
use apex_forge_night_script.Sema.Analyzer.{
  SemaError, Analyzer, Step, duplicate_parameter, unknown_impl_target, unknown_interface,
  duplicate_method, missing_method, error_at, structs, interfaces, accept, refuse, find_named_decl,
  declared, find_method_decl, push_method_decl, is_name_in, register_global_name,
}
use apex_forge_night_script.Sema.TypeNames.{validate_type}
use apex_forge_night_script.Sema.Register.{
  Receiver, accepted, refused, reported, let_name, let_type, fn_name, fn_params, fn_ret_type,
  validate_receiver_type, and_then, and_check,
}

abbrev pub impl_target : Node → Bytes
impl_target (node l k (impl_decl target p i ms)) = target
impl_target _ = []

abbrev pub impl_interface : Node → Option Bytes
impl_interface (node l k (impl_decl target p i ms)) = i
impl_interface _ = none

abbrev pub impl_methods : Node → List Node
impl_methods (node l k (impl_decl target p i ms)) = items ms
impl_methods _ = []

abbrev pub interface_methods : Node → List Node
interface_methods (node l k (interface_decl name p ms pub')) = items ms
interface_methods _ = []

abbrev pub interface_name : Node → Bytes
interface_name n = case_option (impl_interface n) [] λ i. i

-- The first method that the interface asks for and that is not among the names of the impl's methods.
unfoldable pub missing_in : Node → List Bytes → List Node → Option SemaError
unfolding is_name_in
missing_in impl names [] = none
missing_in impl names (required ∷ ms) =
    let rest = missing_in impl names ms in
    if is_name_in names (fn_name required)
    then rest
    else some
        (error_at impl (missing_method (impl_target impl) (interface_name impl) (fn_name required)))

unfoldable pub check_impl_satisfies_interface : Node → Node → Option SemaError
unfolding missing_in
check_impl_satisfies_interface impl iface =
    missing_in impl (map fn_name (impl_methods impl)) (interface_methods iface)

-- What the checks of a method's parameters answer: 1, 0 without an error, or 0 with one.
abbrev pub receiver_then : Receiver → Receiver → Receiver
receiver_then accepted r = r
receiver_then refused r = refused
receiver_then (reported e) r = reported e

abbrev pub receiver_of : Option SemaError → Receiver
receiver_of none = accepted
receiver_of (some e) = reported e

-- The parameters of a method; `seen` is empty at the first one, which may be `self`.
unfoldable pub check_method_params : Analyzer → Bytes → List Bytes → List Node → Receiver
unfolding is_name_in validate_receiver_type validate_type
check_method_params a owner seen [] = accepted
check_method_params a owner seen (p ∷ ps) =
    let rest = check_method_params a owner (seen ++ let_name p ∷ []) ps in
    let self : Receiver = elim seen [
      | [] ↦
          if beq (let_name p) (codes "self")
          then validate_receiver_type owner (let_type p) (line_of p) (col_of p)
          else accepted
      | _ ∷ _ ↦ accepted
    ] in
    if is_name_in seen (let_name p)
    then reported (error_at p (duplicate_parameter (let_name p)))
    else receiver_then (receiver_of (validate_type a (let_type p))) (receiver_then self rest)

abbrev pub and_receive : Analyzer → Receiver → (Analyzer → Step) → Step
and_receive a accepted k = k a
and_receive a refused k = record { ok = false; after = a }
and_receive a (reported e) k = refuse a e

unfoldable pub register_method : Analyzer → Bytes → Node → Step
unfolding find_method_decl push_method_decl check_method_params validate_type
register_method a target method =
    if case_option (find_method_decl a.methods target (fn_name method)) false (λ m. true)
    then refuse a (error_at method (duplicate_method target (fn_name method)))
    else and_check a (validate_type a (fn_ret_type method)) λ b.
      and_receive b (check_method_params b target [] (fn_params method)) λ c.
        accept
          (push_method_decl c (record { owner = target; name = fn_name method; node = method }))

-- The methods one after the other, with `k` after the last.
unfoldable pub register_methods : Analyzer → Bytes → List Node → (Analyzer → Step) → Step
unfolding register_method
register_methods a target [] k = k a
register_methods a target (m ∷ ms) k =
    and_then (register_method a target m) λ b. register_methods b target ms k

abbrev pub coerce_name : Bytes → Bytes → Bytes
coerce_name target interface = take 255 (target ++ codes "_as_" ++ interface)

-- The answer of the last `register_global_name` is not looked at.
unfoldable pub register_interface_of : Node → Bytes → Analyzer → Step
unfolding find_named_decl check_impl_satisfies_interface register_global_name
register_interface_of impl interface a =
    case_option (find_named_decl (a.decls interfaces) interface)
      (refuse a (error_at impl (unknown_interface interface)))
      λ entry.
        and_check a (check_impl_satisfies_interface impl entry.node)
          λ b. accept (register_global_name b (coerce_name (impl_target impl) interface) impl).after

unfoldable pub register_impl_decl : Analyzer → Node → Step
unfolding declared register_methods register_interface_of
register_impl_decl a impl =
    if not (declared (a.decls structs) (impl_target impl))
    then refuse a (error_at impl (unknown_impl_target (impl_target impl)))
    else register_methods a (impl_target impl) (impl_methods impl)
        λ b. case_option (impl_interface impl) (accept b) λ i. register_interface_of impl i b

missing_in_iff :
    (impl : Node) (names : List Bytes) (ms : List Node)
    → (missing_in impl names ms ≡ none) ↔ All (λ m. is_name_in names (fn_name m) ≡ true) ms
unfolding missing_in
missing_in_iff impl names [] = (λ h. tt, λ h. refl)
missing_in_iff impl names (m ∷ ms) = elim (Bool-cases (is_name_in names (fn_name m))) [
  | inl e ↦
      rw e
        (λ h. (refl, (missing_in_iff impl names ms).0 h), λ h. (missing_in_iff impl names ms).1 h.1)
  | inr e ↦ rw e (λ h. cc, λ h. let k = h.0 in cc)
]

-- An impl satisfies an interface exactly when each method of the interface has the name of one of the
-- impl's methods. Their parameters and types are not compared.
pub check_impl_satisfies_interface_iff :
    (impl iface : Node)
    → (check_impl_satisfies_interface impl iface ≡ none)
      ↔ All
          (λ m. is_name_in (map fn_name (impl_methods impl)) (fn_name m) ≡ true)
          (interface_methods iface)
unfolding check_impl_satisfies_interface
check_impl_satisfies_interface_iff impl iface =
    missing_in_iff impl (map fn_name (impl_methods impl)) (interface_methods iface)
