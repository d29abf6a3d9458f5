-- ===== src/Typeck/Exprs/Matches.antt =====
-- `check_match_expr`: compiler/src/typeck/typeck.c, lines 787-858 and 1041-1260. The names of enums fit their
-- buffers of 128 bytes, as compiler/src/sema/sema.c requires of every pattern.
pub mod Covering
pub mod Exhaustive
use apex_forge_night_script.Base.{
  ℕ, zero, suc, Bool, true, false, ◌&&◌, ◌||◌, not, ◌==◌, Option, none, some, List, [], ◌∷◌, ◌++◌,
  Bytes, codes, beq, ltb, length, map, if◌then◌else◌, case_option,
}
use apex_forge_night_script.Ast.{Node}
use apex_forge_night_script.Sema.Analyzer.{is_name_in}
use apex_forge_night_script.Sema.TypeNames.{Split}
use apex_forge_night_script.Sema.Register.{let_type}
use apex_forge_night_script.Sema.Symbols.{split_dot, enum_variants}
use apex_forge_night_script.Typeck.Types.{
  Ty, named, is_assignable, type_from_name_text, type_from_ast,
}
use apex_forge_night_script.Typeck.Scope.{Scope, scope_define}
use apex_forge_night_script.Typeck.Check.{
  CheckMessage, Check, answer, ◌>>=◌, refuse_type, error_type, shown, is_any_of, match_subject,
  duplicate_wildcard, wildcard_bindings, wrong_arm, duplicate_arm, invalid_match_pattern,
  arm_bindings, duplicate_match_binding, arm_mismatch, missing_arm,
}
use apex_forge_night_script.Typeck.Check.Context.{
  Context, is_option_type, is_result_type, option_inner_type, result_inner_names,
  enum_variant_fields, find_enum,
}

-- An arm; its value is checked in the scope of its bindings.
pub record MatchArm : Type 0 where
  pub pattern : Bytes
  pub bindings : List Bytes
  pub node : Node
  pub value : Scope → Check Ty

pub data Subject : Type 0 where
  of_option of_result : Subject
  of_enum : Node → Subject

unfoldable pub subject_of : Context → Ty → Option Subject
unfolding is_option_type is_result_type find_enum
subject_of e (named name) =
    if is_option_type (named name)
    then some of_option
    else if is_result_type (named name)
    then some of_result
    else case_option (find_enum e name) none λ d. some (of_enum d)
subject_of e t = none

abbrev pub subject_name : Ty → Bytes
subject_name (named name) = name
subject_name t = []

-- `saw_wildcard`, `seen_variants` and `result_type`.
pub record Progress : Type 0 where
  pub wildcard : Bool
  pub seen : List Bytes
  pub result : Option Ty

-- A refusal, with a message or without one.
pub data Fault : Type 0 where
  quiet : Fault
  saying : CheckMessage → Fault

pub data Judged {ℓ} (A : Type ℓ) : Type ℓ where
  good : A → Judged A
  bad : Fault → Judged A

abbrev pub wildcard_pattern : Bytes
wildcard_pattern = codes "_"

-- The variant that a pattern names, and the enum in front of it where there is one.
unfoldable pub variant_of : Ty → Subject → Bytes → Judged (Option Bytes × Bytes)
unfolding is_any_of split_dot shown
variant_of t of_option pattern =
    if is_any_of ("Some" ∷ "None" ∷ []) pattern
    then good (none, pattern)
    else bad (saying (wrong_arm pattern (subject_name t)))
variant_of t of_result pattern =
    if is_any_of ("Ok" ∷ "Err" ∷ []) pattern
    then good (none, pattern)
    else bad (saying (wrong_arm pattern (subject_name t)))
variant_of t (of_enum d) pattern = case_option (split_dot pattern) (bad quiet) λ (enum, name).
    if beq (subject_name t) enum
    then good (some enum, name)
    else bad (saying (wrong_arm pattern (shown t)))

-- The table of the variants seen has room for 256.
abbrev pub add_seen : Bytes → List Bytes → List Bytes
add_seen name seen = if ltb (length seen) 256 then seen ++ name ∷ [] else seen

abbrev pub declared_types : List Node → List Ty
declared_types [] = []
declared_types (f ∷ fs) = type_from_ast (let_type f) ∷ declared_types fs

unfoldable pub get_match_binding_types : Context → Ty → Subject → Bytes → Option (List Ty)
unfolding option_inner_type result_inner_names split_dot find_enum enum_variant_fields
get_match_binding_types e t of_option pattern =
    if beq pattern (codes "Some")
    then some (option_inner_type t ∷ [])
    else if beq pattern (codes "None")
    then some []
    else none
get_match_binding_types e t of_result pattern = case_option (result_inner_names t) none λ s.
    if beq pattern (codes "Ok")
    then some (type_from_name_text s.left ∷ [])
    else if beq pattern (codes "Err")
    then some (type_from_name_text s.right ∷ [])
    else none
get_match_binding_types e t (of_enum d) pattern =
    case_option (split_dot pattern) none λ (enum, name).
      case_option (find_enum e enum) none
        λ decl. case_option (enum_variant_fields decl name) (some []) λ fs. some (declared_types fs)

-- The progress behind the variant of an arm, which may not have been seen.
unfoldable pub judge_variant : Progress → Judged (Option Bytes × Bytes) → Judged Progress
unfolding is_name_in
judge_variant p (bad f) = bad f
judge_variant p (good (enum, name)) =
    if is_name_in p.seen name
    then bad (saying (duplicate_arm enum name))
    else good (record p { seen = add_seen name p.seen })

-- The progress behind the pattern of an arm.
unfoldable pub judge_pattern : Ty → Subject → Progress → Bytes → Judged Progress
unfolding variant_of judge_variant
judge_pattern t s p pattern =
    if beq pattern wildcard_pattern
    then if p.wildcard then bad (saying duplicate_wildcard) else good (record p { wildcard = true })
    else judge_variant p (variant_of t s pattern)

-- The types of an arm's bindings, as many as there are bindings if there are any.
unfoldable pub judge_bindings : Context → Ty → Subject → MatchArm → Judged (List Ty)
unfolding get_match_binding_types
judge_bindings e t s a =
    let count = length a.bindings in
    if beq a.pattern wildcard_pattern
    then if count == 0 then good [] else bad (saying wildcard_bindings)
    else case_option (get_match_binding_types e t s a.pattern)
        (bad (saying (invalid_match_pattern a.pattern)))
        λ types.
          if count == 0 || length types == count
          then good types
          else bad (saying (arm_bindings a.pattern (length types) count))

-- The scope of an arm; the types are as many as the names, or there are no names.
unfoldable pub bind_arm : List Bytes → List Ty → Scope → Judged Scope
unfolding scope_define
bind_arm (name ∷ names) (t ∷ ts) scope =
    case_option (scope_define scope name (some t) false)
      (bad (saying (duplicate_match_binding name))) λ scope'. bind_arm names ts scope'
bind_arm _ _ scope = good scope

unfoldable pub unless_bad {ℓ} : {A : Type ℓ} → Node → Judged A → (A → Check Ty) → Check Ty
unless_bad n (good a) k = k a
unless_bad n (bad quiet) k = answer error_type
unless_bad n (bad (saying m)) k = refuse_type n m

-- The type of the arms so far with that of another; `none` if neither is assignable to the other.
abbrev pub joined : Option Ty → Ty → Option Ty
joined none t = some t
joined (some r) t =
    if is_assignable (some r) (some t) || is_assignable (some t) (some r) then some r else none

-- The variants that a match without a wildcard must name, and their owner in the report.
abbrev pub required : Ty → Subject → Bytes × List Bytes
required t of_option = (codes "Option", map codes ("Some" ∷ "None" ∷ []))
required t of_result = (codes "Result", map codes ("Ok" ∷ "Err" ∷ []))
required t (of_enum d) = (subject_name t, enum_variants d)

unfoldable pub first_missing : List Bytes → List Bytes → Option Bytes
unfolding is_name_in
first_missing seen [] = none
first_missing seen (v ∷ vs) = if is_name_in seen v then first_missing seen vs else some v

unfoldable pub finish_match : Node → Ty → Subject → Progress → Check Ty
unfolding first_missing
finish_match n t s p =
    let (owner, names) = required t s in
    let done = case_option p.result (answer error_type) answer in
    if p.wildcard
    then done
    else case_option (first_missing p.seen names) done λ v. refuse_type n (missing_arm owner v)

unfoldable pub match_arms : Context → Node → Ty → Subject → Progress → List MatchArm → Check Ty
unfolding judge_pattern judge_bindings bind_arm finish_match shown joined unless_bad
match_arms e n t s p [] = finish_match n t s p
match_arms e n t s p (a ∷ arms) = unless_bad n (judge_pattern t s p a.pattern) λ q.
    unless_bad n (judge_bindings e t s a) λ types.
      unless_bad n (bind_arm a.bindings types []) λ scope. do
        found ← a.value scope
        let r = q.result
        case_option (joined r found)
            (refuse_type a.node (arm_mismatch (case_option r [] shown) (shown found)))
            (λ r'. match_arms e n t s (record q { result = some r' }) arms)

abbrev pub no_progress : Progress
no_progress = record { wildcard = false; seen = []; result = none }

unfoldable pub check_match_expr : Context → Node → Check Ty → List MatchArm → Check Ty
unfolding subject_of match_arms shown
check_match_expr e n m arms = do
  t ← m
  case_option (subject_of e t) (refuse_type n (match_subject (shown t)))
      (λ s. match_arms e n t s no_progress arms)
