-- ===== src/Sema/Register/Members.antt =====
-- When the members of a declaration are accepted: `validate_fields` and `validate_enum_variants` of
-- compiler/src/sema/sema.c.
use apex_forge_night_script.Base.{
  ℕ, ◌≡◌, refl, ◌↔◌, Bool, true, false, Option, none, some, List, [], ◌∷◌, ◌++◌, Bytes,
  if◌then◌else◌, arith, All, map,
}
use apex_forge_night_script.Ast.{Node, Variants, node, enum_decl}
use apex_forge_night_script.Sema.Analyzer.{
  SemaError, SemaMessage, Analyzer, is_name_in, duplicate_field, duplicate_variant, error_at,
}
use apex_forge_night_script.Sema.TypeNames.{validate_type}
use apex_forge_night_script.Sema.Register.{
  let_name, let_type, then_check, check_members, validate_fields, variant_names, check_variants,
  validate_enum_variants,
}
use apex_forge_night_script.Sema.Register.Tables.{
  Distinct, empty, fresh, is_name_in-append, beq_comm,
}

-- Names that are not among those before.
abbrev NewTo : List Bytes → List Bytes → Type 0
unfolding is_name_in
NewTo seen ns = All (λ n. is_name_in seen n ≡ false) ns

NewTo-nothing : (ns : List Bytes) → NewTo [] ns
unfolding NewTo is_name_in
NewTo-nothing [] = tt
NewTo-nothing (n ∷ ns) = (refl, NewTo-nothing ns)

absent→NewTo :
    (seen : List Bytes) (n : Bytes) (ns : List Bytes)
    → is_name_in ns n ≡ false
    → NewTo seen ns
    → NewTo (seen ++ n ∷ []) ns
unfolding NewTo is_name_in
absent→NewTo seen n [] h a = tt
absent→NewTo seen n (m ∷ ns) h (a, b) =
    let e = is_name_in-append seen n m in
    let f = beq_comm m n (ground (arith, h)) in
    (ground (arith, e, f, a), absent→NewTo seen n ns (ground (arith, h)) b)

NewTo→absent :
    (seen : List Bytes) (n : Bytes) (ns : List Bytes)
    → NewTo (seen ++ n ∷ []) ns
    → is_name_in ns n ≡ false
unfolding NewTo is_name_in
NewTo→absent seen n [] a = refl
NewTo→absent seen n (m ∷ ns) (a, b) =
    let e = is_name_in-append seen n m in
    let f = beq_comm n m (ground (arith, e, a)) in
    let g = NewTo→absent seen n ns b in ground (arith, f, g)

NewTo→NewTo :
    (seen : List Bytes) (n : Bytes) (ns : List Bytes) → NewTo (seen ++ n ∷ []) ns → NewTo seen ns
unfolding NewTo
NewTo→NewTo seen n [] a = tt
NewTo→NewTo seen n (m ∷ ns) (a, b) =
    let e = is_name_in-append seen n m in (ground (arith, e, a), NewTo→NewTo seen n ns b)

-- What the loops over names accept, as they add the names to those they have seen.
step_iff :
    (seen : List Bytes) (n : Bytes) (ns : List Bytes)
    → ((is_name_in seen n ≡ false) × Distinct ns × NewTo (seen ++ n ∷ []) ns)
      ↔ (Distinct (n ∷ ns) × NewTo seen (n ∷ ns))
unfolding NewTo
step_iff seen n ns = (
  λ (h, d, a). (fresh (NewTo→absent seen n ns a) d, (h, NewTo→NewTo seen n ns a)),
  λ (d, a). elim d [ fresh h e ↦ (a.0, e, absent→NewTo seen n ns h a.1) ],
)

test_iff :
    (b : Bool) (e : SemaError) (o : Option SemaError)
    → ((if b then some e else o) ≡ none) ↔ ((b ≡ false) × (o ≡ none))
test_iff true e o = (λ h. cc, λ h. let k = h.0 in cc)
test_iff false e o = (λ h. (refl, h), λ h. h.1)

then_check_iff : (p q : Option SemaError) → (then_check p q ≡ none) ↔ ((p ≡ none) × (q ≡ none))
then_check_iff none q = (λ h. (refl, h), λ h. h.1)
then_check_iff (some e) q = (λ h. cc, λ h. let k = h.0 in cc)

check_variants_iff :
    (n : Node) (owner : Bytes) (seen vs : List Bytes)
    → (check_variants n owner seen vs ≡ none) ↔ (Distinct vs × NewTo seen vs)
unfolding check_variants NewTo
check_variants_iff n owner seen [] = (λ h. (empty, tt), λ h. refl)
check_variants_iff n owner seen (v ∷ vs) =
    let rest = check_variants_iff n owner (seen ++ v ∷ []) vs in
    let step = step_iff seen v vs in
    let test =
      test_iff (is_name_in seen v) (error_at n (duplicate_variant owner v))
        (check_variants n owner (seen ++ v ∷ []) vs) in
    (
      λ h. let (p, q) = test.0 h in let (d, a) = rest.0 q in step.0 (p, d, a),
      λ h. let (p, d, a) = step.1 h in test.1 (p, rest.1 (d, a)),
    )

-- An enum is accepted exactly when the names of its variants are distinct.
pub validate_enum_variants_iff :
    (line col : ℕ) (name : Bytes) (package' : Option Bytes) (vs : Variants) (is_public : Bool)
    → (validate_enum_variants (node line col (enum_decl name package' vs is_public)) ≡ none)
      ↔ Distinct (variant_names vs)
unfolding validate_enum_variants
validate_enum_variants_iff line col name p vs pub' =
    let iff =
      check_variants_iff (node line col (enum_decl name p vs pub')) name [] (variant_names vs) in
    (λ h. (iff.0 h).0, λ d. iff.1 (d, NewTo-nothing (variant_names vs)))

abbrev pub AllValid : Analyzer → List Node → Type 0
AllValid a ms = All (λ m. validate_type a (let_type m) ≡ none) ms

check_members_iff :
    (f : Bytes → SemaMessage) (a : Analyzer) (seen : List Bytes) (ms : List Node)
    → (check_members f a seen ms ≡ none)
      ↔ (Distinct (map let_name ms) × NewTo seen (map let_name ms) × AllValid a ms)
unfolding check_members NewTo
check_members_iff f a seen [] = (λ h. (empty, tt, tt), λ h. refl)
check_members_iff f a seen (m ∷ ms) =
    let rest = check_members_iff f a (seen ++ let_name m ∷ []) ms in
    let step = step_iff seen (let_name m) (map let_name ms) in
    let later = check_members f a (seen ++ let_name m ∷ []) ms in
    let valid = then_check_iff (validate_type a (let_type m)) later in
    let test =
      test_iff (is_name_in seen (let_name m)) (error_at m (f (let_name m)))
        (then_check (validate_type a (let_type m)) later) in
    (
      λ h.
          let (p, q) = test.0 h in
          let (t, r) = valid.0 q in
          let (d, b, v) = rest.0 r in let (e, c) = step.0 (p, d, b) in (e, c, (t, v)),
      λ (e, c, (t, v)). let (p, d, b) = step.1 (e, c) in test.1 (p, valid.1 (t, rest.1 (d, b, v))),
    )

-- The fields of a struct or union are accepted exactly when their names are distinct and the type of
-- each is valid.
pub validate_fields_iff :
    (a : Analyzer) (fields : List Node) (kind_name : Bytes)
    → (validate_fields a fields kind_name ≡ none)
      ↔ (Distinct (map let_name fields) × AllValid a fields)
unfolding validate_fields
validate_fields_iff a fields kind_name =
    let iff = check_members_iff (duplicate_field kind_name) a [] fields in
    (
      λ h. let (d, n, v) = iff.0 h in (d, v),
      λ (d, v). iff.1 (d, NewTo-nothing (map let_name fields), v),
    )
