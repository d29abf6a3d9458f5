-- ===== src/Sema/TypeNames/Splits.antt =====
-- The parts of a type name: `split_top_level_comma` and `validate_type_name` of
-- compiler/src/sema/sema.c.
use apex_forge_night_script.Base.{
  ℕ, zero, suc, ◌+◌, ◌-◌, ◌<◌, ◌≡◌, ◌≢◌, refl, sym, ◌∙◌, ap, inl, inr, Bool, true, false, ◌&&◌,
  Option, none, some, [], ◌∷◌, ◌++◌, Bytes, codes, ◌==◌, ==_iff, arith, length, length-append,
  length-take, drop, append_assoc, Bool-cases, Option-cases, some-injective, &&-eq-true,
}
use apex_forge_night_script.Base.Int.{ℤ, pos, int_eq, int_suc, int_pred}
use apex_forge_night_script.Sema.Analyzer.{Analyzer}
use apex_forge_night_script.Sema.TypeNames.{
  Split, split_loop, split_top_level_comma, type_name_has_form, inner_name, validate_name_within,
  validate_type_name, both_valid,
}

split_loop-append :
    (d : ℤ) (seen cs : Bytes) {s : Split}
    → split_loop d seen cs ≡ some s
    → seen ++ cs ≡ s.left ++ b',' ∷ s.right
unfolding split_loop
split_loop-append d seen [] h = cc
split_loop-append d seen (c ∷ cs) {s} h =
    let again = sym (append_assoc seen (c ∷ []) cs) in
    elim (Bool-cases (c == b'[')) [
      | inl e ↦ again ∙ split_loop-append (int_suc d) (seen ++ c ∷ []) cs (rw e at h)
      | inr e ↦ elim (Bool-cases (c == b']')) [
        | inl f ↦ again ∙ split_loop-append (int_pred d) (seen ++ c ∷ []) cs (rw (e, f) at h)
        | inr f ↦ elim (Bool-cases (c == b',' && int_eq d (pos 0))) [
          | inl g ↦
              let (is_comma, top) = &&-eq-true (c == b',') _ g in
              let k = some-injective (rw (e, f, is_comma, top) at h) in
              let m = (==_iff c b',').0 is_comma in rw (← k, m) refl
          | inr g ↦ again ∙ split_loop-append d (seen ++ c ∷ []) cs (rw (e, f, g) at h)
        ]
      ]
    ]

has_form-length :
    (name form : Bytes) → type_name_has_form name form ≡ true → length form + 1 < length name
unfolding type_name_has_form
has_form-length name form h = ground (arith, h)

inner_name-length : (name : Bytes) → 7 < length name → length (inner_name name) < length name
inner_name-length name h =
    let e = length-take (length name - 1 - 7) (drop 7 name) in omega (arith, e, h)

-- A text is split at one of its commas: the parts and the comma make up the text.
pub split_top_level_comma-append :
    (text : Bytes) {s : Split}
    → split_top_level_comma text ≡ some s
    → text ≡ s.left ++ b',' ∷ s.right
unfolding split_top_level_comma
split_top_level_comma-append text h = split_loop-append (pos 0) [] text h

split-lengths :
    (text : Bytes) (s : Split)
    → split_top_level_comma text ≡ some s
    → (length s.left < length text) × (length s.right < length text)
split-lengths text s h =
    let e = ap length (split_top_level_comma-append text h) in
    let f = length-append s.left (b',' ∷ s.right) in (omega (arith, e, f), omega (arith, e, f))

both_valid-total : (p q : Option Bool) → p ≢ none → q ≢ none → both_valid p q ≢ none
both_valid-total none q h k = h
both_valid-total (some true) q h k = k
both_valid-total (some false) q h k = λ e. cc

validate_name_within-total :
    (fuel : ℕ) (a : Analyzer) (name : Bytes)
    → length name < fuel
    → validate_name_within fuel a name ≢ none
unfolding validate_name_within
validate_name_within-total zero a name h = omega (arith, h)
validate_name_within-total (suc fuel) a name h =
    elim (Bool-cases (type_name_has_form name (codes "Option"))) [
      | inl e ↦
          let k = inner_name-length name (has_form-length name (codes "Option") e) in
          rw e (validate_name_within-total fuel a (inner_name name) (omega (arith, h, k)))
      | inr e ↦ elim (Bool-cases (type_name_has_form name (codes "Result"))) [
        | inl f ↦
            let k = inner_name-length name (has_form-length name (codes "Result") f) in
            elim (Option-cases (split_top_level_comma (inner_name name))) [
              | inl g ↦ rw (e, f, g) (λ i. cc)
              | inr (s, g) ↦
                  let (l, r) = split-lengths (inner_name name) s g in
                  rw (e, f, g)
                    (both_valid-total _ _
                      (validate_name_within-total fuel a s.left (omega (arith, h, k, l)))
                      (validate_name_within-total fuel a s.right (omega (arith, h, k, r))))
            ]
        | inr f ↦ rw (e, f) (λ i. cc)
      ]
    ]

-- The check of a type name comes to an answer: the nesting of a name is less than its length.
pub validate_type_name-total :
    (a : Analyzer) (name : Bytes)
    → validate_name_within (length name + 1) a name ≡ some (validate_type_name a name)
unfolding validate_type_name
validate_type_name-total a name =
    elim (Option-cases (validate_name_within (length name + 1) a name)) [
      | inl e ↦ absurd (validate_name_within-total (length name + 1) a name (omega arith) e)
      | inr (b, e) ↦ rw e refl
    ]
