-- ===== src/Typeck/Exprs/Matches/Covering.antt =====
-- An accepted match is exhaustive: compiler/src/typeck/typeck.c, lines 1041-1260.
use apex_forge_night_script.Base.{
  ◌≡◌, refl, ◌≢◌, sym, ap, subst, ◌⊎◌, inl, inr, true, Option, none, some, List, [], ◌∷◌, ◌++◌,
  Bytes, beq, beq→eq, ltb, length, Bool-cases, arith,
}
use apex_forge_night_script.Ast.{Node}
use apex_forge_night_script.Sema.Analyzer.{is_name_in}
use apex_forge_night_script.Typeck.Types.{Ty}
use apex_forge_night_script.Typeck.Check.{
  TypeError, CheckMessage, CheckRun, ran, Check, refuse_type, refuse_with, error_type, ◌>>◌,
  duplicate_arm,
}
use apex_forge_night_script.Typeck.Check.Answers.{bind-ran, answer-ran}
use apex_forge_night_script.Typeck.Exprs.Matches.{
  MatchArm, Subject, Progress, Judged, good, bad, quiet, saying, variant_of, wildcard_pattern,
  judge_variant, judge_pattern, unless_bad, add_seen, first_missing,
}

-- The pattern of an arm names the variant.
pub data NamedBy (t : Ty) (s : Subject) (v : Bytes) : List MatchArm → Type 0 where
  here :
      {a : MatchArm} {arms : List MatchArm} (enum : Option Bytes)
      → variant_of t s a.pattern ≡ good (enum, v)
      → NamedBy t s v (a ∷ arms)
  there : {a : MatchArm} {arms : List MatchArm} → NamedBy t s v arms → NamedBy t s v (a ∷ arms)

pub data HasWildcard : List MatchArm → Type 0 where
  here :
      {a : MatchArm} {arms : List MatchArm} → a.pattern ≡ wildcard_pattern → HasWildcard (a ∷ arms)
  there : {a : MatchArm} {arms : List MatchArm} → HasWildcard arms → HasWildcard (a ∷ arms)

pub refuse_type-error :
    (n : Node) (m : CheckMessage) (es : List TypeError) {fs : List TypeError} {r : Ty}
    → refuse_type n m es ≡ ran r fs
    → r ≡ error_type
unfolding refuse_with ◌>>◌
refuse_type-error n m es h = let s = bind-ran _ _ h in sym (answer-ran s.second).0

-- An answer that is no error goes on behind the judgement.
pub record Passed {ℓ} {A : Type ℓ} (j : Judged A) (k : A → Check Ty) (es : List TypeError)
    (s : CheckRun Ty) : Type ℓ where
  pub value : A
  pub judged : j ≡ good value
  pub after : k value es ≡ s

module _ {ℓ} {A : Type ℓ} where
  pub unless_bad-ran :
      (n : Node) (j : Judged A) (k : A → Check Ty) {es fs : List TypeError} {r : Ty}
      → unless_bad n j k es ≡ ran r fs
      → r ≢ error_type
      → Passed j k es (ran r fs)
  unfolding unless_bad
  unless_bad-ran n (good a) k h ok = record { value = a; judged = refl; after = h }
  unless_bad-ran n (bad quiet) k h ok = absurd (ok (sym (answer-ran h).0))
  unless_bad-ran n (bad (saying m)) k h ok = absurd (ok (refuse_type-error n m _ h))

-- What a judged pattern adds to the progress.
pub data Advances (t : Ty) (s : Subject) (p : Progress) (pattern : Bytes) (q : Progress)
    : Type 0 where
  by_wildcard : pattern ≡ wildcard_pattern → Advances t s p pattern q
  by_variant :
      (enum : Option Bytes) (v : Bytes)
      → variant_of t s pattern ≡ good (enum, v)
      → q.wildcard ≡ p.wildcard
      → q.seen ≡ add_seen v p.seen
      → Advances t s p pattern q

good-injective {ℓ} : {A : Type ℓ} {a b : A} → good a ≡ good b → a ≡ b
good-injective h = cc

judge_variant-Advances :
    (t : Ty) (s : Subject) (p : Progress) (pattern : Bytes) (q : Progress)
    (j : Judged (Option Bytes × Bytes))
    → variant_of t s pattern ≡ j
    → judge_variant p j ≡ good q
    → Advances t s p pattern q
unfolding judge_variant
judge_variant-Advances t s p pattern q (bad f) e h = cc
judge_variant-Advances t s p pattern q (good (enum, name)) e h =
    elim (Bool-cases (is_name_in p.seen name)) [
      | inl i ↦ let wrong : bad (saying (duplicate_arm enum name)) ≡ good q = rw i at h in cc
      | inr i ↦
          let added : good (record p { seen = add_seen name p.seen }) ≡ good q = rw i at h in
          let same = good-injective added in
          by_variant enum name e (ap (λ x. x.wildcard) (sym same)) (ap (λ x. x.seen) (sym same))
    ]

pub judge_pattern-Advances :
    (t : Ty) (s : Subject) (p : Progress) (pattern : Bytes) (q : Progress)
    → judge_pattern t s p pattern ≡ good q
    → Advances t s p pattern q
unfolding judge_pattern
judge_pattern-Advances t s p pattern q h = elim (Bool-cases (beq pattern wildcard_pattern)) [
  | inl e ↦ by_wildcard (beq→eq _ _ e)
  | inr e ↦
      let other : judge_variant p (variant_of t s pattern) ≡ good q = rw e at h in
      judge_variant-Advances t s p pattern q _ refl other
]

is_name_in-append :
    (seen : List Bytes) (name v : Bytes)
    → is_name_in (seen ++ name ∷ []) v ≡ true
    → (is_name_in seen v ≡ true) ⊎ (name ≡ v)
unfolding is_name_in
is_name_in-append [] name v h = inr (beq→eq name v (ground arith))
is_name_in-append (x ∷ seen) name v h = elim (Bool-cases (beq x v)) [
  | inl e ↦ inl (rw e refl)
  | inr e ↦
      let more : is_name_in (seen ++ name ∷ []) v ≡ true = rw e at h in
      elim (is_name_in-append seen name v more) [ inl i ↦ inl (rw (e, i) refl) | inr i ↦ inr i ]
]

pub add_seen-in :
    (seen : List Bytes) (name v : Bytes)
    → is_name_in (add_seen name seen) v ≡ true
    → (is_name_in seen v ≡ true) ⊎ (name ≡ v)
add_seen-in seen name v h = elim (Bool-cases (ltb (length seen) 256)) [
  | inl e ↦
      let more : is_name_in (seen ++ name ∷ []) v ≡ true = rw e at h in
      is_name_in-append seen name v more
  | inr e ↦ let same : is_name_in seen v ≡ true = rw e at h in inl same
]

pub first_missing-in :
    (seen names : List Bytes)
    → first_missing seen names ≡ none
    → (v : Bytes) → is_name_in names v ≡ true
    → is_name_in seen v ≡ true
unfolding is_name_in first_missing
first_missing-in seen [] h v i = cc
first_missing-in seen (x ∷ names) h v i = elim (Bool-cases (is_name_in seen x)) [
  | inl e ↦
      let rest : first_missing seen names ≡ none = rw e at h in
      elim (Bool-cases (beq x v)) [
        | inl same ↦ subst (λ y. is_name_in seen y ≡ true) (beq→eq x v same) e
        | inr other ↦
            let more : is_name_in names v ≡ true = rw other at i in
            first_missing-in seen names rest v more
      ]
  | inr e ↦ let wrong : some x ≡ none = rw e at h in cc
]
