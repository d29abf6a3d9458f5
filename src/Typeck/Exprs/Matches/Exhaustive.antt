-- ===== src/Typeck/Exprs/Matches/Exhaustive.antt =====
-- An accepted match is exhaustive: compiler/src/typeck/typeck.c, lines 1041-1260.
use apex_forge_night_script.Base.{
  ◌≡◌, refl, ◌≢◌, sym, ◌∙◌, subst, ◌⊎◌, inl, inr, true, some, List, [], ◌∷◌, Bytes, Bool-cases,
  Option-cases, case_option,
}
use apex_forge_night_script.Ast.{Node}
use apex_forge_night_script.Sema.Analyzer.{is_name_in}
use apex_forge_night_script.Typeck.Types.{Ty}
use apex_forge_night_script.Typeck.Check.{
  TypeError, ran, Check, refuse_type, error_type, arm_mismatch, missing_arm, match_subject, shown,
}
use apex_forge_night_script.Typeck.Check.Context.{Context}
use apex_forge_night_script.Typeck.Check.Answers.{bind-ran}
use apex_forge_night_script.Typeck.Exprs.Matches.{
  MatchArm, Subject, Progress, subject_of, judge_pattern, judge_bindings, bind_arm, joined,
  required, add_seen, finish_match, match_arms, no_progress, check_match_expr, first_missing,
}
use apex_forge_night_script.Typeck.Exprs.Matches.Covering.{
  NamedBy, HasWildcard, Advances, by_wildcard, by_variant, refuse_type-error, unless_bad-ran,
  judge_pattern-Advances, add_seen-in, first_missing-in,
}

-- A variant that was seen before the arms, or that one of them names.
abbrev NamedOrSeen : Ty → Subject → Progress → List MatchArm → Bytes → Type 0
NamedOrSeen t s p arms v = (is_name_in p.seen v ≡ true) ⊎ NamedBy t s v arms

-- A wildcard before or in the arms, or every variant that is required.
data Covering (t : Ty) (s : Subject) (p : Progress) (arms : List MatchArm) : Type 0 where
  wildcard_before : p.wildcard ≡ true → Covering t s p arms
  wildcard_arm : HasWildcard arms → Covering t s p arms
  all_named :
      ((v : Bytes) → is_name_in (required t s).1 v ≡ true → NamedOrSeen t s p arms v)
      → Covering t s p arms

finish_match-Covering :
    (n : Node) (t : Ty) (s : Subject) (p : Progress) (es : List TypeError) {fs : List TypeError}
    {r : Ty}
    → finish_match n t s p es ≡ ran r fs
    → r ≢ error_type
    → Covering t s p []
unfolding finish_match
finish_match-Covering n t s p es {fs} {r} h ok = elim (Bool-cases p.wildcard) [
  | inl e ↦ wildcard_before e
  | inr e ↦ elim (Option-cases (first_missing p.seen (required t s).1)) [
    | inl f ↦ all_named λ v i. inl (first_missing-in p.seen _ f v i)
    | inr (v, f) ↦
        let refused : refuse_type n (missing_arm (required t s).0 v) es ≡ ran r fs =
          rw (e, f) at h in
        absurd (ok (refuse_type-error n _ es refused))
  ]
]

module _ (t : Ty) (s : Subject) where
  -- What holds behind an arm holds before it.
  Covering-before :
      (p q r : Progress) (a : MatchArm) (arms : List MatchArm)
      → Advances t s p a.pattern q
      → r.wildcard ≡ q.wildcard
      → r.seen ≡ q.seen
      → Covering t s r arms
      → Covering t s p (a ∷ arms)
  Covering-before p q r a arms (by_wildcard e) w k c = wildcard_arm (HasWildcard.here e)
  Covering-before p q r a arms (by_variant enum v e pw ps) w k (wildcard_before x) =
      wildcard_before (sym pw ∙ sym w ∙ x)
  Covering-before p q r a arms (by_variant enum v e pw ps) w k (wildcard_arm x) =
      wildcard_arm (HasWildcard.there x)
  Covering-before p q r a arms (by_variant enum v e pw ps) w k (all_named f) = all_named λ x i.
      elim (f x i) [
        | inl seen ↦
            let added : is_name_in (add_seen v p.seen) x ≡ true =
              subst (λ l. is_name_in l x ≡ true) (k ∙ ps) seen in
            elim (add_seen-in p.seen v x added) [
              | inl before ↦ inl before
              | inr same ↦ inr (subst (λ y. NamedBy t s y (a ∷ arms)) same (NamedBy.here enum e))
            ]
        | inr named ↦ inr (NamedBy.there named)
      ]

  match_arms-Covering :
      (e : Context) (n : Node) (p : Progress) (arms : List MatchArm) (es : List TypeError)
      {fs : List TypeError} {r : Ty}
      → match_arms e n t s p arms es ≡ ran r fs
      → r ≢ error_type
      → Covering t s p arms
  unfolding match_arms
  match_arms-Covering e n p [] es h ok = finish_match-Covering n t s p es h ok
  match_arms-Covering e n p (a ∷ arms) es {fs} {r} h ok =
      let first = unless_bad-ran n (judge_pattern t s p a.pattern) _ h ok in
      let second = unless_bad-ran n (judge_bindings e t s a) _ first.after ok in
      let third = unless_bad-ran n (bind_arm a.bindings second.value []) _ second.after ok in
      let found = bind-ran (a.value third.value) _ third.after in
      let q = first.value in
      let advances = judge_pattern-Advances t s p a.pattern q first.judged in
      elim (Option-cases (joined q.result found.value)) [
        | inl f ↦
            let refused : refuse_type a.node
                  (arm_mismatch (case_option q.result [] shown) (shown found.value)) found.errors
                ≡ ran r fs =
              rw f at found.second in
            absurd (ok (refuse_type-error a.node _ found.errors refused))
        | inr (t', f) ↦
            let more : match_arms e n t s (record q { result = some t' }) arms found.errors
                ≡ ran r fs =
              rw f at found.second in
            let rest =
              match_arms-Covering e n (record q { result = some t' }) arms found.errors more ok in
            Covering-before p q (record q { result = some t' }) a arms advances refl refl rest
      ]

-- A match whose subject is of type `type` and whose arms name every variant that the type requires.
pub record Exhaustive (e : Context) (m : Check Ty) (arms : List MatchArm) (es : List TypeError)
    : Type 0 where
  pub type : Ty
  pub errors : List TypeError
  pub checked : m es ≡ ran type errors
  pub subject : Subject
  pub is_subject : subject_of e type ≡ some subject
  pub covers :
      HasWildcard arms
      ⊎ ((v : Bytes) → is_name_in (required type subject).1 v ≡ true → NamedBy type subject v arms)

covered :
    {t : Ty} {s : Subject} (arms : List MatchArm)
    → Covering t s no_progress arms
    → HasWildcard arms ⊎ ((v : Bytes) → is_name_in (required t s).1 v ≡ true → NamedBy t s v arms)
unfolding is_name_in
covered arms (wildcard_before h) = cc
covered arms (wildcard_arm h) = inl h
covered arms (all_named f) = inr λ v i. elim (f v i) [ inl h ↦ cc | inr h ↦ h ]

-- A match whose type is not the error type is exhaustive: its subject is an enum, an Option or a Result,
-- and its arms have a wildcard or name every variant, however many arms there are.
pub check_match_expr-Exhaustive :
    (e : Context) (n : Node) (m : Check Ty) (arms : List MatchArm) (es fs : List TypeError) (r : Ty)
    → check_match_expr e n m arms es ≡ ran r fs
    → r ≢ error_type
    → Exhaustive e m arms es
unfolding check_match_expr
check_match_expr-Exhaustive e n m arms es fs r h ok =
    let subject = bind-ran m _ h in
    let t = subject.value in
    elim (Option-cases (subject_of e t)) [
      | inl f ↦
          let refused : refuse_type n (match_subject (shown t)) subject.errors ≡ ran r fs =
            rw f at subject.second in
          absurd (ok (refuse_type-error n _ subject.errors refused))
      | inr (s, f) ↦
          let rest : match_arms e n t s no_progress arms subject.errors ≡ ran r fs =
            rw f at subject.second in
          record {
            type = t;
            errors = subject.errors;
            checked = subject.first;
            subject = s;
            is_subject = f;
            covers =
                covered arms (match_arms-Covering t s e n no_progress arms subject.errors rest ok);
          }
    ]
