-- ===== src/Typeck/Exprs/Walk/MatchParts.antt =====
-- A match comes to an end when its subject and the values of its arms do:
-- compiler/src/typeck/typeck.c, lines 1041-1260.
use apex_forge_night_script.Base.{List, [], ◌∷◌, All}
use apex_forge_night_script.Ast.{Node}
use apex_forge_night_script.Typeck.Types.{Ty}
use apex_forge_night_script.Typeck.Scope.{Scope}
use apex_forge_night_script.Typeck.Check.{Check}
use apex_forge_night_script.Typeck.Check.Context.{Context}
use apex_forge_night_script.Typeck.Check.Runs.{
  Completes, Completes-answer, Completes-refuse_with, completes_rules,
}
use apex_forge_night_script.Typeck.Exprs.Matches.{
  MatchArm, Subject, Progress, Judged, good, bad, quiet, saying, unless_bad, finish_match,
  match_arms, check_match_expr,
}

abbrev pub ArmsSettled : List MatchArm → Type 0
ArmsSettled arms = All (λ a. (scope : Scope) → Completes (a.value scope)) arms

unless_bad-Completes {ℓ} :
    {A : Type ℓ} (n : Node) (j : Judged A) {k : A → Check Ty}
    → ((a : A) → Completes (k a))
    → Completes (unless_bad n j k)
unfolding unless_bad
unless_bad-Completes n (good a) h = h a
unless_bad-Completes n (bad quiet) h = Completes-answer _
unless_bad-Completes n (bad (saying m)) h = Completes-refuse_with _ _ _

finish_match-Completes :
    (n : Node) (t : Ty) (s : Subject) (p : Progress) → Completes (finish_match n t s p)
unfolding finish_match
finish_match-Completes n t s p = search completes_rules depth 20

match_arms-Completes :
    (e : Context) (n : Node) (t : Ty) (s : Subject) (p : Progress) (arms : List MatchArm)
    → ArmsSettled arms
    → Completes (match_arms e n t s p arms)
unfolding match_arms
match_arms-Completes e n t s p [] h = finish_match-Completes n t s p
match_arms-Completes e n t s p (a ∷ arms) (h, hs) =
    let rest : (q : Progress) → Completes (match_arms e n t s q arms) =
      λ q. match_arms-Completes e n t s q arms hs in
    search (unless_bad-Completes, h, rest, completes_rules) depth 30

pub check_match-Completes :
    (e : Context) (n : Node) {m : Check Ty} (arms : List MatchArm)
    → Completes m
    → ArmsSettled arms
    → Completes (check_match_expr e n m arms)
unfolding check_match_expr
check_match-Completes e n arms g h = search (match_arms-Completes, completes_rules) depth 20
