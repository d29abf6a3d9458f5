-- ===== src/Typeck/Bodies/Functions/Constants.antt =====
-- Constants without a type: compiler/src/typeck/typeck.c, lines 1314-1326. Their values are checked where
-- their names are looked up, one inside the other.
use apex_forge_night_script.Base.{
  ℕ, zero, suc, ◌<◌, List, [], ◌∷◌, Bytes, All, beq, arith, ◌≡◌, ap, Bool-cases, beq→eq, inl, inr,
}
use apex_forge_night_script.Ast.{Node, node, null, at, const_stmt, ident}
use apex_forge_night_script.Typeck.Check.Context.{Context, const_type}
use apex_forge_night_script.Typeck.Check.Runs.{Completes, Completes-answer, Completes-if}
use apex_forge_night_script.Typeck.Exprs.Walk.Named.{Names, Names-map}
use apex_forge_night_script.Typeck.Exprs.Walk.NameParts.{ConstSettled}
use apex_forge_night_script.Typeck.Exprs.Walk.Total.{check_expr-Completes}
use apex_forge_night_script.Typeck.Bodies.Functions.{check_const_within, within}

-- The names in the value of an untyped constant rank below it.
unfoldable pub FallingDecl : (Bytes → ℕ) → Node → Type 0
unfolding Names
FallingDecl rank (node l c (const_stmt s null value)) = Names (λ x. rank x < rank s) value
FallingDecl rank _ = Unit

unfoldable pub Falling : (Bytes → ℕ) → List Node → Type 0
unfolding FallingDecl
Falling rank decls = All (FallingDecl rank) decls

module _ (rank : Bytes → ℕ) (e : Context) where
  -- The constants of rank below `fuel` come to an end.
  unfoldable pub Below : ℕ → Type 0
  Below fuel = (u : ℕ) (name : Bytes) → rank name < fuel → ConstSettled (within fuel e) u name

  const_type-Completes :
      (fuel : ℕ) (u : ℕ) (ds : List Node) (name : Bytes)
      → Below fuel
      → All (FallingDecl rank) ds
      → rank name < suc fuel
      → Completes (const_type (within (suc fuel) e) u ds name)
  unfolding const_type check_const_within within Below Names FallingDecl
  const_type-Completes fuel u [] name below h g = Completes-answer _
  const_type-Completes fuel u (node l c (const_stmt s null value) ∷ ds) name below (h, hs) g =
      let rest = const_type-Completes fuel u ds name below hs g in
      elim (Bool-cases (beq s name)) [
        | inl t ↦
            let same : rank s ≡ rank name = ap rank (beq→eq s name t) in
            let settled : Names (ConstSettled (within fuel e) u) value =
              Names-map (λ x lower. below u x (omega arith)) value h in
            rw t (check_expr-Completes (within fuel e) u [] value settled)
        | inr f ↦ rw f rest
      ]
  const_type-Completes fuel u (node l c (const_stmt s (at t) value) ∷ ds) name below (h, hs) g =
      Completes-if (beq s name) (Completes-answer _)
        (const_type-Completes fuel u ds name below hs g)
  const_type-Completes fuel u (_ ∷ ds) name below (h, hs) g =
      const_type-Completes fuel u ds name below hs g

  -- With more fuel than the rank of a name, its type is found.
  pub within-Settled : Falling rank e.decls → (fuel : ℕ) → Below fuel
  unfolding Below Falling within
  within-Settled h zero u name g = absurd (omega arith)
  within-Settled h (suc fuel) u name g =
      const_type-Completes fuel u e.decls name (within-Settled h fuel) h g

-- The value of the constant is the constant's own name.
abbrev pub self_const : Bytes → Node
self_const name = node 1 1 (const_stmt name null (node 1 1 (ident name)))
