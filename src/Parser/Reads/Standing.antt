-- ===== src/Parser/Reads/Standing.antt =====
-- Parses that leave the state as it is, and an optional token: compiler/src/parser/parser.c, lines 34-52.
use apex_forge_night_script.Base.{
  ℕ, ◌+◌, ◌≤◌, ◌≡◌, refl, sym, subst, Bool, true, false, Option, none, some, List, [], ◌∷◌,
  if◌then◌else◌, arith, case_list, case_option,
}
use apex_forge_night_script.Token.{TokenKind, Token, kind_eq}
use apex_forge_night_script.Parser.State.{
  Parser, Outcome, Parse, done, fault, left, continue, pure, ◌>>=◌, next_pos, cur, if_match,
  match_kind, intern,
}
use apex_forge_night_script.Parser.Reads.Core.{
  Ends, ends, faults, Reads, Ends-map, Ends-list, Ends-if, continue-Ends,
}
use apex_forge_night_script.Parser.Reads.Tokens.{length-next}
use apex_forge_night_script.Parser.Reads.Passing.{Enters}

-- A parse that leaves the state as it is.
pub record Looks {ℓ} {A : Type ℓ} (m : Parse A) : Type ℓ where
  pub at : (p : Parser) → Ends (λ q. q ≡ p) (m p)

module _ {ℓ κ} {A : Type ℓ} {B : Type κ} where
  pub Looks-Enters :
      {n : ℕ} (m : Parse A) (f : A → Parse B)
      → Looks m
      → ((a : A) → Enters n (f a))
      → Enters n (m >>= f)
  unfolding ◌>>=◌
  Looks-Enters m f h k = record {
    at = λ p l z.
        continue-Ends f (h.at p)
          λ a q e. subst (λ r. Ends (λ s. left s + 1 ≤ left p) (f a r)) (sym e) ((k a).at p l z);
  }

  pub Looks-bind :
      (m : Parse A) (f : A → Parse B) → Looks m → ((a : A) → Looks (f a)) → Looks (m >>= f)
  unfolding ◌>>=◌
  Looks-bind m f h k = record {
    at = λ p.
        continue-Ends f (h.at p)
          λ a q e. subst (λ r. Ends (λ s. s ≡ p) (f a r)) (sym e) ((k a).at p);
  }

module _ {ℓ} {A : Type ℓ} where
  pub Looks-Reads : {n : ℕ} {m : Parse A} → Looks m → Reads n 0 m
  Looks-Reads h = record { at = λ p l. Ends-map (λ q e. rw e (omega arith)) (h.at p) }

  pub Looks-pure : (a : A) → Looks (pure a)
  unfolding pure
  Looks-pure a = record { at = λ p. ends refl }

  pub Looks-if : (b : Bool) {x y : Parse A} → Looks x → Looks y → Looks (if b then x else y)
  Looks-if true h k = h
  Looks-if false h k = k

  pub Enters-if :
      {n : ℕ} (b : Bool) {x y : Parse A} → Enters n x → Enters n y → Enters n (if b then x else y)
  Enters-if true h k = h
  Enters-if false h k = k

  pub Enters-option {κ} :
      {B : Type κ} {n : ℕ} (o : Option B) {x : Parse A} {f : B → Parse A}
      → Enters n x
      → ((b : B) → Enters n (f b))
      → Enters n (case_option o x f)
  Enters-option none h k = h
  Enters-option (some b) h k = k b

  continue-if :
      (b : Bool) (x y : Outcome Bool) (f : Bool → Parse A)
      → continue (if b then x else y) f ≡ (if b then continue x f else continue y f)
  continue-if true x y f = refl
  continue-if false x y f = refl

  continue-match :
      (xs : List Token) (k : TokenKind) (p : Parser) (f : Bool → Parse A)
      → continue
          (case_list xs fault
            λ t ts. if kind_eq t.kind k then done true (next_pos p) else done false p)
          f
        ≡ case_list xs fault λ t ts. if kind_eq t.kind k then f true (next_pos p) else f false p
  continue-match [] k p f = refl
  continue-match (t ∷ ts) k p f = continue-if (kind_eq t.kind k) _ _ f

  -- An optional token in front of what passes one.
  pub Enters-match_kind :
      {n : ℕ} (k : TokenKind) (f : Bool → Parse A)
      → ((b : Bool) → Reads n 0 (f b))
      → ((b : Bool) → Enters n (f b))
      → Enters n (match_kind k >>= f)
  unfolding match_kind if_match ◌>>=◌ pure
  Enters-match_kind k f h g = record {
    at = λ p l z. subst (Ends λ q. left q + 1 ≤ left p) (sym (continue-match p.rest k p f)) (
        Ends-list p.rest (λ e. faults)
          λ t ts e.
            let k' = length-next p e in
            Ends-if (kind_eq t.kind k)
              (λ i.
                Ends-map (λ q j. omega (arith, j, k'))
                  ((h true).at (next_pos p) (omega (arith, k', l))))
              (λ i. (g false).at p l z));
  }

pub Looks-cur : Looks cur
unfolding cur
Looks-cur = record { at = λ p. Ends-list p.rest (λ e. faults) λ t ts e. ends refl }

pub Looks-intern : (t : Token) → Looks (intern t)
unfolding intern
Looks-intern t = record { at = λ p. ends refl }
