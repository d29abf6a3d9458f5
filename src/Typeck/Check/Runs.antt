-- ===== src/Typeck/Check/Runs.antt =====
-- Checks that come to an end and only add errors to those before them, with the rules that `search` walks a
-- check with.
use apex_forge_night_script.Base.{
  ℕ, subst, Bool, true, false, Option, none, some, List, [], ◌∷◌, ◌++◌, All, append_assoc,
  if◌then◌else◌, case_option,
}
use apex_forge_night_script.Ast.{Node}
use apex_forge_night_script.Typeck.Visibility.{PrivateSymbol}
use apex_forge_night_script.Typeck.Types.{Ty}
use apex_forge_night_script.Typeck.Check.{
  CheckMessage, TypeError, CheckRun, ran, Check, answer, ◌>>=◌, ◌>>◌, go_on, typeck_error,
  refuse_with, when_visible, check_each,
}

-- An answer, with `new` errors in front of those before.
pub data Grown {ℓ} {A : Type ℓ} (es : List TypeError) : CheckRun A → Type ℓ where
  grown : (a : A) (new : List TypeError) → Grown es (ran a (new ++ es))

pub record Completes {ℓ} {A : Type ℓ} (m : Check A) : Type ℓ where
  pub at : (es : List TypeError) → Grown es (m es)

module _ {ℓ} {A : Type ℓ} where
  Grown-after :
      {es : List TypeError} (new : List TypeError) {r : CheckRun A}
      → Grown (new ++ es) r
      → Grown es r
  Grown-after {es} new (grown a more) =
      subst (λ l. Grown es (ran a l)) (append_assoc more new es) (grown a (more ++ new))

  pub Completes-answer : (a : A) → Completes (answer a)
  unfolding answer
  Completes-answer a = record { at = λ es. grown a [] }

  pub Completes-if :
      (b : Bool) {x y : Check A} → Completes x → Completes y → Completes (if b then x else y)
  Completes-if true h k = h
  Completes-if false h k = k

  pub Completes-option {κ} :
      {B : Type κ} (o : Option B) {x : Check A} {f : B → Check A}
      → Completes x
      → ((b : B) → Completes (f b))
      → Completes (case_option o x f)
  Completes-option none h k = h
  Completes-option (some b) h k = k b

module _ {ℓ κ} {A : Type ℓ} {B : Type κ} where
  go_on-Grown :
      {es : List TypeError} {r : CheckRun A} (f : A → Check B)
      → Grown es r
      → ((a : A) → Completes (f a))
      → Grown es (go_on r f)
  go_on-Grown f (grown a new) k = Grown-after new ((k a).at _)

  pub Completes-bind :
      {m : Check A} (f : A → Check B)
      → Completes m
      → ((a : A) → Completes (f a))
      → Completes (m >>= f)
  unfolding ◌>>=◌
  Completes-bind f h k = record { at = λ es. go_on-Grown f (h.at es) k }

  pub Completes-then : {m : Check A} {k : Check B} → Completes m → Completes k → Completes (m >> k)
  unfolding ◌>>◌
  Completes-then h k = Completes-bind _ h λ a. k

pub Completes-typeck_error : (line col : ℕ) (m : CheckMessage) → Completes (typeck_error line col m)
unfolding typeck_error
Completes-typeck_error line col m = record { at = λ es. grown tt (_ ∷ []) }

module _ {ℓ} {A : Type ℓ} where
  pub Completes-refuse_with : (a : A) (n : Node) (m : CheckMessage) → Completes (refuse_with a n m)
  unfolding refuse_with
  Completes-refuse_with a n m = Completes-then (Completes-typeck_error _ _ m) (Completes-answer a)

  pub Completes-when_visible :
      (a : A) (o : Option PrivateSymbol) {k : Check A}
      → Completes k
      → Completes (when_visible a o k)
  unfolding when_visible
  Completes-when_visible a none h = h
  Completes-when_visible a (some p) h =
      Completes-then (Completes-typeck_error _ _ _) (Completes-answer a)

  pub Completes-check_each : (ms : List (Check A)) → All Completes ms → Completes (check_each ms)
  unfolding check_each
  Completes-check_each [] h = Completes-answer tt
  Completes-check_each (m ∷ ms) (h, hs) = Completes-then h (Completes-check_each ms hs)

pub ruleset completes_rules = (
  Completes-answer, Completes-if, Completes-option, Completes-bind, Completes-then,
  Completes-refuse_with, Completes-when_visible, Completes-check_each,
)

-- A check that is decided on, if there is one.
pub data Decided : Option (Check Ty) → Type 0 where
  decided : {m : Check Ty} → Completes m → Decided (some m)
  undecided : Decided none

pub Decided-if :
    (b : Bool) {o p : Option (Check Ty)} → Decided o → Decided p → Decided (if b then o else p)
Decided-if true h k = h
Decided-if false h k = k

pub Decided-option {κ} :
    {B : Type κ} (o : Option B) {p : Option (Check Ty)} {f : B → Option (Check Ty)}
    → Decided p
    → ((b : B) → Decided (f b))
    → Decided (case_option o p f)
Decided-option none h k = h
Decided-option (some b) h k = k b

pub Decided-or : {o p : Option (Check Ty)} → Decided o → Decided p → Decided (case_option o p some)
Decided-or (decided h) g = decided h
Decided-or undecided g = g

pub Decided-Completes :
    {o : Option (Check Ty)} {m : Check Ty}
    → Decided o
    → Completes m
    → Completes (case_option o m λ k. k)
Decided-Completes (decided h) g = h
Decided-Completes undecided g = g

pub ruleset decided_rules = (Decided-or, Decided-if, Decided-option, decided, undecided)
