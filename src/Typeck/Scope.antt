-- ===== src/Typeck/Scope.antt =====
-- The scopes of the checker: compiler/src/typeck/typeck.c, lines 56-66 and 172-222. A scope is the
-- list of its bindings, the last defined first, and a chain of scopes is the list from the innermost
-- scope outwards, so that `scope_new(parent)` is a new first element. Allocation does not fail.
use apex_forge_night_script.Base.{
  ◌≡◌, refl, ◌≢◌, ◌↔◌, Bool, Option, none, some, List, [], ◌∷◌, Bytes, beq, if◌then◌else◌,
  case_option, Bool-cases, inl, inr, some-injective, Option-cases,
}
use apex_forge_night_script.Typeck.Types.{Ty}

pub record Binding : Type 0 where
  pub name : Bytes
  pub type : Option Ty
  pub mutable : Bool

abbrev pub Scope : Type 0
Scope = List Binding

abbrev pub Scopes : Type 0
Scopes = List Scope

abbrev pub scope_new : Scopes → Scopes
scope_new parent = [] ∷ parent

unfoldable pub find_binding : Scope → Bytes → Option Binding
find_binding [] name = none
find_binding (b ∷ bs) name = if beq b.name name then some b else find_binding bs name

-- `none` is a definition that is refused, and leaves the scope as it is.
unfoldable pub scope_define : Scope → Bytes → Option Ty → Bool → Option Scope
unfolding find_binding
scope_define scope name type mutable =
    case_option (find_binding scope name)
      (some (record { name = name; type = type; mutable = mutable } ∷ scope)) (λ b. none)

unfoldable pub scope_resolve : Scopes → Bytes → Option Binding
unfolding find_binding
scope_resolve [] name = none
scope_resolve (scope ∷ parents) name =
    let outer = scope_resolve parents name in case_option (find_binding scope name) outer some

-- After a definition that is accepted, the name is bound to it, and every other name, here and in the
-- scopes around, to what it was bound to before.
pub scope_resolve-scope_define :
    (scope scope' : Scope) (parents : Scopes) (name other : Bytes) (type : Option Ty)
    (mutable : Bool)
    → scope_define scope name type mutable ≡ some scope'
    → scope_resolve (scope' ∷ parents) other ≡ (
        if beq name other
        then some (record { name = name; type = type; mutable = mutable })
        else scope_resolve (scope ∷ parents) other)
unfolding scope_define scope_resolve find_binding
scope_resolve-scope_define scope scope' parents name other type mutable h =
    elim (Option-cases (find_binding scope name)) [
      | inl e ↦
          let added : some (record { name = name; type = type; mutable = mutable } ∷ scope)
              ≡ some scope' =
            rw e at h in
          let found = some-injective added in
          elim (Bool-cases (beq name other)) [
            | inl t ↦ rw (← found, t) refl
            | inr f ↦ rw (← found, f) refl
          ]
      | inr (b, e) ↦ cc
    ]

-- A definition is refused exactly when the innermost scope binds the name, whatever the scopes around
-- it bind.
pub scope_define-none_iff :
    (scope : Scope) (name : Bytes) (type : Option Ty) (mutable : Bool)
    → (scope_define scope name type mutable ≡ none) ↔ (scope_resolve (scope ∷ []) name ≢ none)
unfolding scope_define scope_resolve find_binding
scope_define-none_iff scope name type mutable = elim (Option-cases (find_binding scope name)) [
  | inl e ↦ rw e (λ h. cc, λ h. absurd (h refl))
  | inr (b, e) ↦ rw e (λ h k. cc, λ h. refl)
]
