-- ===== src/Sema/Register/Tables.antt =====
-- The names in the analyzer's tables: what the registrations of compiler/src/sema/sema.c keep of them.
use apex_forge_night_script.Base.{
  ◌≡◌, refl, sym, ap, ◌⊎◌, inl, inr, true, false, ◌||◌, Option, none, some, List, [], ◌∷◌, ◌++◌,
  Bytes, beq, beq_self, beq→eq, if◌then◌else◌, arith, Bool-cases,
}
use apex_forge_night_script.Ast.{Node}
use apex_forge_night_script.Sema.Analyzer.{
  SemaError, NamedDecl, Table, Analyzer, functions, extern_functions, structs, enums, unions,
  interfaces, find_named_decl, declared, push_named_decl, is_name_in, register_global_name,
  table_eq, empty_analyzer,
}
use apex_forge_night_script.Sema.Register.{register_decl, is_declared, check_signature, and_check}

pub data Distinct : List Bytes → Type 0 where
  empty : Distinct []
  fresh : {n : Bytes} {ns : List Bytes} → is_name_in ns n ≡ false → Distinct ns → Distinct (n ∷ ns)

pub is_name_in-append :
    (ns : List Bytes) (m n : Bytes) → is_name_in (ns ++ m ∷ []) n ≡ (is_name_in ns n || beq m n)
unfolding is_name_in
is_name_in-append [] m n = ground arith
is_name_in-append (k ∷ ns) m n = let e = is_name_in-append ns m n in ground (arith, e)

pub beq_comm : (a b : Bytes) → beq a b ≡ false → beq b a ≡ false
beq_comm a b h = elim (Bool-cases (beq b a)) [
  | inl e ↦ let f = beq→eq b a e in let g = beq_self b in let k = sym (ap (λ x. beq x b) f) in cc
  | inr e ↦ e
]

pub Distinct-append :
    {ns : List Bytes} (m : Bytes) → Distinct ns → is_name_in ns m ≡ false → Distinct (ns ++ m ∷ [])
unfolding is_name_in
Distinct-append m empty h = fresh refl empty
Distinct-append m (fresh {n} {ns} f d) h =
    let apart : beq n m ≡ false = ground (arith, h) in
    let rest : is_name_in ns m ≡ false = ground (arith, h) in
    let e = is_name_in-append ns m n in
    let g = beq_comm n m apart in fresh (ground (arith, e, f, g)) (Distinct-append m d rest)

pub declared-append :
    (ds : List NamedDecl) (d : NamedDecl) (n : Bytes)
    → declared (ds ++ d ∷ []) n ≡ (declared ds n || beq d.name n)
unfolding declared find_named_decl
declared-append [] d n = elim (Bool-cases (beq d.name n)) [ inl e ↦ rw e refl | inr e ↦ rw e refl ]
declared-append (k ∷ ds) d n = elim (Bool-cases (beq k.name n)) [
  | inl e ↦ rw e refl
  | inr e ↦ rw e (declared-append ds d n)
]

-- No global name is there twice, every name in a table is a global name, and no name is in two tables.
pub record Consistent (decls : Table → List NamedDecl) (names : List Bytes) : Type 0 where
  pub distinct : Distinct names
  pub global : (t : Table) (n : Bytes) → declared (decls t) n ≡ true → is_name_in names n ≡ true
  pub apart :
      (t u : Table) (n : Bytes) → declared (decls t) n ≡ true → declared (decls u) n ≡ true → t ≡ u

abbrev pub IsConsistent : Analyzer → Type 0
IsConsistent a = Consistent a.decls a.global_names

pub empty_analyzer-IsConsistent : IsConsistent empty_analyzer
unfolding declared find_named_decl
empty_analyzer-IsConsistent = record {
  distinct = empty;
  global = λ t n h. cc;
  apart = λ t u n h k. cc;
}

pub register_global_name-IsConsistent :
    (a : Analyzer) (name : Bytes) (n : Node)
    → IsConsistent a
    → IsConsistent (register_global_name a name n).after
unfolding register_global_name
register_global_name-IsConsistent a name n c = elim (Bool-cases (is_name_in a.global_names name)) [
  | inl e ↦ rw e c
  | inr e ↦ rw e (record {
    distinct = Distinct-append name c.distinct e;
    global = λ t m h.
        let g = c.global t m h in
        let k = is_name_in-append a.global_names name m in ground (arith, g, k);
    apart = c.apart;
  })
]

table_eq→eq : (t u : Table) → table_eq t u ≡ true → t ≡ u
table_eq→eq t u h = ground arith

-- A declaration of a name after a push: it was there, or it is the new one.
declared-push :
    (t u : Table) (a : Analyzer) (d : NamedDecl) (n : Bytes)
    → declared ((push_named_decl t a d).decls u) n ≡ true
    → (declared (a.decls u) n ≡ true) ⊎ ((t ≡ u) × (d.name ≡ n))
unfolding push_named_decl
declared-push t u a d n h = elim (Bool-cases (table_eq t u)) [
  | inl e ↦
      let f : declared (a.decls u ++ d ∷ []) n ≡ true = rw e at h in
      let g = declared-append (a.decls u) d n in
      elim (Bool-cases (declared (a.decls u) n)) [
        | inl k ↦ inl k
        | inr k ↦ inr (table_eq→eq t u e, beq→eq d.name n (ground (arith, f, g, k)))
      ]
  | inr e ↦ inl (rw e at h)
]

-- A new entry, under a global name that no table has.
push_named_decl-IsConsistent :
    (t : Table) (a : Analyzer) (d : NamedDecl)
    → is_name_in a.global_names d.name ≡ true
    → ((u : Table) → declared (a.decls u) d.name ≡ false)
    → IsConsistent a
    → IsConsistent (push_named_decl t a d)
unfolding push_named_decl
push_named_decl-IsConsistent t a d known new c = record {
  distinct = c.distinct;
  global = λ u n h. elim (declared-push t u a d n h) [ inl k ↦ c.global u n k | inr (e, f) ↦ cc ];
  apart = λ u v n h k. elim (declared-push t u a d n h) [
    | inl x ↦ elim (declared-push t v a d n k) [
      | inl y ↦ c.apart u v n x y
      | inr (e, f) ↦ let z = new u in cc
    ]
    | inr (e, f) ↦ elim (declared-push t v a d n k) [
      | inl y ↦ let z = new v in cc
      | inr (g, i) ↦ cc
    ]
  ];
}

undeclared :
    (a : Analyzer) (name : Bytes)
    → IsConsistent a
    → is_name_in a.global_names name ≡ false
    → (u : Table) → declared (a.decls u) name ≡ false
undeclared a name c h u = elim (Bool-cases (declared (a.decls u) name)) [
  | inl e ↦ let k = c.global u name e in cc
  | inr e ↦ e
]

undeclared-is_declared :
    (t : Table) (a : Analyzer) (name : Bytes)
    → ((u : Table) → declared (a.decls u) name ≡ false)
    → is_declared t a name ≡ false
undeclared-is_declared functions a name h =
    let e = h functions in let f = h extern_functions in ground (arith, e, f)
undeclared-is_declared extern_functions a name h =
    let e = h functions in let f = h extern_functions in ground (arith, e, f)
undeclared-is_declared structs a name h = h structs
undeclared-is_declared enums a name h = h enums
undeclared-is_declared unions a name h = h unions
undeclared-is_declared interfaces a name h = h interfaces

-- The analyzer with one more global name.
abbrev pub with_global_name : Analyzer → Bytes → Analyzer
with_global_name a name = record a { global_names = a.global_names ++ name ∷ [] }

abbrev pub entry : Bytes → Node → NamedDecl
entry name n = record { name = name; node = n }

-- In consistent tables the test of a declaration's own table never fails: a declaration is refused
-- where its name is a global name already, or for its signature, and is an entry of its table if not.
pub register_decl_lem :
    (t : Table) (a : Analyzer) (name : Bytes) (n : Node)
    → IsConsistent a
    → register_decl t a name n ≡ (
        if is_name_in a.global_names name
        then register_global_name a name n
        else and_check
            (with_global_name a name)
            (check_signature t (with_global_name a name) n)
            λ b. record { ok = true; after = push_named_decl t b (entry name n) })
unfolding register_decl register_global_name
register_decl_lem t a name n c = elim (Bool-cases (is_name_in a.global_names name)) [
  | inl e ↦ rw e refl
  | inr e ↦
      let f = undeclared-is_declared t (with_global_name a name) name (undeclared a name c e) in
      rw (e, f) refl
]

accepted_entry-IsConsistent :
    (t : Table) (a b : Analyzer) (name : Bytes) (n : Node) (o : Option SemaError)
    → IsConsistent b
    → is_name_in b.global_names name ≡ true
    → ((u : Table) → declared (b.decls u) name ≡ false)
    → IsConsistent
        (and_check b o
          (λ k. record { ok = true; after = push_named_decl t k (entry name n) })).after
accepted_entry-IsConsistent t a b name n none c known new =
    push_named_decl-IsConsistent t b (entry name n) known new c
accepted_entry-IsConsistent t a b name n (some e) c known new = c

-- A registration keeps the tables consistent, whether it is accepted or refused.
pub register_decl-IsConsistent :
    (t : Table) (a : Analyzer) (name : Bytes) (n : Node)
    → IsConsistent a
    → IsConsistent (register_decl t a name n).after
unfolding register_global_name
register_decl-IsConsistent t a name n c = elim (Bool-cases (is_name_in a.global_names name)) [
  | inl e ↦ rw (register_decl_lem t a name n c, e) c
  | inr e ↦
      let g : IsConsistent (with_global_name a name) =
        rw e at (register_global_name-IsConsistent a name n c) in
      let k = is_name_in-append a.global_names name name in
      let r = beq_self name in
      rw (register_decl_lem t a name n c, e)
        (accepted_entry-IsConsistent t a (with_global_name a name) name n _ g (ground (arith, k, r))
          (undeclared a name c e))
]
