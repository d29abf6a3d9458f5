-- ===== src/Typeck/Exprs/Walk/Named.antt =====
-- The names that are looked up in an expression: compiler/src/typeck/typeck.c, lines 1282-1330, under the
-- walk of lines 1262-2149.
use apex_forge_night_script.Base.{Bytes}
use apex_forge_night_script.Ast.{
  Node, Nodes, MaybeNode, Inits, Arms, node, null, at, none_left, next, no_inits, init, no_arms,
  arm, ident, binary, unary, call, field, index_expr, slice_expr, cast, assign, struct_lit,
  match_expr, group,
}

-- `P` holds of every name that is looked up in an expression.
unfoldable mutual
  pub Names : (Bytes → Type 0) → Node → Type 0
  Names P (node l c (ident name)) = P name
  Names P (node l c (group x)) = Names P x
  Names P (node l c (unary op x)) = Names P x
  Names P (node l c (binary op x y)) = Names P x × Names P y
  Names P (node l c (assign x y op)) = Names P x × Names P y
  Names P (node l c (index_expr x y)) = Names P x × Names P y
  Names P (node l c (slice_expr x from to)) = Names P x × (NamesMaybe P from × NamesMaybe P to)
  Names P (node l c (call callee args)) = Names P callee × NamesAll P args
  Names P (node l c (cast x type)) = Names P x
  Names P (node l c (field x name)) = Names P x
  Names P (node l c (struct_lit name fs)) = NamesInits P fs
  Names P (node l c (match_expr subject arms)) = Names P subject × NamesArms P arms
  Names P (node l c s) = Unit

  pub NamesMaybe : (Bytes → Type 0) → MaybeNode → Type 0
  NamesMaybe P null = Unit
  NamesMaybe P (at n) = Names P n

  pub NamesAll : (Bytes → Type 0) → Nodes → Type 0
  NamesAll P none_left = Unit
  NamesAll P (next n ns) = Names P n × NamesAll P ns

  pub NamesInits : (Bytes → Type 0) → Inits → Type 0
  NamesInits P no_inits = Unit
  NamesInits P (init name n rest) = Names P n × NamesInits P rest

  pub NamesArms : (Bytes → Type 0) → Arms → Type 0
  NamesArms P no_arms = Unit
  NamesArms P (arm pattern bindings n rest) = Names P n × NamesArms P rest

module _ {P Q : Bytes → Type 0} (f : (name : Bytes) → P name → Q name) where
  mutual
    unfolding Names

    pub Names-map : (n : Node) → Names P n → Names Q n
    Names-map (node l c (ident name)) h = f name h
    Names-map (node l c (group x)) h = Names-map x h
    Names-map (node l c (unary op x)) h = Names-map x h
    Names-map (node l c (binary op x y)) (h, g) = (Names-map x h, Names-map y g)
    Names-map (node l c (assign x y op)) (h, g) = (Names-map x h, Names-map y g)
    Names-map (node l c (index_expr x y)) (h, g) = (Names-map x h, Names-map y g)
    Names-map (node l c (slice_expr x from to)) (h, (g, k)) =
        (Names-map x h, (NamesMaybe-map from g, NamesMaybe-map to k))
    Names-map (node l c (call callee args)) (h, g) = (Names-map callee h, NamesAll-map args g)
    Names-map (node l c (cast x type)) h = Names-map x h
    Names-map (node l c (field x name)) h = Names-map x h
    Names-map (node l c (struct_lit name fs)) h = NamesInits-map fs h
    Names-map (node l c (match_expr subject arms)) (h, g) =
        (Names-map subject h, NamesArms-map arms g)
    Names-map (node l c s) h = tt

    NamesMaybe-map : (n : MaybeNode) → NamesMaybe P n → NamesMaybe Q n
    NamesMaybe-map null h = tt
    NamesMaybe-map (at n) h = Names-map n h

    NamesAll-map : (ns : Nodes) → NamesAll P ns → NamesAll Q ns
    NamesAll-map none_left h = tt
    NamesAll-map (next n ns) (h, g) = (Names-map n h, NamesAll-map ns g)

    NamesInits-map : (fs : Inits) → NamesInits P fs → NamesInits Q fs
    NamesInits-map no_inits h = tt
    NamesInits-map (init name n fs) (h, g) = (Names-map n h, NamesInits-map fs g)

    NamesArms-map : (arms : Arms) → NamesArms P arms → NamesArms Q arms
    NamesArms-map no_arms h = tt
    NamesArms-map (arm p bs n arms) (h, g) = (Names-map n h, NamesArms-map arms g)

module _ {Q : Bytes → Type 0} (f : (name : Bytes) → Q name) where
  mutual
    unfolding Names

    pub Names-all : (n : Node) → Names Q n
    Names-all (node l c (ident name)) = f name
    Names-all (node l c (group x)) = Names-all x
    Names-all (node l c (unary op x)) = Names-all x
    Names-all (node l c (binary op x y)) = (Names-all x, Names-all y)
    Names-all (node l c (assign x y op)) = (Names-all x, Names-all y)
    Names-all (node l c (index_expr x y)) = (Names-all x, Names-all y)
    Names-all (node l c (slice_expr x from to)) =
        (Names-all x, (NamesMaybe-all from, NamesMaybe-all to))
    Names-all (node l c (call callee args)) = (Names-all callee, NamesAll-all args)
    Names-all (node l c (cast x type)) = Names-all x
    Names-all (node l c (field x name)) = Names-all x
    Names-all (node l c (struct_lit name fs)) = NamesInits-all fs
    Names-all (node l c (match_expr subject arms)) = (Names-all subject, NamesArms-all arms)
    Names-all (node l c s) = tt

    NamesMaybe-all : (n : MaybeNode) → NamesMaybe Q n
    NamesMaybe-all null = tt
    NamesMaybe-all (at n) = Names-all n

    NamesAll-all : (ns : Nodes) → NamesAll Q ns
    NamesAll-all none_left = tt
    NamesAll-all (next n ns) = (Names-all n, NamesAll-all ns)

    NamesInits-all : (fs : Inits) → NamesInits Q fs
    NamesInits-all no_inits = tt
    NamesInits-all (init name n fs) = (Names-all n, NamesInits-all fs)

    NamesArms-all : (arms : Arms) → NamesArms Q arms
    NamesArms-all no_arms = tt
    NamesArms-all (arm p bs n arms) = (Names-all n, NamesArms-all arms)
