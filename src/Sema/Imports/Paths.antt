-- ===== src/Sema/Imports/Paths.antt =====
-- The paths that an import names: compiler/src/sema/sema.c, lines 107-202.
use apex_forge_night_script.Base.{
  ℕ, ◌≡◌, ◌⊎◌, inl, inr, refl, ap, Bool, true, false, ◌||◌, ◌==◌, some, none, [], ◌∷◌, ◌++◌, Bytes,
  All, codes, arith, length, Bool-cases,
}
use apex_forge_night_script.Sema.TypeNames.{last_byte}
use apex_forge_night_script.Sema.Imports.{
  before_slash, path_dirname, path_join, slash_path, candidate, candidate_main, import_path_exists,
}

-- A file's name: no slash stands in it.
abbrev pub IsFileName : Bytes → Type 0
IsFileName file = All (λ c. (c == b'/') ≡ false) file

-- The directory that a path stands in.
pub data Directory : Bytes → Bytes → Type 0 where
  current : {file : Bytes} → IsFileName file → Directory file (codes ".")
  root : {file : Bytes} → IsFileName file → Directory (b'/' ∷ file) (codes "/")
  within :
      {c : ℕ} {dir : Bytes} (file : Bytes)
      → IsFileName file
      → Directory (c ∷ dir ++ b'/' ∷ file) (c ∷ dir)

-- The second text is the first with slashes for its dots.
pub data Slashed : Bytes → Bytes → Type 0 where
  nothing : Slashed [] []
  dot : {p q : Bytes} → Slashed p q → Slashed (b'.' ∷ p) (b'/' ∷ q)
  other : {c : ℕ} {p q : Bytes} → (c == b'.') ≡ false → Slashed p q → Slashed (c ∷ p) (c ∷ q)

-- The path of a name in a directory: one slash is put between them where the directory has none.
pub data Beneath (dir name : Bytes) : Bytes → Type 0 where
  behind_slash : (last_byte dir == b'/') ≡ true → Beneath dir name (dir ++ name)
  behind_name : (last_byte dir == b'/') ≡ false → Beneath dir name (dir ++ b'/' ∷ name)

-- An import names a file beside the source: `path.afns` or `path/main.afns`, with slashes for dots.
pub record Names (file_exists : Bytes → Bool) (source_name path : Bytes) : Type 0 where
  pub dir : Bytes
  pub slashes : Bytes
  pub file : Bytes
  pub main : Bytes
  pub beside : Directory source_name dir
  pub dots : Slashed path slashes
  pub file_path : Beneath dir (slashes ++ codes ".afns") file
  pub main_path : Beneath dir (slashes ++ codes "/main.afns") main
  pub exists : (file_exists file ≡ true) ⊎ (file_exists main ≡ true)

before_slash-none : (file : Bytes) → IsFileName file → before_slash file ≡ none
unfolding before_slash
before_slash-none [] h = refl
before_slash-none (c ∷ cs) (h, hs) = rw (before_slash-none cs hs, h) refl

before_slash-some :
    (dir file : Bytes) → IsFileName file → before_slash (dir ++ b'/' ∷ file) ≡ some dir
unfolding before_slash
before_slash-some [] file h = rw (before_slash-none file h) refl
before_slash-some (c ∷ cs) file h = rw (before_slash-some cs file h) refl

cons_named : (c : ℕ) (dir : Bytes) → (length (c ∷ dir) == 0) ≡ false
cons_named c dir = ground arith

path_dirname-Directory : {source dir : Bytes} → Directory source dir → path_dirname source ≡ dir
unfolding path_dirname
path_dirname-Directory (current {file} h) = rw (before_slash-none file h) refl
path_dirname-Directory (root {file} h) = rw (before_slash-some [] file h) refl
path_dirname-Directory (within {c} {dir} file h) =
    rw (before_slash-some (c ∷ dir) file h, cons_named c dir) refl

-- A path without a slash, or one at its last slash.
data LastSlash : Bytes → Type 0 where
  whole : {file : Bytes} → IsFileName file → LastSlash file
  cut : (dir file : Bytes) → IsFileName file → LastSlash (dir ++ b'/' ∷ file)

cut_before : (c : ℕ) {s : Bytes} → LastSlash s → LastSlash (c ∷ s)
cut_before c (whole {file} h) = elim (Bool-cases (c == b'/')) [
  | inl t ↦ at_slash c t h
  | inr t ↦ whole (t, h)
]
  where
    at_slash : (c : ℕ) {file : Bytes} → (c == b'/') ≡ true → IsFileName file → LastSlash (c ∷ file)
    at_slash c t h = let e : c ≡ b'/' = ground (arith, t) in rw e (cut [] _ h)
cut_before c (cut dir file h) = cut (c ∷ dir) file h

cut_of : (s : Bytes) → LastSlash s
cut_of [] = whole tt
cut_of (c ∷ cs) = cut_before c (cut_of cs)

Directory-LastSlash : {s : Bytes} → LastSlash s → Directory s (path_dirname s)
unfolding path_dirname
Directory-LastSlash (whole {file} h) = rw (before_slash-none file h) (current h)
Directory-LastSlash (cut [] file h) = rw (before_slash-some [] file h) (root h)
Directory-LastSlash (cut (c ∷ dir) file h) =
    rw (before_slash-some (c ∷ dir) file h, cons_named c dir) (within file h)

Slashed-slash_path : (p : Bytes) → Slashed p (slash_path p)
Slashed-slash_path [] = nothing
Slashed-slash_path (c ∷ cs) = elim (Bool-cases (c == b'.')) [
  | inl t ↦ let e : c ≡ b'.' = ground (arith, t) in rw e (dot (Slashed-slash_path cs))
  | inr t ↦ rw t (other t (Slashed-slash_path cs))
]

slash_path-Slashed : {p q : Bytes} → Slashed p q → slash_path p ≡ q
slash_path-Slashed nothing = refl
slash_path-Slashed (dot h) = ap (λ q. b'/' ∷ q) (slash_path-Slashed h)
slash_path-Slashed (other {c} t h) = rw t (ap (λ q. c ∷ q) (slash_path-Slashed h))

Directory-named : {source dir : Bytes} → Directory source dir → (length dir == 0) ≡ false
Directory-named (current h) = refl
Directory-named (root h) = refl
Directory-named (within {c} {dir} file h) = cons_named c dir

Beneath-path_join :
    (dir name : Bytes) → (length dir == 0) ≡ false → Beneath dir name (path_join dir name)
unfolding path_join
Beneath-path_join dir name h = elim (Bool-cases (last_byte dir == b'/')) [
  | inl t ↦ rw (h, t) (behind_slash t)
  | inr t ↦ rw (h, t) (behind_name t)
]

path_join-Beneath :
    (dir name : Bytes) {path : Bytes}
    → (length dir == 0) ≡ false
    → Beneath dir name path
    → path_join dir name ≡ path
unfolding path_join
path_join-Beneath dir name h (behind_slash t) = rw (h, t) refl
path_join-Beneath dir name h (behind_name t) = rw (h, t) refl

either_true : (a b : Bool) → (a || b) ≡ true → (a ≡ true) ⊎ (b ≡ true)
either_true true b h = inl refl
either_true false b h = inr h

true_either : (a b : Bool) → (a ≡ true) ⊎ (b ≡ true) → (a || b) ≡ true
true_either true b h = refl
true_either false b (inl h) = cc
true_either false b (inr h) = h

module _ (file_exists : Bytes → Bool) (source_name path : Bytes) where
  pub import_path_exists-Names :
      import_path_exists file_exists source_name path ≡ true → Names file_exists source_name path
  unfolding import_path_exists
  import_path_exists-Names h =
      let dir = path_dirname source_name in
      let beside = Directory-LastSlash (cut_of source_name) in
      record {
        dir = dir;
        slashes = slash_path path;
        file = path_join dir (candidate path);
        main = path_join dir (candidate_main path);
        beside = beside;
        dots = Slashed-slash_path path;
        file_path = Beneath-path_join dir (candidate path) (Directory-named beside);
        main_path = Beneath-path_join dir (candidate_main path) (Directory-named beside);
        exists = either_true _ _ h;
      }

  pub Names-import_path_exists :
      Names file_exists source_name path → import_path_exists file_exists source_name path ≡ true
  unfolding import_path_exists
  Names-import_path_exists n =
      let d = path_dirname-Directory n.beside in
      let p = slash_path-Slashed n.dots in
      let f = path_join-Beneath _ _ (Directory-named n.beside) n.file_path in
      let m = path_join-Beneath _ _ (Directory-named n.beside) n.main_path in
      rw (d, p, f, m) (true_either _ _ n.exists)
