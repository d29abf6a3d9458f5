-- ===== src/Sema/TypeNames/Parts.antt =====
-- What `split_top_level_comma` of compiler/src/sema/sema.c makes of two written parts.
use apex_forge_night_script.Base.{
  ℕ, suc, ◌≡◌, refl, ◌∙◌, ap, false, ◌&&◌, some, [], ◌∷◌, ◌++◌, Bytes, ◌==◌, arith, append_assoc,
  append-nil,
}
use apex_forge_night_script.Base.Int.{pos, int_eq}
use apex_forge_night_script.Sema.TypeNames.{split_loop, split_top_level_comma}

-- Text between brackets, whose own brackets are closed.
pub data Inside : Bytes → Type 0 where
  inside_end : Inside []
  inside_byte :
      {c : ℕ} {cs : Bytes} → (c == b'[') ≡ false → (c == b']') ≡ false → Inside cs → Inside (c ∷ cs)
  inside_nest : {a b : Bytes} → Inside a → Inside b → Inside (b'[' ∷ a ++ b']' ∷ b)

-- Text whose brackets are closed, with no comma outside them.
pub data Part : Bytes → Type 0 where
  part_end : Part []
  part_byte :
      {c : ℕ} {cs : Bytes}
      → (c == b'[') ≡ false
      → (c == b']') ≡ false
      → (c == b',') ≡ false
      → Part cs
      → Part (c ∷ cs)
  part_nest : {a b : Bytes} → Inside a → Part b → Part (b'[' ∷ a ++ b']' ∷ b)

-- The text read before a bracketed text and what is behind it.
regroup :
    (seen a b : Bytes)
    → (((seen ++ b'[' ∷ []) ++ a) ++ b']' ∷ []) ++ b ≡ seen ++ (b'[' ∷ a ++ b']' ∷ b)
regroup seen a b =
    append_assoc ((seen ++ b'[' ∷ []) ++ a) (b']' ∷ []) b
    ∙ (append_assoc (seen ++ b'[' ∷ []) a (b']' ∷ b)
        ∙ append_assoc seen (b'[' ∷ []) (a ++ b']' ∷ b))

-- A bracketed text is passed at any depth, if the text in it is passed one deeper.
nest_step :
    (n : ℕ) (seen a b rest : Bytes)
    → split_loop (pos (suc n)) (seen ++ b'[' ∷ []) (a ++ (b']' ∷ b ++ rest))
      ≡ split_loop (pos (suc n)) ((seen ++ b'[' ∷ []) ++ a) (b']' ∷ b ++ rest)
    → split_loop (pos n) seen ((b'[' ∷ a ++ b']' ∷ b) ++ rest)
      ≡ split_loop (pos n) (((seen ++ b'[' ∷ []) ++ a) ++ b']' ∷ []) (b ++ rest)
unfolding split_loop
nest_step n seen a b rest h =
    ap (split_loop (pos (suc n)) (seen ++ b'[' ∷ [])) (append_assoc a (b']' ∷ b) rest) ∙ h

-- The loop passes the text between brackets.
split_loop-Inside :
    {a : Bytes} (n : ℕ) (seen rest : Bytes)
    → Inside a
    → split_loop (pos (suc n)) seen (a ++ rest) ≡ split_loop (pos (suc n)) (seen ++ a) rest
unfolding split_loop
split_loop-Inside n seen rest inside_end = rw (append-nil seen) refl
split_loop-Inside n seen rest (inside_byte {c} {cs} h k i) =
    let more = split_loop-Inside n (seen ++ c ∷ []) rest i in
    let whole = ap (λ t. split_loop (pos (suc n)) t rest) (append_assoc seen (c ∷ []) cs) in
    let apart : (c == b',' && int_eq (pos (suc n)) (pos 0)) ≡ false = ground arith in
    rw (h, k, apart) (more ∙ whole)
split_loop-Inside n seen rest (inside_nest {a} {b} i j) =
    nest_step (suc n) seen a b rest
      (split_loop-Inside (suc n) (seen ++ b'[' ∷ []) (b']' ∷ b ++ rest) i)
    ∙ (split_loop-Inside n (((seen ++ b'[' ∷ []) ++ a) ++ b']' ∷ []) rest j
        ∙ ap (λ t. split_loop (pos (suc n)) t rest) (regroup seen a b))

split_loop-Part :
    {a : Bytes} (seen rest : Bytes)
    → Part a
    → split_loop (pos 0) seen (a ++ rest) ≡ split_loop (pos 0) (seen ++ a) rest
unfolding split_loop
split_loop-Part seen rest part_end = rw (append-nil seen) refl
split_loop-Part seen rest (part_byte {c} {cs} h k m i) =
    let more = split_loop-Part (seen ++ c ∷ []) rest i in
    let whole = ap (λ t. split_loop (pos 0) t rest) (append_assoc seen (c ∷ []) cs) in
    rw (h, k, m) (more ∙ whole)
split_loop-Part seen rest (part_nest {a} {b} i j) =
    nest_step 0 seen a b rest (split_loop-Inside 0 (seen ++ b'[' ∷ []) (b']' ∷ b ++ rest) i)
    ∙ (split_loop-Part (((seen ++ b'[' ∷ []) ++ a) ++ b']' ∷ []) rest j
        ∙ ap (λ t. split_loop (pos 0) t rest) (regroup seen a b))

-- Two parts that are written with a comma between them are split into these two, if the brackets of
-- the first are closed and it has no comma outside them.
pub split_top_level_comma-Part :
    {left : Bytes} (right : Bytes)
    → Part left
    → split_top_level_comma (left ++ b',' ∷ right) ≡ some (record { left = left; right = right })
unfolding split_top_level_comma split_loop
split_top_level_comma-Part {left} right h = split_loop-Part [] (b',' ∷ right) h
