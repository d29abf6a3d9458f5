-- ===== src/Lexer/Scan/Total.antt =====
-- The loop of `lexer_tokenize` ends within its fuel, and its tokens are those of the source in
-- order.
use apex_forge_night_script.Base.{
  ℕ, zero, suc, ◌+◌, ◌≤◌, ◌<◌, ◌≡◌, ◌≢◌, refl, ◌∙◌, sym, List, [], ◌∷◌, ◌++◌, Bytes, length,
  append_assoc, length-append, ap, arith,
}
use apex_forge_night_script.Token.{Token, tok_string, tok_char, tok_eof}
use apex_forge_night_script.Lexer.Cursor.{
  Lexer, is_at_end, start_of, TokenList, no_tokens, list_push,
}
use apex_forge_night_script.Lexer.Moves.{Moves, Moves-cons, Moves-length, Moves-shrinks}
use apex_forge_night_script.Lexer.Positions.{newlines, last_line, At, At-start, Moves-At}
use apex_forge_night_script.Lexer.Result.{
  Result, ok, out_of_fuel, Yields, value, Yields-if, Yields-map, Yields-bind, Yields-ok,
  Yields-out_of_fuel,
}
use apex_forge_night_script.Lexer.Scan.{eof_at, skip_blank, tokenize_loop, lexer_tokenize}
use apex_forge_night_script.Lexer.Scan.Progress.{Scans, next_token-Yields}
use apex_forge_night_script.Lexer.Skip.Total.{skip-total, IsToken}

-- Token `t` of `src` begins behind `before`, whose newlines and last line are its line and column.
-- Its bytes lie within the source, and begin right there unless it is a string or a character.
pub record TokenAt (src : Bytes) (t : Token) : Type 0 where
  pub before : Bytes
  pub after : Bytes
  pub splits : src ≡ before ++ after
  pub line_is : t.line ≡ newlines before + 1
  pub col_is : t.col ≡ length (last_line before) + 1
  pub begins : length before ≤ t.start
  pub exact : t.kind ≢ tok_string → t.kind ≢ tok_char → t.start ≡ length before
  pub ends : t.start + t.len ≤ length src

-- The tokens stand in the source one behind the other from `from` on, and the end of the source is
-- the last of them and no other.
abbrev pub Stream : Bytes → ℕ → List Token → Type 0
Stream src from [] = ⊥
Stream src from (t ∷ []) = TokenAt src t × (from ≤ t.start) × (t.kind ≡ tok_eof)
Stream src from (t ∷ u ∷ ts) =
    TokenAt src t × (from ≤ t.start) × (t.kind ≢ tok_eof) × Stream src (t.start + t.len) (u ∷ ts)

Stream-cons :
    (src : Bytes) (from : ℕ) (t : Token) (ts : List Token)
    → TokenAt src t
    → from ≤ t.start
    → t.kind ≢ tok_eof
    → Stream src (t.start + t.len) ts
    → Stream src from (t ∷ ts)
Stream-cons src from t [] a b c d = absurd d
Stream-cons src from t (u ∷ ts) a b c d = (a, b, c, d)

At-length : {src : Bytes} {l : Lexer} → At src l → l.pos ≤ length src
At-length {src} {l} a = omega (arith, a.pos_is, ap length a.splits, length-append a.read l.rest)

eof-TokenAt : (src : Bytes) (l : Lexer) → At src l → TokenAt src (eof_at l)
eof-TokenAt src l a = record {
  before = a.read;
  after = l.rest;
  splits = a.splits;
  line_is = a.line_is;
  col_is = a.col_is;
  begins = omega (arith, a.pos_is);
  exact = λ _ _. a.pos_is;
  ends = omega (arith, At-length a);
}

Scans-TokenAt :
    (src : Bytes) (l : Lexer) (r : Token × Lexer)
    → At src l
    → At src r.1
    → Scans l r
    → TokenAt src r.0
Scans-TokenAt src l r a b x = record {
  before = a.read;
  after = l.rest;
  splits = a.splits;
  line_is = x.line_is ∙ a.line_is;
  col_is = x.col_is ∙ a.col_is;
  begins = omega (arith, x.begins, a.pos_is);
  exact = λ p q. x.exact p q ∙ a.pos_is;
  ends = omega (arith, x.ends, At-length b);
}

skip_blank-Yields : (l : Lexer) → Yields (λ m. Moves l m × IsToken m) (skip_blank l)
unfolding skip_blank
skip_blank-Yields l =
    let s = skip-total (length l.rest + 1) l (omega arith) in rw s.skips (value (s.moves, s.stops))

-- What the loop adds to the list.
record Adds (src : Bytes) (from : ℕ) (out : TokenList) (tl : TokenList) : Type 0 where
  new : List Token
  appends : tl.tokens ≡ out.tokens ++ new
  stream : Stream src from new

list_push-tokens : (tl : TokenList) (t : Token) → (list_push tl t).tokens ≡ tl.tokens ++ t ∷ []
unfolding list_push
list_push-tokens tl t = refl

Adds-last :
    {src : Bytes} {from : ℕ} {out : TokenList} (t : Token)
    → TokenAt src t
    → from ≤ t.start
    → t.kind ≡ tok_eof
    → Adds src from out (list_push out t)
Adds-last {out = out} t a b c = record {
  new = t ∷ [];
  appends = list_push-tokens out t;
  stream = (a, b, c);
}

Adds-push :
    {src : Bytes} {from next : ℕ} {out tl : TokenList} (t : Token)
    → TokenAt src t
    → from ≤ t.start
    → t.kind ≢ tok_eof
    → next ≡ t.start + t.len
    → Adds src next (list_push out t) tl
    → Adds src from out tl
Adds-push {src} {from} {out = out} t a b c e r = record {
  new = t ∷ r.new;
  appends =
      r.appends
      ∙ (ap (λ ts. ts ++ r.new) (list_push-tokens out t) ∙ append_assoc out.tokens (t ∷ []) r.new);
  stream = Stream-cons src from t r.new a b c (rw e at r.stream);
}

Yields-push :
    {src : Bytes} {from next : ℕ} {out : TokenList} {run : Result TokenList} (t : Token)
    → TokenAt src t
    → from ≤ t.start
    → t.kind ≢ tok_eof
    → next ≡ t.start + t.len
    → Yields (Adds src next (list_push out t)) run
    → Yields (Adds src from out) run
Yields-push t a b c e = Yields-map λ tl r. Adds-push t a b c e r

tokenize_loop-Yields :
    (src : Bytes) (fuel : ℕ) (l : Lexer) (out : TokenList)
    → length l.rest < fuel
    → At src l
    → Yields (Adds src l.pos out) (tokenize_loop fuel l out)
unfolding tokenize_loop
tokenize_loop-Yields src zero l out h a = absurd (omega arith)
tokenize_loop-Yields src (suc fuel) l out h a = Yields-bind (skip_blank-Yields l) λ m (to_m, _).
    let b = Moves-At a to_m in
    Yields-if (is_at_end m)
      (λ t.
        value (Adds-last (eof_at m) (eof-TokenAt src m b) (omega (arith, Moves-length to_m)) refl))
      λ more. Yields-bind (next_token-Yields m more) λ (t, n) x.
        let c = Moves-At b (Moves-cons more x.moves) in
        Yields-push t (Scans-TokenAt src m (t, n) b c x)
          (omega (arith, x.begins, Moves-length to_m)) x.no_eof (sym x.ends)
          (tokenize_loop-Yields src fuel n (list_push out t)
            (omega (arith, Moves-shrinks to_m more x.moves)) c)

lexer_tokenize-Yields : (src : Bytes) → Yields (λ tl. Stream src 0 tl.tokens) (lexer_tokenize src)
unfolding lexer_tokenize
lexer_tokenize-Yields src =
    Yields-map (λ tl r. rw r.appends r.stream)
      (tokenize_loop-Yields src (length src + 1) (start_of src) no_tokens (omega arith)
        (At-start src))

-- The fuel that `lexer_tokenize` hands out is enough for every source: the loop ends, with tokens
-- or with one of the errors.
pub lexer_tokenize-total : (src : Bytes) → lexer_tokenize src ≢ out_of_fuel
lexer_tokenize-total src = Yields-out_of_fuel (lexer_tokenize-Yields src)

-- If a source is accepted, each token's line and column are those of a place in the source, and
-- its bytes lie within the source, at that place unless it is a string or a character; the tokens
-- follow one another without overlap; and the end of the source is the last token and no other.
pub lexer_tokenize-Stream :
    (src : Bytes) {tl : TokenList} → lexer_tokenize src ≡ ok tl → Stream src 0 tl.tokens
lexer_tokenize-Stream src = Yields-ok (lexer_tokenize-Yields src)
