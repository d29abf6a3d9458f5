-- ===== src/Lexer/Tests.antt =====
-- The lexer on concrete sources.
use apex_forge_night_script.Base.{◌≡◌, refl, List, [], ◌∷◌, codes, map}
use apex_forge_night_script.Token.{
  TokenKind, tok_fn, tok_ident, tok_int, tok_eof, tok_plus_eq, tok_string, tok_char,
}
use apex_forge_night_script.Lexer.Result.{Result, ok, err, out_of_fuel, unterminated_string}
use apex_forge_night_script.Lexer.Cursor.{TokenList}
use apex_forge_night_script.Lexer.Scan.{lexer_tokenize}

abbrev kinds : Result TokenList → List TokenKind
kinds (ok tl) = map (λ t. t.kind) tl.tokens
kinds (err e l c) = []
kinds out_of_fuel = []

mixed_kinds :
    kinds (lexer_tokenize (codes "fn f/* a /* b */ c */ += 0x1F_f \"a\\n\" 'x' // end"))
    ≡ tok_fn ∷ tok_ident ∷ tok_plus_eq ∷ tok_int ∷ tok_string ∷ tok_char ∷ tok_eof ∷ []
unfolding lexer_tokenize
mixed_kinds = refl

open_string : lexer_tokenize (codes "a\n  \"b") ≡ err unterminated_string 2 3
unfolding lexer_tokenize
open_string = refl
