-- ===== src/Parser/Program/AtEnd.antt =====
-- Where a finished parse stands: compiler/src/parser/parser.c, lines 1366-1371.
use apex_forge_night_script.Base.{◌≡◌, true, List, Option, Bytes}
use apex_forge_night_script.Ast.{Node}
use apex_forge_night_script.Token.{Token, tok_eof}
use apex_forge_night_script.Parser.State.{Parser, Parse, Outcome, done, ◌>>=◌, pure}
use apex_forge_night_script.Parser.Gives.{
  Holds, holds, faults, exhausts, Holds-done, continue-Holds, bind-Holds, closed_by,
  until_closed-closed,
}
use apex_forge_night_script.Parser.Program.{parse_program, parse_with, finish, parser_parse}

last_step {ℓ} :
    {A : Type ℓ} {P : Parser → Type 0} (m : Parse A) (f : A → Node) (p : Parser)
    → Holds (λ a q. P q) (m p)
    → Holds (λ n q. P q) ((m >>= λ a. pure (f a)) p)
unfolding pure ◌>>=◌
last_step m f p h = continue-Holds _ h λ a q c. holds c

parse_with-closed :
    (src : Bytes) (tokens : List Token)
    → Holds (λ n q. closed_by tok_eof q ≡ true) (parse_with src tokens)
unfolding parse_with parse_program
parse_with-closed src tokens =
    bind-Holds _ _ _
      λ pkg p. bind-Holds _ _ _ λ imports q. last_step _ _ _ (until_closed-closed tok_eof _ q)

finish-Holds :
    {P : Parser → Type 0} (r : Outcome Node) → Holds (λ n q. P q) r → Holds (λ n q. P q) (finish r)
finish-Holds r (holds h) = holds h
finish-Holds r faults = faults
finish-Holds r exhausts = exhausts

-- A parse that comes back, with a program or with reported errors, has gone through the tokens up to an
-- end token: the current token is there, and it is the end token.
pub parser_parse-closed_by :
    (src : Bytes) (tokens : List Token) (r : Option Node) (p : Parser)
    → parser_parse src tokens ≡ done r p
    → closed_by tok_eof p ≡ true
unfolding parser_parse
parser_parse-closed_by src tokens r p e =
    Holds-done (finish-Holds _ (parse_with-closed src tokens)) e
