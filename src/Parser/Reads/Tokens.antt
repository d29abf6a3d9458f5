-- ===== src/Parser/Reads/Tokens.antt =====
-- How far the one-token steps move: compiler/src/parser/parser.c, lines 22-66.
use apex_forge_night_script.Base.{ℕ, ◌+◌, ◌≤◌, ◌≡◌, List, ◌∷◌, arith}
use apex_forge_night_script.Token.{TokenKind, Token}
use apex_forge_night_script.Parser.State.{
  Parser, left, next_pos, cur, prev, skip_token, in_array, ahead, check, report, intern,
  package_name, ParseMessage,
}
use apex_forge_night_script.Parser.Reads.Core.{ends, faults, Reads, Ends-list, Ends-option}

pub length-next :
    (p : Parser) {t : Token} {ts : List Token} → p.rest ≡ t ∷ ts → left (next_pos p) + 1 ≡ left p
length-next p e = rw e (omega arith)

pub Reads-cur : {n : ℕ} → Reads n 0 cur
unfolding cur
Reads-cur = record { at = λ p l. Ends-list p.rest (λ e. faults) λ t ts e. ends (omega arith) }

pub Reads-prev : {n : ℕ} → Reads n 0 prev
unfolding prev
Reads-prev = record { at = λ p l. Ends-option p.last faults λ t. ends (omega arith) }

pub Reads-skip_token : {n d : ℕ} → d ≤ 1 → Reads n d skip_token
unfolding skip_token
Reads-skip_token h = record {
  at = λ p l.
      Ends-list p.rest (λ e. faults)
        λ t ts e. let k = length-next p e in ends (omega (arith, k, h));
}

pub Reads-skip : {n : ℕ} → Reads n 0 skip_token
Reads-skip = Reads-skip_token (omega arith)

pub Reads-skip_strict : {n : ℕ} → Reads n 1 skip_token
Reads-skip_strict = Reads-skip_token (omega arith)

pub Reads-check : {n : ℕ} (k : TokenKind) → Reads n 0 (check k)
unfolding check
Reads-check k = record { at = λ p l. Ends-list p.rest (λ e. faults) λ t ts e. ends (omega arith) }

pub Reads-in_array : {n : ℕ} → Reads n 0 in_array
unfolding in_array
Reads-in_array = record {
  at = λ p l. Ends-list p.rest (λ e. ends (omega arith)) λ t ts e. ends (omega arith);
}

pub Reads-ahead : {n : ℕ} → Reads n 0 ahead
unfolding ahead
Reads-ahead = record { at = λ p l. ends (omega arith) }

pub Reads-report : {n : ℕ} (t : Token) (m : ParseMessage) → Reads n 0 (report t m)
unfolding report
Reads-report t m = record { at = λ p l. ends (omega arith) }

pub Reads-intern : {n : ℕ} (t : Token) → Reads n 0 (intern t)
unfolding intern
Reads-intern t = record { at = λ p l. ends (omega arith) }

pub Reads-package_name : {n : ℕ} → Reads n 0 package_name
unfolding package_name
Reads-package_name = record { at = λ p l. ends (omega arith) }
