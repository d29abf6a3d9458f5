-- ===== src/Base/Text.antt =====
-- Text as the bytes of a C string, without its terminator.
use Prim.Native.Nat.{ℕ}
use Prim.Native.Char.{code}
use Prim.Native.String.{String}
use mathlib.Core.Path.{◌≡◌, refl, ap₂}
use mathlib.Core.Bool.{Bool, true, false, ◌&&◌}
use mathlib.Core.List.{List, [], ◌∷◌}
use native.Mathlib.Omega.{arith}
use apex_forge_night_script.Base.Tests.{◌==◌, ==_iff, &&-eq-true}

abbrev pub Bytes : Type 0
Bytes = List ℕ

-- The code points of a text: its bytes, if it is ASCII.
abbrev pub codes : String → Bytes
codes String.[] = []
codes (String.◌∷◌ c s) = code c ∷ codes s

-- `!strcmp(a, b)`, and `len == strlen(b) && memcmp(a, b, len) == 0`.
abbrev pub beq : Bytes → Bytes → Bool
beq [] [] = true
beq [] (_ ∷ _) = false
beq (_ ∷ _) [] = false
beq (a ∷ as') (b ∷ bs) = a == b && beq as' bs

pub beq→eq : (a b : Bytes) → beq a b ≡ true → a ≡ b
beq→eq [] [] h = refl
beq→eq [] (_ ∷ _) h = cc
beq→eq (_ ∷ _) [] h = cc
beq→eq (x ∷ xs) (y ∷ ys) h =
    let (p, q) = &&-eq-true (x == y) (beq xs ys) h in ap₂ ◌∷◌ ((==_iff x y).0 p) (beq→eq xs ys q)

pub beq_self : (a : Bytes) → beq a a ≡ true
beq_self [] = refl
beq_self (x ∷ xs) = ground (arith, beq_self xs)
