-- ===== src/Witnesses/ArenaRuns.antt =====
-- The theorems on the arena, at a concrete arena.
use apex_forge_night_script.Base.{ℕ, ◌+◌, ◌≤◌, ◌<◌, ◌≡◌, refl, [], ◌∷◌, codes, arith}
use apex_forge_night_script.Arena.{Arena, Allocation, arena_alloc, arena_strdup}
use apex_forge_night_script.Arena.Spans.{
  IsInside, Extends, byte_of, arena_alloc-IsInside, arena_alloc-Extends, arena_strdup-byte_of,
}

abbrev unset_bytes : ℕ → ℕ
unset_bytes i = 205

-- One block of 16 bytes, 8 of them in use.
abbrev one_block : Arena
one_block = record { used = 8; cap = 16; bytes = λ i. 1 } ∷ []

arena_alloc-IsInside_example : IsInside 5 (arena_alloc unset_bytes one_block 5)
arena_alloc-IsInside_example =
    arena_alloc-IsInside unset_bytes one_block 5 (omega arith)
      ((omega arith, omega arith, refl), tt)

arena_alloc-Extends_example : Extends one_block (arena_alloc unset_bytes one_block 5)
arena_alloc-Extends_example =
    arena_alloc-Extends unset_bytes one_block 5 (omega arith) ((omega arith, omega arith, refl), tt)

abbrev night : Allocation
night = arena_strdup unset_bytes one_block (codes "night")

arena_strdup-byte_of_example :
    (night.head.bytes (night.offset + 1) ≡ byte_of (codes "night") 1)
    × (night.offset + 1 < night.head.used)
    × (night.head.used ≤ night.head.cap)
    × Extends one_block night
arena_strdup-byte_of_example =
    arena_strdup-byte_of unset_bytes one_block (codes "night") 1 (omega arith)
      ((omega arith, omega arith, refl), tt) (omega arith)
