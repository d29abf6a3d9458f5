-- ===== src/Arena/Spans.antt =====
-- The spans that the arena of compiler/src/common/arena.c hands out.
use apex_forge_night_script.Base.{
  ℕ, ◌+◌, ◌%◌, ◌≤◌, ◌<◌, ◌≡◌, refl, ◌∙◌, false, ◌&&◌, [], ◌∷◌, Bytes, ltb, leb, length, arith, All,
  Bool-cases, inl, inr, zero, suc, case_option, get_elem?,
}
use apex_forge_night_script.Arena.{
  ArenaBlock, Arena, Allocation, size_limit, block_size, wrap, align, zero_range, new_block,
  take_span, alloc_aligned, arena_alloc, write_text, arena_strdup,
}

-- The largest capacity that is spoken of, a half of what an address can count.
abbrev pub half : ℕ
half = 9223372036854775808

abbrev pub BlockFits : ArenaBlock → Type 0
BlockFits b = (b.used ≤ b.cap) × (b.cap ≤ half) × (b.used % 8 ≡ 0)

wrap_small : (n : ℕ) → n < size_limit → wrap n ≡ n
wrap_small n h = omega (arith, h)

align_bounds : (n : ℕ) → n + 8 ≤ half → (n ≤ align n) × (align n < n + 8) × (align n % 8 ≡ 0)
unfolding align
align_bounds n h =
    let e = wrap_small (n + 7) (omega (arith, h)) in rw e (omega arith, omega arith, omega arith)

take_span_fits :
    (b : ArenaBlock) (older : Arena) (n : ℕ)
    → BlockFits b
    → b.used + n ≤ b.cap
    → n % 8 ≡ 0
    → ((take_span b older n).offset + (take_span b older n).size ≤ (take_span b older n).head.cap)
      × BlockFits (take_span b older n).head
unfolding take_span
take_span_fits b older n (f, g, k) h e =
    let w = wrap_small (b.used + n) (omega (arith, g, h)) in
    (h, (rw w h, g, rw w (omega (arith, k, e))))

-- What an allocation must be: a span inside its block, aligned to 8 bytes, in an arena whose blocks
-- are again in order.
abbrev pub IsInside : ℕ → Allocation → Type 0
IsInside size m =
    (size ≤ m.size)
    × (m.offset + m.size ≤ m.head.cap)
    × (m.offset % 8 ≡ 0)
    × BlockFits m.head
    × All BlockFits m.older

take_span-IsInside :
    (b : ArenaBlock) (older : Arena) (n : ℕ)
    → BlockFits b
    → b.used + n ≤ b.cap
    → n % 8 ≡ 0
    → All BlockFits older
    → IsInside n (take_span b older n)
unfolding take_span
take_span-IsInside b older n (f, g, k) h e c =
    let (x, y) = take_span_fits b older n (f, g, k) h e in (omega arith, x, k, y, c)

new_block_fits :
    (unset : ℕ → ℕ) (n : ℕ)
    → n ≤ half
    → BlockFits (new_block unset n) × ((new_block unset n).used + n ≤ (new_block unset n).cap)
new_block_fits unset n h = elim (Bool-cases (ltb block_size n)) [
  | inl e ↦ rw e ((omega arith, h, refl), omega arith)
  | inr e ↦ rw e ((omega arith, omega arith, refl), ground (arith, e))
]

alloc_aligned-IsInside :
    (unset : ℕ → ℕ) (a : Arena) (n : ℕ)
    → n < half
    → n % 8 ≡ 0
    → All BlockFits a
    → IsInside n (alloc_aligned unset a n)
unfolding alloc_aligned
alloc_aligned-IsInside unset [] n h e c =
    let (f, g) = new_block_fits unset n (omega (arith, h)) in
    take_span-IsInside (new_block unset n) [] n f g e c
alloc_aligned-IsInside unset (b ∷ bs) n h e ((f, g, k), cs) =
    let (x, y) = new_block_fits unset n (omega (arith, h)) in
    let w = wrap_small (b.used + n) (omega (arith, f, g, h)) in
    elim (Bool-cases (ltb b.cap (wrap (b.used + n)))) [
      | inl t ↦ rw t (take_span-IsInside (new_block unset n) (b ∷ bs) n x y e ((f, g, k), cs))
      | inr t ↦ rw t (take_span-IsInside b bs n (f, g, k) (ground (arith, t, w)) e cs)
    ]

-- An allocation whose size is 8 bytes or more below half the address space, in an arena whose blocks
-- are in order and none larger than that half, is a span of at least that size inside its block, at an offset that is a
-- multiple of 8, and leaves the blocks in order.
pub arena_alloc-IsInside :
    (unset : ℕ → ℕ) (a : Arena) (size : ℕ)
    → size + 8 ≤ half
    → All BlockFits a
    → IsInside size (arena_alloc unset a size)
unfolding arena_alloc
arena_alloc-IsInside unset a size h c =
    let (f, g, k) = align_bounds size h in
    let (x, y, z, v, w) = alloc_aligned-IsInside unset a (align size) (omega (arith, g, h)) k c in
    (omega (arith, x, f), y, z, v, w)

-- Where the span lies: at the start of a block of its own, or in the newest block behind what was in
-- use, whose bytes stay as they are. What is in use then ends with the span.
pub data Extends (a : Arena) (m : Allocation) : Type 0 where
  in_new : m.older ≡ a → m.offset ≡ 0 → m.head.used ≡ m.size → Extends a m
  in_head :
      {b : ArenaBlock}
      → a ≡ b ∷ m.older
      → m.offset ≡ b.used
      → m.head.used ≡ b.used + m.size
      → m.head.cap ≡ b.cap
      → ((i : ℕ) → i < b.used → m.head.bytes i ≡ b.bytes i)
      → Extends a m

zero_range-before :
    (cap offset size : ℕ) (bytes : ℕ → ℕ) (i : ℕ)
    → i < offset
    → zero_range cap offset size bytes i ≡ bytes i
zero_range-before cap offset size bytes i h = ground (arith, h)

alloc_aligned-Extends :
    (unset : ℕ → ℕ) (a : Arena) (n : ℕ)
    → n < half
    → All BlockFits a
    → Extends a (alloc_aligned unset a n)
unfolding alloc_aligned take_span
alloc_aligned-Extends unset [] n h c = in_new refl refl (omega (arith, h))
alloc_aligned-Extends unset (b ∷ bs) n h ((f, g, k), cs) =
    elim (Bool-cases (ltb b.cap (wrap (b.used + n)))) [
      | inl t ↦ rw t (in_new refl refl (omega (arith, h)))
      | inr t ↦ rw t (
          in_head refl refl (wrap_small (b.used + n) (omega (arith, f, g, h))) refl
            (zero_range-before b.cap b.used n b.bytes))
    ]

-- No allocation touches what was handed out before. One whose size is 8 bytes or more below half the
-- address space, in an arena whose blocks are in order and none larger than that half, keeps the older
-- blocks and takes a block of its own from the start, or takes the newest block's bytes right behind
-- those in use, which stay as they are; and the bytes in use then end with the new span, so that the
-- next one lies behind it.
pub arena_alloc-Extends :
    (unset : ℕ → ℕ) (a : Arena) (size : ℕ)
    → size + 8 ≤ half
    → All BlockFits a
    → Extends a (arena_alloc unset a size)
unfolding arena_alloc
arena_alloc-Extends unset a size h c =
    let (f, g, k) = align_bounds size h in
    alloc_aligned-Extends unset a (align size) (omega (arith, g, h)) c

-- What is in use ends with the span.
Extends-used : (a : Arena) (m : Allocation) → Extends a m → m.head.used ≡ m.offset + m.size
Extends-used a m (in_new o z u) = omega (arith, z, u)
Extends-used a m (in_head o z u c k) = omega (arith, z, u)

-- The byte of a C string at an index up to its length.
abbrev pub byte_of : Bytes → ℕ → ℕ
byte_of text i = case_option (get_elem? text i) 0 λ c. c

write_text-byte_of :
    (cap : ℕ) (text : Bytes) (offset : ℕ) (bytes : ℕ → ℕ) (i : ℕ)
    → i ≤ length text
    → offset + length text < cap
    → write_text cap text offset bytes (offset + i) ≡ byte_of text i
unfolding write_text
write_text-byte_of cap [] offset bytes i h k = ground (arith, h, k)
write_text-byte_of cap (c ∷ cs) offset bytes zero h k = ground (arith, k)
write_text-byte_of cap (c ∷ cs) offset bytes (suc i) h k =
    let rest =
      write_text-byte_of cap cs (offset + 1) bytes i (omega (arith, h)) (omega (arith, k)) in
    let same : offset + suc i ≡ offset + 1 + i = omega arith in
    let apart : (ltb (offset + suc i) cap
          && leb offset (offset + suc i)
          && leb (offset + suc i) offset)
        ≡ false =
      ground arith in
    rw apart (rw same rest)

write_text-before :
    (cap : ℕ) (text : Bytes) (offset : ℕ) (bytes : ℕ → ℕ) (i : ℕ)
    → i < offset
    → write_text cap text offset bytes i ≡ bytes i
unfolding write_text
write_text-before cap [] offset bytes i h = ground (arith, h)
write_text-before cap (c ∷ cs) offset bytes i h =
    let rest = write_text-before cap cs (offset + 1) bytes i (omega (arith, h)) in
    ground (arith, h, rest)

strdup-Extends :
    (unset : ℕ → ℕ) (a : Arena) (text : Bytes)
    → Extends a (arena_alloc unset a (length text + 1))
    → Extends a (arena_strdup unset a text)
unfolding arena_strdup
strdup-Extends unset a text (in_new o z u) = in_new o z u
strdup-Extends unset a text (in_head o z u c k) =
    let m = arena_alloc unset a (length text + 1) in
    in_head o z u c
      λ i l. write_text-before m.head.cap text m.offset m.head.bytes i (omega (arith, z, l)) ∙ k i l

-- A copy of a text that is 9 bytes or more shorter than half the address space, in an arena whose blocks
-- are in order and none larger than that half, has each byte of the text and its terminator in the
-- bytes that the arena has in use then, which end inside the block; and it touches nothing that was
-- handed out before.
pub arena_strdup-byte_of :
    (unset : ℕ → ℕ) (a : Arena) (text : Bytes) (i : ℕ)
    → length text + 9 ≤ half
    → All BlockFits a
    → i ≤ length text
    → ((arena_strdup unset a text).head.bytes ((arena_strdup unset a text).offset + i)
        ≡ byte_of text i)
      × ((arena_strdup unset a text).offset + i < (arena_strdup unset a text).head.used)
      × ((arena_strdup unset a text).head.used ≤ (arena_strdup unset a text).head.cap)
      × Extends a (arena_strdup unset a text)
unfolding arena_strdup
arena_strdup-byte_of unset a text i h c l =
    let m = arena_alloc unset a (length text + 1) in
    let (wide, inside, whole, fits, rest) =
      arena_alloc-IsInside unset a (length text + 1) (omega (arith, h)) c in
    let extends = arena_alloc-Extends unset a (length text + 1) (omega (arith, h)) c in
    let used = Extends-used a m extends in
    (
      write_text-byte_of m.head.cap text m.offset m.head.bytes i l (omega (arith, wide, inside)),
      omega (arith, used, wide, l),
      omega (arith, used, inside),
      strdup-Extends unset a text extends,
    )
