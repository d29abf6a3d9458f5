-- ===== src/Arena.antt =====
-- The arena: compiler/src/common/arena.c and arena.h. An arena is the list of its blocks, the newest
-- first. A block is its capacity, the number of its bytes that are used, and its bytes. What a new
-- block holds, which is malloc's affair, is the parameter `unset`; malloc does not fail. Sizes are
-- `size_t` of 64 bits, so that sums wrap around; `& ~7` clears the three low bits. A block has no bytes
-- from its capacity on: a write there, which in the code would be outside the memory that malloc gave,
-- is lost, and a text written there is not read back.
pub mod Spans
use apex_forge_night_script.Base.{
  ℕ, ◌+◌, ◌-◌, ◌%◌, Bool, ◌&&◌, List, [], ◌∷◌, Bytes, ltb, leb, if◌then◌else◌, length,
}

pub record ArenaBlock : Type 0 where
  pub used : ℕ
  pub cap : ℕ
  pub bytes : ℕ → ℕ

abbrev pub Arena : Type 0
Arena = List ArenaBlock

abbrev pub arena_init : Arena
arena_init = []

abbrev pub size_limit : ℕ
size_limit = 18446744073709551616

abbrev pub block_size : ℕ
block_size = 65536

abbrev pub wrap : ℕ → ℕ
wrap n = n % size_limit

unfoldable pub align : ℕ → ℕ
align size = wrap (size + 7) - wrap (size + 7) % 8

-- `memset(ptr, 0, size)` at an offset of a block with `cap` bytes
abbrev pub zero_range : ℕ → ℕ → ℕ → (ℕ → ℕ) → ℕ → ℕ
zero_range cap offset size bytes i =
    if ltb i cap && leb offset i && ltb i (offset + size) then 0 else bytes i

abbrev pub new_block : (ℕ → ℕ) → ℕ → ArenaBlock
new_block unset size = record {
  used = 0;
  cap = if ltb block_size size then size else block_size;
  bytes = unset;
}

-- A span of memory, at an offset of the newest block, and the arena that holds it.
pub record Allocation : Type 0 where
  pub offset : ℕ
  pub size : ℕ
  pub head : ArenaBlock
  pub older : Arena

-- The head with the next `size` bytes taken and cleared.
unfoldable pub take_span : ArenaBlock → Arena → ℕ → Allocation
take_span b older size = record {
  offset = b.used;
  size = size;
  head = record {
    used = wrap (b.used + size);
    cap = b.cap;
    bytes = zero_range b.cap b.used size b.bytes;
  };
  older = older;
}

-- `size` is aligned.
unfoldable pub alloc_aligned : (ℕ → ℕ) → Arena → ℕ → Allocation
unfolding take_span
alloc_aligned unset [] size = take_span (new_block unset size) [] size
alloc_aligned unset (b ∷ bs) size =
    if ltb b.cap (wrap (b.used + size))
    then take_span (new_block unset size) (b ∷ bs) size
    else take_span b bs size

unfoldable pub arena_alloc : (ℕ → ℕ) → Arena → ℕ → Allocation
unfolding align alloc_aligned
arena_alloc unset a size = alloc_aligned unset a (align size)

-- `memcpy(p, s, len); p[len] = 0` in a block with `cap` bytes
unfoldable pub write_text : ℕ → Bytes → ℕ → (ℕ → ℕ) → ℕ → ℕ
write_text cap [] offset bytes i = if ltb i cap && leb offset i && leb i offset then 0 else bytes i
write_text cap (c ∷ cs) offset bytes i =
    let rest = write_text cap cs (offset + 1) bytes i in
    if ltb i cap && leb offset i && leb i offset then c else rest

-- The text is the first `len` bytes of `s`.
unfoldable pub arena_strdup : (ℕ → ℕ) → Arena → Bytes → Allocation
unfolding arena_alloc write_text
arena_strdup unset a text =
    let m = arena_alloc unset a (length text + 1) in
    record m { head = record m.head { bytes = write_text m.head.cap text m.offset m.head.bytes } }
