-- ===== src/Arena.antt =====
-- core-engine/src/arena.cpp: the bump allocator. Addresses and sizes are 64-bit numbers; the slab itself
-- is an address.
pub mod Blocks
use zcmesh.Base.{ℕ, ◌+◌, ◌-◌, ◌*◌, ◌%◌, ◌^◌, bit_and, not, ◌||◌, Bool, ltb, ◌==◌, if◌then◌else◌}

pub record Arena : Type 0 where
  pub base : ℕ
  pub capacity : ℕ
  pub offset : ℕ

-- What `allocate` gives: a block, or one of its exceptions.
pub data Allocated : Type 0 where
  block : ℕ → Arena → Allocated
  invalid_alignment bad_alloc : Allocated

abbrev pub remaining : Arena → ℕ
remaining a = (a.capacity + 2 ^ 64 - a.offset) % 2 ^ 64

-- The part behind the alignment: the block is `size` bytes from the address `aligned` on.
unfoldable pub place : Arena → ℕ → ℕ → Allocated
place a aligned size =
    let current = (a.base + a.offset) % 2 ^ 64 in
    let pad = (aligned + 2 ^ 64 - current) % 2 ^ 64 in
    let total = (pad + size) % 2 ^ 64 in
    if ltb (remaining a) total
    then bad_alloc
    else block aligned (record a { offset = (a.offset + total) % 2 ^ 64 })

-- `(current + (alignment - 1)) & ~(alignment - 1)`, where `~(alignment - 1)` is `2^64 - alignment`
abbrev pub align_up : ℕ → ℕ → ℕ
align_up current alignment = bit_and ((current + (alignment - 1)) % 2 ^ 64) (2 ^ 64 - alignment)

unfoldable pub allocate : Arena → ℕ → ℕ → Allocated
allocate a size alignment =
    let current = (a.base + a.offset) % 2 ^ 64 in
    if (alignment == 0) || not (bit_and alignment (alignment - 1) == 0)
    then invalid_alignment
    else place a (align_up current alignment) size

-- `alloc<T>(count)`
abbrev pub alloc : Arena → ℕ → ℕ → ℕ → Allocated
alloc a size_of align_of count = allocate a (size_of * count % 2 ^ 64) align_of

abbrev pub reset : Arena → Arena
reset a = record a { offset = 0 }
