-- ===== src/Edge/Launch/Memory.antt =====
-- The arena of core-engine/src/main.cpp: what of its batch fits in it.
use zcmesh.Base.{
  ℕ, ◌+◌, ◌*◌, ◌%◌, ◌^◌, ◌<◌, ◌≡◌, refl, ◌∙◌, ap, arith, true, false, inl, inr, none, some, leb,
  if◌then◌else◌,
}
use zcmesh.Arena.{Arena, Allocated, block, allocate, alloc}
use zcmesh.Arena.Blocks.{IsArena, Placed, next_aligned, allocate_lem}
use zcmesh.Edge.Launch.{arena_bytes, batch_block, routes_block, start_memory}

-- The batch behind the used part of the arena.
batch_block-lem :
    (routes batch_size at size : ℕ) (a : Arena) (r : Allocated)
    → at ≡ a.base + a.offset
    → a.capacity ≡ arena_bytes
    → Placed a at size r
    → batch_block routes batch_size r
      ≡ (if leb (a.offset + size) arena_bytes then some (routes, at) else none)
batch_block-lem routes batch_size at size a r here cap_same (inl (over, e)) =
    let long : leb (a.offset + size) arena_bytes ≡ false = ground arith in rw (e, long) refl
batch_block-lem routes batch_size at size a r here cap_same (inr (a', e, at_end, same, kept, v)) =
    let short : leb (a.offset + size) arena_bytes ≡ true =
      ground (arith, v.used_le, at_end, same, kept) in
    rw (e, short) refl

allocate_frames :
    (routes batch_size : ℕ) (a : Arena)
    → IsArena a
    → a.capacity ≡ arena_bytes
    → a.base + arena_bytes < 2 ^ 63
    → 24 * batch_size < 2 ^ 62
    → batch_block routes batch_size (alloc a 24 1 batch_size) ≡ (
        if leb (a.offset + 24 * batch_size) arena_bytes
        then some (routes, a.base + a.offset)
        else none)
allocate_frames routes batch_size a v cap_same fits small =
    let size = 24 * batch_size in
    let (from, below, placed) = allocate_lem a size 0 v (omega arith) (omega arith) in
    let at : next_aligned a 0 ≡ a.base + a.offset = omega arith in
    let whole : size % 2 ^ 64 ≡ size = omega arith in
    ap (λ n. batch_block routes batch_size (allocate a n 1)) whole
    ∙ batch_block-lem routes batch_size (next_aligned a 0) size a (allocate a size 1) at cap_same
        placed
    ∙ ap (λ n. if leb (a.offset + size) arena_bytes then some (routes, n) else none) at

allocate_routes :
    (base : ℕ)
    → base % 8 ≡ 0
    → base + arena_bytes < 2 ^ 63
    → let a0 : Arena = record { base = base; capacity = arena_bytes; offset = 0 } in
      allocate a0 2048 8 ≡ block base (record a0 { offset = 2048 })
allocate_routes base aligned fits =
    let a0 : Arena = record { base = base; capacity = arena_bytes; offset = 0 } in
    let v0 : IsArena a0 = record { used_le = omega arith; end_fits = omega arith } in
    let (from, below, placed) = allocate_lem a0 2048 3 v0 (omega arith) (omega arith) in
    let at : next_aligned a0 3 ≡ base = omega arith in
    elim placed [
      | inl (over, e) ↦ absurd (omega (arith, over, at))
      | inr (a', e, at_end, same, kept, v) ↦
          let used : a'.offset ≡ 2048 = omega (arith, at_end, same, at) in
          e ∙ ground (arith, at, same, kept, used)
    ]

-- Of a slab that is aligned to 8 and ends before 2^63, and a batch whose 24 bytes for each frame
-- stay below 2^62, the edge's set-up places the routes at the start of its arena and the frames
-- behind them if they are at most 174677, and else ends with std::bad_alloc.
pub start_memory_lem :
    (base batch_size : ℕ)
    → base % 8 ≡ 0
    → base + arena_bytes < 2 ^ 63
    → 24 * batch_size < 2 ^ 62
    → start_memory base batch_size
      ≡ (if leb batch_size 174677 then some (base, base + 2048) else none)
unfolding start_memory
start_memory_lem base batch_size aligned fits small =
    let a1 : Arena = record { base = base; capacity = arena_bytes; offset = 2048 } in
    let v1 : IsArena a1 = record { used_le = omega arith; end_fits = omega arith } in
    ap (routes_block batch_size) (allocate_routes base aligned fits)
    ∙ allocate_frames base batch_size a1 v1 refl fits small
    ∙ ap (λ b. if b then some (base, base + 2048) else none) same_test
  where
    same_test : leb (2048 + 24 * batch_size) arena_bytes ≡ leb batch_size 174677
    same_test = ground arith
