-- ===== src/Arena/Blocks.antt =====
-- The blocks of core-engine/src/arena.cpp: where they lie, and that they do not overlap.
use zcmesh.Base.{
  ℕ, ◌+◌, ◌-◌, ◌*◌, ◌/◌, ◌%◌, ◌^◌, ◌≤◌, ◌<◌, ◌≡◌, ◌⊎◌, inl, inr, refl, arith, bit_and, false,
  Bool-cases, ltb, ltb→lt, ltb→le, ◌==◌,
}
use native.Mathlib.Nat.{mod-add-div', mod-lt}
use zcmesh.Bits.Powers.{bit_and-pow, bit_and-high, pow-pos}
use zcmesh.Arena.{Arena, Allocated, block, bad_alloc, remaining, place, allocate}

-- The slab ends before the address space does.
pub record IsArena (a : Arena) : Type 0 where
  pub used_le : a.offset ≤ a.capacity
  pub end_fits : a.base + a.capacity < 2 ^ 64

-- The first multiple of `2 ^ k` from the end of the used part on.
abbrev pub next_aligned : Arena → ℕ → ℕ
next_aligned a k = (a.base + a.offset + (2 ^ k - 1)) / 2 ^ k * 2 ^ k

-- The block at `at`, or no room for it.
abbrev pub Placed : Arena → ℕ → ℕ → Allocated → Type 0
Placed a at size r =
    ((a.base + a.capacity < at + size) × (r ≡ bad_alloc))
    ⊎ ((a' : Arena) × (r ≡ block at a')
        × (a'.base + a'.offset ≡ at + size)
        × (a'.base ≡ a.base)
        × (a'.capacity ≡ a.capacity)
        × IsArena a')

place_lem :
    (a : Arena) (at size : ℕ)
    → IsArena a
    → a.base + a.offset ≤ at
    → at + size < 2 ^ 64
    → Placed a at size (place a at size)
unfolding place
place_lem a at size v from fits =
    let current : (a.base + a.offset) % 2 ^ 64 ≡ a.base + a.offset =
      omega (arith, v.used_le, v.end_fits) in
    let total : ((at + 2 ^ 64 - (a.base + a.offset) % 2 ^ 64) % 2 ^ 64 + size) % 2 ^ 64
        ≡ at + size - (a.base + a.offset) =
      omega (arith, v.used_le, v.end_fits) in
    let left : remaining a ≡ a.capacity - a.offset = omega (arith, v.used_le, v.end_fits) in
    elim (Bool-cases (ltb (a.capacity - a.offset) (at + size - (a.base + a.offset)))) [
      | inl over ↦
          inl (omega (arith, v.used_le, ltb→lt _ _ over), rw (total, left, over, place) refl)
      | inr room ↦
          let a' : Arena = record a {
            offset = (a.offset + (at + size - (a.base + a.offset))) % 2 ^ 64;
          } in
          let le = ltb→le _ _ room in
          inr (
            a',
            rw (total, left, room, place) refl,
            omega (arith, v.used_le, v.end_fits),
            refl,
            refl,
            record { used_le = omega (arith, v.used_le, v.end_fits); end_fits = v.end_fits },
          )
    ]

-- Of a slab that ends before the address space does, with an alignment 2^k and a size with which
-- no sum wraps, allocate places a block at the first multiple of 2^k behind the used part and
-- ends the used part with the block, within the slab, or fails exactly if the slab has no room
-- for it.
pub allocate_lem :
    (a : Arena) (size k : ℕ)
    → IsArena a
    → k < 64
    → a.base + a.capacity + 2 ^ k + size < 2 ^ 64
    → let at = next_aligned a k in
      (a.base + a.offset ≤ at)
      × (at < a.base + a.offset + 2 ^ k)
      × Placed a at size (allocate a size (2 ^ k))
unfolding allocate
allocate_lem a size k v small fits =
    let p = 2 ^ k in
    let x = a.base + a.offset + (p - 1) in
    let at = next_aligned a k in
    let high : bit_and x (2 ^ 64 - p) ≡ at =
      bit_and-high 64 k x (omega arith) (omega (arith, v.used_le, pow-pos k)) in
    let lower : at + x % p ≡ x = omega (arith, mod-add-div' x p) in
    let less : x % p < p = mod-lt x (pow-pos k) in
    let from : a.base + a.offset ≤ at = omega (arith, lower, less, pow-pos k) in
    let to : at < a.base + a.offset + p = omega (arith, lower, pow-pos k) in
    let current : ((a.base + a.offset) % 2 ^ 64 + (p - 1)) % 2 ^ 64 ≡ x =
      omega (arith, v.used_le, v.end_fits) in
    let some_bits : (p == 0) ≡ false = ground (arith, pow-pos k) in
    (
      from,
      to,
      rw (some_bits, bit_and-pow k, current, high, allocate)
          (place_lem a at size v from (omega (arith, v.used_le))),
    )
