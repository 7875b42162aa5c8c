-- ===== src/Bench/Packing.antt =====
-- The packing loop of core-engine/src/bench.cpp never meets a full arena.
use zcmesh.Base.{
  ℕ, zero, suc, ◌+◌, ◌-◌, ◌^◌, ◌≤◌, ◌<◌, ◌≡◌, refl, ◌∙◌, ap, arith, Bool-cases, inl, inr, bit_xor,
  some, ltb, ltb→le,
}
use zcmesh.Wire.Frame.{SensorSample}
use zcmesh.Wire.Pack.{pack_frame_into}
use zcmesh.Arena.{Arena, remaining}
use zcmesh.Arena.Blocks.{IsArena, next_aligned, allocate_lem}
use zcmesh.Bench.{packed_at, pack_frame, bench_sample, make_room, bench_pack}

-- Room for eight frames, far from the end of the address space.
abbrev pub IsRoomy : Arena → Type 0
IsRoomy a = IsArena a × (192 ≤ a.capacity) × (a.base + a.capacity < 2 ^ 63)

make_room-lem :
    (a : Arena)
    → IsRoomy a
    → IsRoomy (make_room a) × ((make_room a).offset + 24 ≤ (make_room a).capacity)
make_room-lem a (v, large, low) =
    let left : remaining a ≡ a.capacity - a.offset = omega (arith, v.used_le, v.end_fits) in
    elim (Bool-cases (ltb (a.capacity - a.offset) 192)) [
      | inl full ↦
          rw (left, full)
            ((record { used_le = omega arith; end_fits = v.end_fits }, large, low), omega arith)
      | inr room ↦ rw (left, room) ((v, large, low), omega (arith, v.used_le, ltb→le _ _ room))
    ]

-- Where there is room, the frame is packed right behind the used part.
pack_frame_lem :
    (a : Arena) (sample : SensorSample)
    → IsRoomy a
    → a.offset + 24 ≤ a.capacity
    → (a' : Arena) × (pack_frame a sample ≡ some (a.base + a.offset, pack_frame_into sample, a'))
      × IsRoomy a'
unfolding pack_frame
pack_frame_lem a sample (v, large, low) room =
    let (from, below, placed) = allocate_lem a 24 0 v (omega arith) (omega (arith, low)) in
    let at : next_aligned a 0 ≡ a.base + a.offset = omega arith in
    elim placed [
      | inl (over, e) ↦ absurd (omega (arith, over, at))
      | inr (a', e, at_end, same, kept, v') ↦ (
        a',
        ap (packed_at sample) e ∙ ap (λ n. some (n, pack_frame_into sample, a')) at,
        (v', omega (arith, kept, large), omega (arith, same, kept, low)),
      )
    ]

-- The exclusive or of the checksums of the rounds from `i` on.
pub sums : ℕ → ℕ → ℕ → ℕ → ℕ
sums t0 zero i sink = sink
sums t0 (suc left) i sink =
    sums t0 left (i + 1) (bit_xor sink (pack_frame_into (bench_sample t0 i)).checksum)

pub bench_pack_lem :
    (t0 left i sink : ℕ) (a : Arena)
    → IsRoomy a
    → (a' : Arena) × (bench_pack t0 left i a sink ≡ some (sums t0 left i sink, a')) × IsRoomy a'
unfolding bench_pack sums
bench_pack_lem t0 zero i sink a v = (a, refl, v)
bench_pack_lem t0 (suc left) i sink a v =
    let (v1, room) = make_room-lem a v in
    let (a1, packed, v2) = pack_frame_lem (make_room a) (bench_sample t0 i) v1 room in
    let f = pack_frame_into (bench_sample t0 i) in
    let (a2, rest, v3) = bench_pack_lem t0 left (i + 1) (bit_xor sink f.checksum) a1 v2 in
    (a2, rw (packed, bench_pack) rest, v3)
