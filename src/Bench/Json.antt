-- ===== src/Bench/Json.antt =====
-- How long the lines of core-engine/src/bench.cpp are, and the benchmark as a whole.
use zcmesh.Base.{
  ℕ, zero, suc, ◌+◌, ◌-◌, ◌/◌, ◌%◌, ◌^◌, ◌≤◌, ◌<◌, ◌≡◌, ap, arith, Bool-cases, inl, inr, some, ◌∷◌,
  [], length, length-append, ltb,
}
use zcmesh.Wire.Frame.{SensorSample}
use zcmesh.Net.Endpoints.Printing.{decimal}
use zcmesh.Inspect.Arguments.Raws.{raw_text}
use zcmesh.Arena.{Arena}
use zcmesh.Bench.{json_line, encode_json, bench_sample, bench_json, bench_sums, bench}
use zcmesh.Bench.Packing.{IsRoomy, sums, bench_pack_lem}

length-decimal : (n x : ℕ) → (1 ≤ length (decimal n x)) × (length (decimal n x) ≤ suc n)
length-decimal zero x = (omega arith, omega arith)
length-decimal (suc n) x = elim (Bool-cases (ltb x 10)) [
  | inl low ↦ rw low (omega arith, omega arith)
  | inr high ↦
      let ih = length-decimal n (x / 10) in
      let size = length-append (decimal n (x / 10)) ((48 + x % 10) ∷ []) in
      rw high (omega (arith, size, ih), omega (arith, size, ih))
]

length-raw_text : (x : ℕ) → (1 ≤ length (raw_text x)) × (length (raw_text x) ≤ 11)
length-raw_text x = elim (Bool-cases (ltb x (2 ^ 31))) [
  | inl low ↦ rw low (omega (arith, length-decimal 9 x), omega (arith, length-decimal 9 x))
  | inr high ↦
      let size = length-decimal 9 (2 ^ 32 - x) in rw high (omega (arith, size), omega (arith, size))
]

encode_json-bounds : (s : SensorSample) → (44 ≤ encode_json s) × (encode_json s ≤ 88)
unfolding json_line
encode_json-bounds s =
    let t = length-decimal 19 s.timestamp_ns in
    let n = length-decimal 4 s.node_id in
    let k = length-decimal 2 s.sensor_type in
    let v = length-raw_text s.raw_value in
    let q = length-decimal 9 s.seq in
    (
      omega (arith, length-append {0}, t, n, k, v, q),
      omega (arith, length-append {0}, t, n, k, v, q),
    )

-- Between a frame and the buffer of 256 characters.
abbrev pub IsLineLength : ℕ → Type 0
IsLineLength n = (44 ≤ n) × (n ≤ 88)

bench_json-IsLineLength :
    (t0 left i sink n : ℕ) → IsLineLength n → IsLineLength (bench_json t0 left i sink n).1
unfolding bench_json
bench_json-IsLineLength t0 zero i sink n h = h
bench_json-IsLineLength t0 (suc left) i sink n h =
    bench_json-IsLineLength t0 left (i + 1) _ (encode_json (bench_sample t0 i))
      (encode_json-bounds (bench_sample t0 i))

bench_json-some : (t0 left i sink n : ℕ) → 0 < left → IsLineLength (bench_json t0 left i sink n).1
unfolding bench_json
bench_json-some t0 zero i sink n h = absurd (omega arith)
bench_json-some t0 (suc left) i sink n h =
    bench_json-IsLineLength t0 left (i + 1) _ (encode_json (bench_sample t0 i))
      (encode_json-bounds (bench_sample t0 i))

-- Of a slab of 64 MiB that ends before 2^63, the benchmark packs any positive number of rounds
-- without an exception, with a sink that is the exclusive or of their checksums when the JSON
-- loop starts, and its last JSON line has 44 to 88 characters, more than a frame and less than
-- its buffer.
pub bench_lem :
    (base t0 iters : ℕ)
    → base + 67108864 < 2 ^ 63
    → 0 < iters
    → (bench base t0 iters ≡ some (bench_json t0 iters 0 (sums t0 iters 0 0) 0))
      × IsLineLength (bench_json t0 iters 0 (sums t0 iters 0 0) 0).1
unfolding bench
bench_lem base t0 iters low some_rounds =
    let a : Arena = record { base = base; capacity = 67108864; offset = 0 } in
    let v : IsRoomy a =
      (record { used_le = omega arith; end_fits = omega arith }, omega arith, omega arith) in
    let (a', packed, v') = bench_pack_lem t0 iters 0 0 a v in
    (ap (bench_sums t0 iters) packed, bench_json-some t0 iters 0 (sums t0 iters 0 0) 0 some_rounds)
