-- ===== src/Bench.antt =====
-- core-engine/src/bench.cpp without its timing: packing into an arena that is reset, and the JSON line that
-- it is compared with. `pack_frame` is that of core-engine/src/frame.cpp.
pub mod Packing
pub mod Json
use zcmesh.Base.{
  ℕ, zero, suc, ◌+◌, ◌*◌, ◌%◌, ◌^◌, bit_xor, Option, none, some, List, [], ◌∷◌, ◌++◌, length, ltb,
  get_or, if◌then◌else◌,
}
use zcmesh.Wire.Frame.{Frame, SensorSample, wire_frame_size}
use zcmesh.Wire.Pack.{pack_frame_into}
use zcmesh.Arena.{Arena, Allocated, block, invalid_alignment, bad_alloc, alloc, remaining, reset}
use zcmesh.Options.{codes}
use zcmesh.Net.Endpoints.Printing.{decimal}
use zcmesh.Inspect.Arguments.Raws.{raw_text}

abbrev pub packed_at : SensorSample → Allocated → Option (ℕ × Frame × Arena)
packed_at sample (block at a) = some (at, pack_frame_into sample, a)
packed_at sample invalid_alignment = none
packed_at sample bad_alloc = none

-- The address, the frame there and the arena; none where `alloc` throws. The struct is packed.
unfoldable pub pack_frame : Arena → SensorSample → Option (ℕ × Frame × Arena)
pack_frame a sample = packed_at sample (alloc a wire_frame_size 1 1)

-- The sample of a round.
abbrev pub bench_sample : ℕ → ℕ → SensorSample
bench_sample t0 i = record {
  seq = i % 2 ^ 32;
  timestamp_ns = (t0 + i) % 2 ^ 64;
  node_id = 1;
  sensor_type = 0;
  flags = 0;
  reserved = 0;
  raw_value = i % 2 ^ 16;
}

abbrev pub make_room : Arena → Arena
make_room a = if ltb (remaining a) (wire_frame_size * 8) then reset a else a

-- The first loop from round `i` on, with the rounds left: `sink` and the arena, or none for an exception.
pub bench_pack : ℕ → ℕ → ℕ → Arena → ℕ → Option (ℕ × Arena)
bench_pack t0 zero i a sink = some (sink, a)
bench_pack t0 (suc left) i a sink = elim (pack_frame (make_room a) (bench_sample t0 i)) [
  | none ↦ none
  | some (at, f, a') ↦ bench_pack t0 left (i + 1) a' (bit_xor sink f.checksum)
]

-- What `snprintf` of `encode_json` writes: the value is an int32_t, the other fields are unsigned.
unfoldable pub json_line : SensorSample → List ℕ
json_line s =
    codes "{\"ts\":"
    ++ (decimal 19 s.timestamp_ns
        ++ (codes ",\"node\":"
            ++ (decimal 4 s.node_id
                ++ (codes ",\"type\":"
                    ++ (decimal 2 s.sensor_type
                        ++ (codes ",\"value\":"
                            ++ (raw_text s.raw_value
                                ++ (codes ",\"seq\":" ++ (decimal 9 s.seq ++ codes "}")))))))))

-- The answer of `encode_json`: the length of the line, also where the buffer is smaller.
abbrev pub encode_json : SensorSample → ℕ
encode_json s = length (json_line s)

-- The second loop: `sink` and `json_bytes`.
pub bench_json : ℕ → ℕ → ℕ → ℕ → ℕ → ℕ × ℕ
bench_json t0 zero i sink json_bytes = (sink, json_bytes)
bench_json t0 (suc left) i sink json_bytes =
    let line = json_line (bench_sample t0 i) in
    let n = encode_json (bench_sample t0 i) in
    bench_json t0 left (i + 1) (bit_xor sink (bit_xor (get_or line 0 0) (n % 2 ^ 32))) n

-- Both loops over `iters` rounds; the arena has 64 MiB from `base` on.
abbrev pub bench_sums : ℕ → ℕ → Option (ℕ × Arena) → Option (ℕ × ℕ)
bench_sums t0 iters none = none
bench_sums t0 iters (some (sink, a)) = some (bench_json t0 iters 0 sink 0)

unfoldable pub bench : ℕ → ℕ → ℕ → Option (ℕ × ℕ)
bench base t0 iters =
    bench_sums t0 iters
      (bench_pack t0 iters 0 (record { base = base; capacity = 67108864; offset = 0 }) 0)
