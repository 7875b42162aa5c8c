-- ===== src/Wire/Pack.antt =====
-- The frame operations of core-engine/src/frame.cpp. A pointer argument that is checked for null is
-- never null here.
pub mod Verify
pub mod Stamp
pub mod Nibble
pub mod Fits
use zcmesh.Base.{
  ℕ, ◌+◌, ◌-◌, ◌*◌, ◌/◌, ◌%◌, ◌^◌, bit_and, bit_or, not, ◌||◌, Bool, true, false, List, [], ◌∷◌,
  ltb, ◌==◌, if◌then◌else◌, length, set, replicate,
}
use zcmesh.Wire.Frame.{
  Frame, SensorSample, frame_bytes, wire_magic, wire_version, flag_last_hop, crc_payload_len,
  crc_seed,
}
use zcmesh.Wire.Crc.{crc32}

-- `f.checksum = 0; f.checksum = crc32(f, 20)`
unfoldable pub seal : Frame → Frame
seal f =
    let cleared = record f { checksum = 0 } in
    record cleared { checksum = crc32 (frame_bytes cleared) crc_payload_len crc_seed }

unfoldable pub pack_frame_into : SensorSample → Frame
pack_frame_into s = seal (record {
  magic = wire_magic;
  version = wire_version;
  flags = s.flags;
  seq = s.seq;
  timestamp_lo = bit_and s.timestamp_ns 0xFFFFFFFF;
  node_id = s.node_id;
  sensor_type = s.sensor_type;
  reserved = s.reserved;
  raw_value = s.raw_value;
  checksum = 0;
})

unfoldable pub verify_frame : Frame → Bool
verify_frame f =
    if not (f.magic == wire_magic) || not (f.version == wire_version)
    then false
    else crc32 (frame_bytes f) crc_payload_len crc_seed == f.checksum

-- `flags | LAST_HOP` or `flags & ~LAST_HOP`, cast to uint8_t
unfoldable pub stamp_flags : ℕ → Bool → ℕ
stamp_flags flags final_hop =
    if final_hop
    then bit_or flags flag_last_hop % 2 ^ 8
    else bit_and flags (2 ^ 32 - 1 - flag_last_hop) % 2 ^ 8

unfoldable pub apply_hop_stamp : Frame → Bool → Frame
apply_hop_stamp f final_hop =
    let hops = if ltb f.reserved 255 then f.reserved + 1 else f.reserved in
    seal (record f { reserved = hops; flags = stamp_flags f.flags final_hop })

-- the loop of `nibble_pack_i32` from index `i` over the values left
pub nibble_loop : ℕ → List ℕ → List ℕ → List ℕ
nibble_loop i [] out = out
nibble_loop i (x ∷ xs) out =
    let v = bit_and x 0xFFFF % 2 ^ 16 in
    nibble_loop (i + 1) xs (
      set (set out (i * 2) (bit_and v 0xFF % 2 ^ 8)) (i * 2 + 1) (bit_and (v / 2 ^ 8) 0xFF % 2 ^ 8))

-- The 16 bytes at `out16` and the result; `count` is the number of values.
unfoldable pub nibble_pack_i32 : List ℕ → List ℕ → List ℕ × ℕ
unfolding nibble_loop
nibble_pack_i32 values out16 =
    if (length values == 0) || ltb 8 (length values)
    then (out16, 0)
    else (nibble_loop 0 values (replicate 16 0), length values * 2)
