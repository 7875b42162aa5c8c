-- ===== src/Tests/Wire.antt =====
-- Test frames, and the wire theorems at them.
use zcmesh.Base.{
  ℕ, ◌+◌, ◌%◌, ◌^◌, ◌≡◌, refl, arith, true, false, List, [], ◌∷◌, All, IsByte, set, take, min,
  bit_xor,
}
use zcmesh.Wire.Frame.{Frame, SensorSample, frame_bytes, of_bytes, IsFrame}
use zcmesh.Wire.Pack.{pack_frame_into, verify_frame, apply_hop_stamp, seal}
use zcmesh.Wire.Pack.Verify.{verify_frame-set, verify_frame-pack_frame_into}
use zcmesh.Wire.Pack.Stamp.{apply_hop_stamp_lem, is_last_hop, other_flags}
use zcmesh.Wire.Crc.{crc32, crc_loop, crc_update, crc_table, crc_entries, crc_rounds, crc_round}
use zcmesh.Wire.Crc.Table.{crc32-bitwise, crc_bitwise}

abbrev pub sample : SensorSample
sample = record {
  seq = 42;
  timestamp_ns = 0x1122334455667788;
  node_id = 7;
  sensor_type = 2;
  flags = 2;
  reserved = 0;
  raw_value = 0xFFFFDCD7;
}

-- The bytes of the frame of the sample.
abbrev pub golden : List ℕ
golden =
    0x43 ∷ 0x5A ∷ 0x01 ∷ 0x02 ∷ 0x2A ∷ 0 ∷ 0 ∷ 0 ∷ 0x88 ∷ 0x77 ∷ 0x66 ∷ 0x55 ∷ 0x07 ∷ 0 ∷ 0x02 ∷ 0
    ∷ 0xD7 ∷ 0xDC ∷ 0xFF ∷ 0xFF ∷ 0x89 ∷ 0x84 ∷ 0xEC ∷ 0xFD ∷ []

abbrev pub golden_frame : Frame
golden_frame = of_bytes golden

golden_bytes : frame_bytes (pack_frame_into sample) ≡ golden
unfolding frame_bytes pack_frame_into seal crc32 crc_loop crc_update crc_table crc_entries
    crc_rounds crc_round
golden_bytes = refl

pub golden_good : verify_frame golden_frame ≡ true
unfolding verify_frame of_bytes frame_bytes crc32 crc_loop crc_update crc_table crc_entries
    crc_rounds crc_round
golden_good = refl

pub golden-IsByte : All IsByte golden
golden-IsByte = ground arith

pub golden-IsFrame : IsFrame golden_frame
unfolding of_bytes
golden-IsFrame = ground arith

crc32-bitwise_example :
    crc32 golden 20 0xFFFFFFFF ≡ bit_xor (crc_bitwise 0xFFFFFFFF (take 20 golden)) 0xFFFFFFFF
crc32-bitwise_example = crc32-bitwise golden 20 0xFFFFFFFF golden-IsByte

-- A changed sample value is detected.
verify_frame-set_example : verify_frame (of_bytes (set golden 16 0xD6)) ≡ false
verify_frame-set_example =
    verify_frame-set golden 16 0xD6 refl golden-IsByte golden_good (omega arith) (omega arith)
      (omega arith)

-- The final hop stamps the frame.
apply_hop_stamp_example :
    let g = apply_hop_stamp golden_frame true in
    (verify_frame g ≡ true)
    × (g.reserved ≡ min 255 (golden_frame.reserved + 1))
    × (is_last_hop g ≡ true)
    × (other_flags g.flags ≡ other_flags golden_frame.flags)
    × (g.seq ≡ golden_frame.seq)
    × (g.timestamp_lo ≡ golden_frame.timestamp_lo)
    × (g.node_id ≡ golden_frame.node_id)
    × (g.sensor_type ≡ golden_frame.sensor_type)
    × (g.raw_value ≡ golden_frame.raw_value)
unfolding of_bytes
apply_hop_stamp_example = apply_hop_stamp_lem golden_frame true golden-IsFrame refl refl

verify_frame-pack_frame_into_example :
    let f = pack_frame_into sample in
    (verify_frame f ≡ true)
    × (f.seq ≡ sample.seq)
    × (f.timestamp_lo ≡ sample.timestamp_ns % 2 ^ 32)
    × (f.node_id ≡ sample.node_id)
    × (f.sensor_type ≡ sample.sensor_type)
    × (f.flags ≡ sample.flags)
    × (f.reserved ≡ sample.reserved)
    × (f.raw_value ≡ sample.raw_value)
verify_frame-pack_frame_into_example = verify_frame-pack_frame_into sample
