-- ===== src/Wire/Pack/Fits.antt =====
-- The bounds of the fields that core-engine/src/frame.cpp fills.
use zcmesh.Base.{ℕ, ◌^◌, ◌<◌, arith, List, [], ◌∷◌, All, All-take, IsByte, IsWord, take}
use zcmesh.Bits.Masks.{bit_and_u32}
use zcmesh.Bits.Xor.{xor-lt}
use zcmesh.Wire.Frame.{Frame, SensorSample, IsFrame, frame_bytes, crc_payload_len, crc_seed}
use zcmesh.Wire.Crc.{crc32, crc_loop, crc_update}
use zcmesh.Wire.Crc.Detect.{crc_update-IsWord}
use zcmesh.Wire.Pack.{seal, pack_frame_into}

crc_loop-IsWord : (c : ℕ) (ps : List ℕ) → IsWord c → All IsByte ps → IsWord (crc_loop c ps)
unfolding crc_loop
crc_loop-IsWord c [] h a = h
crc_loop-IsWord c (p ∷ ps) h a =
    crc_loop-IsWord (crc_update c p) ps (crc_update-IsWord c p h a.0) a.1

crc32-IsWord :
    (bs : List ℕ) (len seed : ℕ) → All IsByte bs → IsWord seed → IsWord (crc32 bs len seed)
unfolding crc32
crc32-IsWord bs len seed a h =
    xor-lt 32 (crc_loop seed (take len bs)) 0xFFFFFFFF
      (crc_loop-IsWord seed (take len bs) h (All-take IsByte len bs a)) (omega arith)

frame_bytes-IsByte : (f : Frame) → IsFrame f → All IsByte (frame_bytes f)
unfolding frame_bytes
frame_bytes-IsByte f v = ground arith

seal-IsFrame : (f : Frame) → IsFrame f → IsFrame (seal f)
unfolding seal
seal-IsFrame f v =
    let cleared : Frame = record f { checksum = 0 } in
    let fits : IsFrame cleared = ground (arith, v) in
    let crc =
      crc32-IsWord (frame_bytes cleared) crc_payload_len crc_seed (frame_bytes-IsByte cleared fits)
        (omega arith) in
    ground (arith, v, crc)

pub pack_frame_into-IsFrame :
    (s : SensorSample)
    → s.seq < 2 ^ 32
    → s.node_id < 2 ^ 16
    → s.sensor_type < 2 ^ 8
    → s.flags < 2 ^ 8
    → s.reserved < 2 ^ 8
    → s.raw_value < 2 ^ 32
    → IsFrame (pack_frame_into s)
unfolding pack_frame_into
pack_frame_into-IsFrame s seq node sensor flags reserved raw =
    seal-IsFrame _ (ground (arith, bit_and_u32 s.timestamp_ns))
