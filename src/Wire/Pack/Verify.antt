-- ===== src/Wire/Pack/Verify.antt =====
-- Packing and verification: what is packed verifies, and one changed byte is always noticed.
use zcmesh.Base.{
  ℕ, ◌%◌, ◌^◌, ◌<◌, ◌≤◌, ◌≡◌, ◌≢◌, refl, sym, ◌∙◌, ap, arith, true, false, inl, inr, Bool-cases,
  List, length, get_or, set, take, All, All-get_or, All-set, All-take, IsByte, bit_xor, ltb, ltb→lt,
  ltb→le, get_or-set, get_or-take, take-set, set_outside, length-set, length-take,
}
use zcmesh.Wire.Crc.Detect.{crc_loop-set}
use zcmesh.Wire.Layout.{frame_bytes-of_bytes}
use zcmesh.Bits.Masks.{bit_and_u32}
use zcmesh.Bits.Xor.{xor-injective_left}
use zcmesh.Wire.Frame.{Frame, SensorSample, frame_bytes, of_bytes, wire_magic, wire_version}
use zcmesh.Wire.Crc.{crc32, crc_loop}
use zcmesh.Wire.Pack.{seal, pack_frame_into, verify_frame}

-- The CRC covers the 20 bytes before the checksum.
crc32-seal : (f : Frame) → crc32 (frame_bytes (seal f)) 20 0xFFFFFFFF ≡ (seal f).checksum
unfolding seal frame_bytes crc32
crc32-seal f = refl

pub verify_frame-seal :
    (f : Frame) → f.magic ≡ wire_magic → f.version ≡ wire_version → verify_frame (seal f) ≡ true
unfolding verify_frame seal
verify_frame-seal f m v = ground (arith, crc32-seal f)

-- Every packed sample verifies and carries the sample's values, of the timestamp its low 32 bits.
pub verify_frame-pack_frame_into :
    (s : SensorSample)
    → let f = pack_frame_into s in
      (verify_frame f ≡ true)
      × (f.seq ≡ s.seq)
      × (f.timestamp_lo ≡ s.timestamp_ns % 2 ^ 32)
      × (f.node_id ≡ s.node_id)
      × (f.sensor_type ≡ s.sensor_type)
      × (f.flags ≡ s.flags)
      × (f.reserved ≡ s.reserved)
      × (f.raw_value ≡ s.raw_value)
unfolding pack_frame_into
verify_frame-pack_frame_into s = (
  verify_frame-seal _ refl refl,
  unfold seal in refl,
  unfold seal in bit_and_u32 s.timestamp_ns,
  unfold seal in refl,
  unfold seal in refl,
  unfold seal in refl,
  unfold seal in refl,
  unfold seal in refl,
)

verify_frame-crc :
    (f : Frame) → verify_frame f ≡ true → crc32 (frame_bytes f) 20 0xFFFFFFFF ≡ f.checksum
unfolding verify_frame
verify_frame-crc f h = ground arith

-- A buffer that verifies carries the CRC of its first 20 bytes in the last four.
buffer_crc :
    (bs : List ℕ)
    → length bs ≡ 24
    → All IsByte bs
    → verify_frame (of_bytes bs) ≡ true
    → crc32 bs 20 0xFFFFFFFF ≡ (of_bytes bs).checksum
buffer_crc bs n a h =
    ap (λ t. crc32 t 20 0xFFFFFFFF) (sym (frame_bytes-of_bytes bs n a))
    ∙ verify_frame-crc (of_bytes bs) h

-- One byte of the checksum that changes changes the checksum.
checksum-set :
    (bs : List ℕ) (i v : ℕ)
    → length bs ≡ 24
    → All IsByte bs
    → IsByte v
    → 20 ≤ i
    → i < 24
    → (of_bytes (set bs i v)).checksum ≡ (of_bytes bs).checksum
    → v ≡ get_or bs i 0
unfolding of_bytes
checksum-set bs i v n a hv lo hi e = ground (
  arith,
  get_or-set bs i 20 v 0,
  get_or-set bs i 21 v 0,
  get_or-set bs i 22 v 0,
  get_or-set bs i 23 v 0,
  All-get_or IsByte bs 20 0 (omega arith) a,
  All-get_or IsByte bs 21 0 (omega arith) a,
  All-get_or IsByte bs 22 0 (omega arith) a,
  All-get_or IsByte bs 23 0 (omega arith) a,
)

checksum-set_below :
    (bs : List ℕ) (i v : ℕ)
    → i < length bs
    → i < 20
    → (of_bytes (set bs i v)).checksum ≡ (of_bytes bs).checksum
unfolding of_bytes
checksum-set_below bs i v h lo = ground (
  arith,
  get_or-set bs i 20 v 0,
  get_or-set bs i 21 v 0,
  get_or-set bs i 22 v 0,
  get_or-set bs i 23 v 0,
)

crc32-set :
    (bs : List ℕ) (i v : ℕ)
    → length bs ≡ 24
    → All IsByte bs
    → IsByte v
    → i < 20
    → crc32 (set bs i v) 20 0xFFFFFFFF ≡ crc32 bs 20 0xFFFFFFFF
    → v ≡ get_or bs i 0
unfolding crc32
crc32-set bs i v n a hv hi e =
    crc_loop-set (take 20 bs) i v 0xFFFFFFFF (omega (arith, length-take 20 bs)) (omega arith) hv
      (All-take IsByte 20 bs a)
      (ap (crc_loop 0xFFFFFFFF) (sym (take-set 20 bs i v))
        ∙ xor-injective_left 0xFFFFFFFF (crc_loop 0xFFFFFFFF (take 20 (set bs i v)))
            (crc_loop 0xFFFFFFFF (take 20 bs)) e)
    ∙ get_or-take 20 bs i 0 hi

crc32-set_above :
    (bs : List ℕ) (i v : ℕ) → 20 ≤ i → crc32 (set bs i v) 20 0xFFFFFFFF ≡ crc32 bs 20 0xFFFFFFFF
unfolding crc32
crc32-set_above bs i v h =
    ap (λ t. bit_xor (crc_loop 0xFFFFFFFF t) 0xFFFFFFFF)
      (take-set 20 bs i v ∙ set_outside (take 20 bs) i v (omega (arith, length-take 20 bs)))

-- If 24 bytes are a frame that verifies and one of them is replaced by another byte value, the
-- result does not verify.
pub verify_frame-set :
    (bs : List ℕ) (i v : ℕ)
    → length bs ≡ 24
    → All IsByte bs
    → verify_frame (of_bytes bs) ≡ true
    → i < 24
    → IsByte v
    → v ≢ get_or bs i 0
    → verify_frame (of_bytes (set bs i v)) ≡ false
verify_frame-set bs i v n a ok hi hv ne = elim (Bool-cases (verify_frame (of_bytes (set bs i v)))) [
  | inr e ↦ e
  | inl e ↦ absurd (ne (same (length-set bs i v ∙ n) e))
]
  where
    crc_of : crc32 bs 20 0xFFFFFFFF ≡ (of_bytes bs).checksum
    crc_of = buffer_crc bs n a ok

    same :
        length (set bs i v) ≡ 24 → verify_frame (of_bytes (set bs i v)) ≡ true → v ≡ get_or bs i 0
    same n' e =
        let crc_set = buffer_crc (set bs i v) n' (All-set IsByte bs i v hv a) e in
        elim (Bool-cases (ltb i 20)) [
          | inl lo ↦
              crc32-set bs i v n a hv (ltb→lt i 20 lo)
                (crc_set ∙ checksum-set_below bs i v (omega arith) (ltb→lt i 20 lo) ∙ sym crc_of)
          | inr above ↦
              checksum-set bs i v n a hv (ltb→le i 20 above) hi
                (sym crc_set ∙ crc32-set_above bs i v (ltb→le i 20 above) ∙ crc_of)
        ]
