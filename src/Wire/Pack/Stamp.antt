-- ===== src/Wire/Pack/Stamp.antt =====
-- What a mesh hop writes into a frame: the hop index, LAST_HOP and a CRC that matches.
use zcmesh.Base.{
  ℕ, ◌+◌, ◌%◌, ◌<◌, min, ◌≡◌, refl, arith, Bool, true, false, not, ◌&&◌, bit_and, if◌then◌else◌,
  ◌==◌, holds_below, holds_below_lem,
}
use zcmesh.Wire.Frame.{Frame, IsFrame, flag_last_hop, wire_magic, wire_version}
use zcmesh.Wire.Pack.{seal, verify_frame, stamp_flags, apply_hop_stamp}
use zcmesh.Wire.Pack.Verify.{verify_frame-seal}

-- `(frame.flags & LAST_HOP) != 0`
unfoldable pub is_last_hop : Frame → Bool
is_last_hop f = not (bit_and f.flags flag_last_hop == 0)

-- the flags but LAST_HOP
abbrev pub other_flags : ℕ → ℕ
other_flags flags = bit_and flags 0xFD

flags_ok : Bool → ℕ → Bool
flags_ok last x =
    (bit_and (stamp_flags x last) 2 == (if last then 2 else 0))
    && (other_flags (stamp_flags x last) == other_flags x)
    && (stamp_flags x last % 256 == stamp_flags x last)

flags_table : (last : Bool) → holds_below (flags_ok last) 256 ≡ true
unfolding holds_below flags_ok stamp_flags
flags_table true = refl
flags_table false = refl

stamp_flags_lem :
    (last : Bool) (x : ℕ)
    → x < 256
    → (bit_and (stamp_flags x last) 2 ≡ (if last then 2 else 0))
      × (other_flags (stamp_flags x last) ≡ other_flags x)
      × (stamp_flags x last < 256)
stamp_flags_lem last x h =
    let t = holds_below_lem (flags_ok last) 256 x h (flags_table last) in
    unfold flags_ok in ground (arith, t)

-- Of a frame whose fields fit and whose magic and version are right, the stamp adds one to the
-- hop index up to 255, sets LAST_HOP exactly if the hop is final, keeps the other flags and
-- fields, and the result verifies.
pub apply_hop_stamp_lem :
    (f : Frame) (last : Bool)
    → IsFrame f
    → f.magic ≡ wire_magic
    → f.version ≡ wire_version
    → let g = apply_hop_stamp f last in
      (verify_frame g ≡ true)
      × (g.reserved ≡ min 255 (f.reserved + 1))
      × (is_last_hop g ≡ last)
      × (other_flags g.flags ≡ other_flags f.flags)
      × (g.seq ≡ f.seq)
      × (g.timestamp_lo ≡ f.timestamp_lo)
      × (g.node_id ≡ f.node_id)
      × (g.sensor_type ≡ f.sensor_type)
      × (g.raw_value ≡ f.raw_value)
unfolding apply_hop_stamp
apply_hop_stamp_lem f last v m ver =
    let t = stamp_flags_lem last f.flags v.flags_fits in
    (
      verify_frame-seal _ m ver,
      unfold seal in ground arith,
      unfold seal is_last_hop in ground (arith, t),
      unfold seal in t.1,
      unfold seal in refl,
      unfold seal in refl,
      unfold seal in refl,
      unfold seal in refl,
      unfold seal in refl,
    )
