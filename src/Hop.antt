-- ===== src/Hop.antt =====
-- The relay of core-engine/src/hop.cpp: what its loop does with one datagram.
pub mod Relay
pub mod Arguments
pub mod Start
use zcmesh.Base.{
  ℕ, ◌+◌, ◌-◌, ◌*◌, ◌/◌, ◌%◌, ◌^◌, not, Bool, true, false, Option, none, some, List, [], ◌∷◌, ltb,
  leb, ◌==◌, if◌then◌else◌, length, inc64,
}
use zcmesh.Wire.Frame.{Frame, frame_bytes, of_bytes, wire_frame_size}
use zcmesh.Wire.Pack.{verify_frame, apply_hop_stamp}
use zcmesh.Net.Api.{Endpoint, UdpApi}

-- the counters of `main`
pub record HopCounts : Type 0 where
  pub ok : ℕ
  pub drop : ℕ
  pub injected : ℕ

-- `seq` is a uint32_t; the percentage is an int, and 0 stands for all that is not positive.
unfoldable pub should_drop : ℕ → ℕ → Bool
should_drop seq loss_pct =
    let h = seq * 2654435761 % 2 ^ 32 in
    if loss_pct == 0
    then false
    else if leb 100 loss_pct
    then true
    else ltb (h / 2 ^ 24 % 100) loss_pct

module _ {W : Type 0} (udp : UdpApi W) (forward : Endpoint) (loss_pct : ℕ) (final_hop : Bool) where
  -- One turn of the loop; `none` where `recvfrom` fails.
  unfoldable pub relay : Option (List ℕ) → HopCounts → W → HopCounts × W
  relay none c w = (record c { drop = inc64 c.drop }, w)
  relay (some bytes) c w =
      let frame = of_bytes bytes in
      let (ok, w') = udp.send_to forward (frame_bytes (apply_hop_stamp frame final_hop)) w in
      if ltb (length bytes) wire_frame_size
      then (record c { drop = inc64 c.drop }, w)
      else if not (verify_frame frame)
      then (record c { drop = inc64 c.drop }, w)
      else if should_drop frame.seq loss_pct
      then (record c { injected = inc64 c.injected }, w)
      else if ok
      then (record c { ok = inc64 c.ok }, w')
      else (record c { drop = inc64 c.drop }, w')

  -- the loop, over what arrives
  pub relay_all : List (Option (List ℕ)) → HopCounts → W → HopCounts × W
  relay_all [] c w = (c, w)
  relay_all (r ∷ rs) c w = let (c', w') = relay r c w in relay_all rs c' w'
