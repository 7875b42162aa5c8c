-- ===== src/Replay.antt =====
-- core-engine/src/replay.cpp: the pacing, and the program from the bytes of the file on, without its
-- waiting.
pub mod Arguments
pub mod Start
pub mod Sending
pub mod Stream
pub mod Success
pub mod OfCapture
use zcmesh.Base.{
  ℕ, ◌+◌, ◌-◌, ◌%◌, ◌^◌, ◌<◌, ◌≡◌, arith, min, ltb, ◌==◌, if◌then◌else◌, not, List, [], ◌∷◌, inc64,
  zero, suc, take, drop, length, Option, none, some, Bool, true, false, ◌&&◌, ◌*◌,
}
use zcmesh.Wire.Frame.{of_bytes, wire_frame_size}
use zcmesh.Wire.Pack.{verify_frame}
use zcmesh.Zcm.{ZcmHeader, open_capture, read}
use zcmesh.Net.Api.{Endpoint, TcpApi, UdpApi}

-- The arguments are uint32_t.
unfoldable pub delta_ns : ℕ → ℕ → ℕ
delta_ns prev_lo next_lo =
    let d = (next_lo + 2 ^ 32 - prev_lo) % 2 ^ 32 in
    if d == 0 then 0 else if ltb 1000000000 d then 1000000000 else d

-- Of two times less than 2^32 ns apart, delta_ns of their low halves is the time between them, or
-- one second where that is less, also across the rollover.
pub delta_ns_lem :
    (t d : ℕ) → d < 2 ^ 32 → delta_ns (t % 2 ^ 32) ((t + d) % 2 ^ 32) ≡ min d 1000000000
unfolding delta_ns
delta_ns_lem t d h = ground arith

-- The `blob` of the frames behind the header.
abbrev pub read_blob : ℕ → ℕ → List ℕ → Option (ℕ × List ℕ)
read_blob frame_count want left =
    let (blob, rest) = read want left in
    if ltb 0 frame_count
    then (if length blob == want then some (frame_count, blob) else none)
    else some (0, [])

-- The size of the blob is a size_t.
abbrev pub load_opened : Option (ZcmHeader × List ℕ) → Option (ℕ × List ℕ)
load_opened none = none
load_opened (some (hdr, left)) =
    read_blob hdr.frame_count (hdr.frame_count * wire_frame_size % 2 ^ 64) left

abbrev pub load : List ℕ → Option (ℕ × List ℕ)
load text = load_opened (open_capture text)

-- `blob.data() + i * 24` for each frame; what lies behind the blob is not described.
abbrev pub blob_frames : ℕ → List ℕ → List (List ℕ)
blob_frames zero blob = []
blob_frames (suc n) blob = take wire_frame_size blob ∷ blob_frames n (drop wire_frame_size blob)

-- the counters of `main`
pub record Counts : Type 0 where
  pub sent : ℕ
  pub fail : ℕ

module _ {W : Type 0} (tcp : TcpApi W) (udp : UdpApi W) (ep : Endpoint) where
  -- The loop that sends a frame over TCP, from `off`. It waits as long as the socket would block, so
  -- the fuel stands for the program's patience.
  pub send_frame : ℕ → List ℕ → ℕ → W → ℕ × W
  send_frame zero frame off w = (off, w)
  send_frame (suc fuel) frame off w =
      let (r, w') = tcp.send_nb (drop off frame) w in
      if ltb off wire_frame_size
      then elim r [
        | none ↦ (off, w')
        | some zero ↦ send_frame fuel frame off w'
        | some (suc n) ↦ send_frame fuel frame (off + suc n) w'
      ]
      else (off, w)

  -- One frame of the file, whose 24 bytes are `frame`.
  unfoldable pub replay_frame : ℕ → Bool → List ℕ → Counts → W → Counts × W
  replay_frame fuel use_tcp frame c w =
      let (off, w1) = send_frame fuel frame 0 w in
      let (went, w2) = udp.send_to ep frame w in
      let (ok, w') = if◌then◌else◌ {A = Bool × W} use_tcp (off == wire_frame_size, w1) (went, w2) in
      if not (verify_frame (of_bytes frame))
      then (record c { fail = inc64 c.fail }, w)
      else if ok
      then (record c { sent = inc64 c.sent }, w')
      else (record c { fail = inc64 c.fail }, w')

  -- the loop, over the frames of the file
  pub replay_all : ℕ → Bool → List (List ℕ) → Counts → W → Counts × W
  replay_all fuel use_tcp [] c w = (c, w)
  replay_all fuel use_tcp (f ∷ fs) c w =
      let (c', w') = replay_frame fuel use_tcp f c w in replay_all fuel use_tcp fs c' w'

  -- The exit code and what is sent, of the file's bytes; the UDP socket is open.
  unfoldable pub replay_loaded : ℕ → Bool → Option (ℕ × List ℕ) → W → ℕ × Counts × W
  replay_loaded fuel use_tcp none w = (1, record { sent = 0; fail = 0 }, w)
  replay_loaded fuel use_tcp (some (n, blob)) w =
      let (connected, w1) = tcp.connect ep w in
      let start = if use_tcp then w1 else w in
      let (c, w2) =
        replay_all fuel use_tcp (blob_frames n blob) (record { sent = 0; fail = 0 }) start in
      if use_tcp && not connected
      then (1, record { sent = 0; fail = 0 }, w1)
      else ((if c.fail == 0 then 0 else 1), c, w2)

  abbrev pub replay : ℕ → Bool → List ℕ → W → ℕ × Counts × W
  replay fuel use_tcp text w = replay_loaded fuel use_tcp (load text) w
