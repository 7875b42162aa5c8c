-- ===== src/Batch.antt =====
-- core-engine/src/batch.cpp: the slab of frames that the edge fills and drains over TCP.
pub mod Validity
pub mod Contents
pub mod Sending
pub mod Drain
pub mod Pacing
pub mod Kept
use zcmesh.Base.{
  ℕ, zero, suc, ◌+◌, ◌-◌, ◌*◌, ◌/◌, ◌%◌, ◌^◌, min, max, not, ◌||◌, ◌&&◌, Bool, true, false, List,
  [], ◌∷◌, ◌++◌, Option, none, some, ltb, leb, ◌==◌, if◌then◌else◌, length, set, take, drop,
  replicate,
}
use zcmesh.Wire.Frame.{Frame, SensorSample, frame_bytes, of_bytes, wire_frame_size}
use zcmesh.Wire.Pack.{pack_frame_into}
use zcmesh.Net.Api.{TcpApi}

pub record FrameBatch : Type 0 where
  pub frames : List Frame
  pub capacity : ℕ
  pub count : ℕ
  pub send_offset : ℕ
  pub flush_at : ℕ

-- `memset(frames_, 0, …)`
abbrev pub zero_frame : Frame
zero_frame = of_bytes []

unfoldable pub new_batch : ℕ → FrameBatch
new_batch capacity_frames = record {
  frames = replicate capacity_frames zero_frame;
  capacity = capacity_frames;
  count = 0;
  send_offset = 0;
  flush_at = capacity_frames;
}

abbrev pub empty : FrameBatch → Bool
empty b = b.count == 0

abbrev pub full : FrameBatch → Bool
full b = leb b.capacity b.count

abbrev pub should_flush : FrameBatch → Bool
should_flush b = leb b.flush_at b.count

abbrev pub has_partial_send : FrameBatch → Bool
has_partial_send b = ltb 0 b.send_offset

abbrev pub bytes : FrameBatch → ℕ
bytes b = b.count * wire_frame_size % 2 ^ 64

-- The frames held, oldest first, and the bytes of frames that lie one behind the other in memory.
abbrev pub contents : FrameBatch → List Frame
contents b = take b.count b.frames

abbrev pub frames_bytes : List Frame → List ℕ
frames_bytes [] = []
frames_bytes (f ∷ fs) = frame_bytes f ++ frames_bytes fs

-- The slot written, or null; `count_++` stays below the capacity.
unfoldable pub push : FrameBatch → SensorSample → Option Frame × FrameBatch
push b sample =
    let f = pack_frame_into sample in
    if full b
    then (none, b)
    else (some f, record b { frames = set b.frames b.count f; count = b.count + 1 })

unfoldable pub clear : FrameBatch → FrameBatch
clear b = record b { count = 0; send_offset = 0 }

unfoldable pub unsent_frame_index : FrameBatch → ℕ
unsent_frame_index b = b.send_offset / wire_frame_size

unfoldable pub unsent_count : FrameBatch → ℕ
unfolding unsent_frame_index
unsent_count b = let idx = unsent_frame_index b in if leb b.count idx then 0 else b.count - idx

-- the frames from `unsent_frames()` to the end of the slab
unfoldable pub unsent_frames : FrameBatch → List Frame
unfolding unsent_frame_index
unsent_frames b = drop (unsent_frame_index b) b.frames

unfoldable pub note_sent : FrameBatch → ℕ → FrameBatch
note_sent b n =
    if leb (bytes b) b.send_offset
    then b
    else record b { send_offset = min (bytes b) ((b.send_offset + n) % 2 ^ 64) }

unfoldable pub discard_fully_sent : FrameBatch → FrameBatch
unfolding clear
discard_fully_sent b =
    let fully = b.send_offset / wire_frame_size in
    let remain = b.count - fully in
    if fully == 0 then b else if leb b.count fully then clear b else record b {
      frames = take remain (drop fully b.frames) ++ drop remain b.frames;
      count = remain;
      send_offset = 0;
    }

-- How the loop of `flush_tcp` ends; `out_of_fuel` stands for the end of the fuel.
pub data FlushExit : Type 0 where
  drained stalled failed out_of_fuel : FlushExit

module _ {W : Type 0} (tcp : TcpApi W) where
  -- `while (send_offset_ < total)` over the `total` bytes at `frames_`
  pub flush_loop : ℕ → List ℕ → ℕ → ℕ → W → FlushExit × ℕ × W
  flush_loop zero buffer total off w = (out_of_fuel, off, w)
  flush_loop (suc fuel) buffer total off w = elim (ltb off total) [
    | false ↦ (drained, off, w)
    | true ↦
        let (r, w') = tcp.send_nb (take (total - off) (drop off buffer)) w in
        elim r [
          | none ↦ (failed, off, w')
          | some zero ↦ (stalled, off, w')
          | some (suc n) ↦ flush_loop fuel buffer total (off + suc n) w'
        ]
  ]

  pub flush_result : FrameBatch → FlushExit → W → Bool × FrameBatch × W
  flush_result b drained w = (true, clear b, w)
  flush_result b stalled w = (false, b, w)
  flush_result b failed w = (false, b, w)
  flush_result b out_of_fuel w = (false, b, w)

  -- Each round sends a byte at least, so `total + 1` rounds are enough.
  pub flush_tcp : FrameBatch → W → Bool × FrameBatch × W
  flush_tcp b w =
      let (exit, off, w') =
        flush_loop (bytes b + 1) (frames_bytes b.frames) (bytes b) b.send_offset w in
      if empty b || not (tcp.connected w)
      then (false, b, w)
      else flush_result (record b { send_offset = off }) exit w'

  -- the attempts left, from `attempts - i`
  pub flush_tcp_retry : FrameBatch → ℕ → W → Bool × FrameBatch × W
  flush_tcp_retry b zero w = (empty b, b, w)
  flush_tcp_retry b (suc attempts) w =
      let (ok, b', w') = flush_tcp b w in
      let again = flush_tcp_retry b' attempts w' in
      if ok
      then (true, b', w')
      else if not (tcp.connected w')
      then (false, b', w')
      else if empty b'
      then (true, b', w')
      else again

unfoldable pub adapt : FrameBatch → Bool → ℕ → FrameBatch
adapt b fully_sent flush_ns =
    if not fully_sent || ltb 2000000 flush_ns
    then record b { flush_at = max 1 (b.flush_at / 2) }
    else if ltb flush_ns 200000 && ltb b.flush_at b.capacity
    then record b { flush_at = min b.capacity (b.flush_at + 1) }
    else b
