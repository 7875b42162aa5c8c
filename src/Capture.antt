-- ===== src/Capture.antt =====
-- The receiver of core-engine/src/capture.cpp: how it resynchronises a TCP byte stream to frames, and
-- what it does with a datagram.
pub mod Resync
pub mod Searching
pub mod Stream
pub mod Chunks
pub mod Accounting
pub mod Select
pub mod Arguments
pub mod Start
use zcmesh.Base.{
  ℕ, zero, suc, ◌+◌, ◌-◌, ◌/◌, ◌%◌, ◌^◌, not, ◌&&◌, Bool, true, false, Option, none, some, List, [],
  ◌∷◌, ◌++◌, ltb, ◌==◌, if◌then◌else◌, length, drop, get_or, inc64, add64,
}
use zcmesh.Wire.Frame.{Frame, frame_bytes, of_bytes, wire_magic, wire_frame_size}
use zcmesh.Wire.Pack.{verify_frame}

-- `fwrite(bytes, 1, n, out)`: the number of bytes written.
pub record FileApi (W : Type 0) : Type 0 where
  pub fwrite : List ℕ → W → ℕ × W

-- The counters of `main` and the output file's world.
pub record Decoder (W : Type 0) : Type 0 where
  pub ok : ℕ
  pub drop : ℕ
  pub resync : ℕ
  pub out : W

pub data Received : Type 0 where
  would_block closed : Received
  got : List ℕ → Received

-- Is there a magic at the front of the bytes?
abbrev pub at_magic : List ℕ → Bool
at_magic bs = get_or bs 0 0 == wire_magic % 256 && get_or bs 1 0 == wire_magic / 256 % 256

-- The loop of `find_magic` at the index `i`, over the bytes from there on: `i <= len - 24` says that 24
-- of them are left.
pub find_from : List ℕ → ℕ → Option ℕ
find_from [] i = none
find_from (b ∷ bs) i =
    let later = find_from bs (i + 1) in
    if ltb (length (b ∷ bs)) wire_frame_size
    then none
    else if at_magic (b ∷ bs)
    then some i
    else later

unfoldable pub find_magic : List ℕ → ℕ → Option ℕ
find_magic bytes from = find_from (drop from bytes) from

module _ {W : Type 0} (file : FileApi W) where
  unfoldable pub append_frame : Frame → Decoder W → Decoder W
  append_frame frame d =
      let (n, out) = file.fwrite (frame_bytes frame) d.out in
      if n == wire_frame_size
      then record d { ok = inc64 d.ok; out = out }
      else record d { out = out }

  -- The body of the loop once a magic stands at `magic`: the next position.
  unfoldable pub decode_at : List ℕ → ℕ → ℕ → Decoder W → ℕ × Decoder W
  decode_at stream pos magic d =
      let moved = if ltb pos magic then record d { resync = add64 d.resync (magic - pos) } else d in
      let frame = of_bytes (drop magic stream) in
      if not (verify_frame frame)
      then (magic + 1, record moved { drop = inc64 moved.drop; resync = inc64 moved.resync })
      else (magic + wire_frame_size, append_frame frame moved)

  -- `break` of the loop: no magic in the rest, of which 23 bytes are kept.
  unfoldable pub give_up : List ℕ → ℕ → Decoder W → ℕ × Decoder W
  give_up stream pos d =
      let keep = wire_frame_size - 1 in
      let n = length stream in
      if ltb keep (n - pos)
      then (n - keep, record d { resync = add64 d.resync (n - pos - keep) })
      else (pos, d)

  -- The loop, on fuel; `pos` is at most the length.
  pub decode_loop : ℕ → List ℕ → ℕ → Decoder W → ℕ × Decoder W
  decode_loop zero stream pos d = (pos, d)
  decode_loop (suc fuel) stream pos d =
      if ltb (length stream - pos) wire_frame_size then (pos, d) else elim (find_magic stream pos) [
        | none ↦ give_up stream pos d
        | some magic ↦
            let (next, d') = decode_at stream pos magic d in decode_loop fuel stream next d'
      ]

  -- What is left of the stream, and the counters. Each turn moves `pos`, so the stream's length is
  -- enough fuel.
  unfoldable pub decode_tcp_stream : List ℕ → Decoder W → List ℕ × Decoder W
  decode_tcp_stream stream d =
      let (pos, d') = decode_loop (length stream) stream 0 d in
      ((if ltb 0 pos then drop pos stream else stream), d')

  -- The state of the client connection, its stream and the counters.
  pub record Session : Type 0 where
    pub client : Bool
    pub stream : List ℕ
    pub decoder : Decoder W

  -- A new connection replaces the old one and what was left of its stream.
  unfoldable pub on_accept : Session → Session
  on_accept s = record s { client = true; stream = if s.client then [] else s.stream }

  unfoldable pub on_client : Received → Session → Session
  on_client would_block s = s
  on_client closed s = record s { client = false; stream = [] }
  on_client (got bytes) s =
      let (stream, decoder) = decode_tcp_stream (s.stream ++ bytes) s.decoder in
      record s { stream = stream; decoder = decoder }

  -- A datagram of `length bytes` bytes; `none` where `recvfrom` fails.
  unfoldable pub on_udp : Option (List ℕ) → Decoder W → Decoder W
  on_udp none d = d
  on_udp (some bytes) d =
      let frame = of_bytes bytes in
      if ltb (length bytes) wire_frame_size
      then (if ltb 0 (length bytes) then record d { drop = inc64 d.drop } else d)
      else if not (verify_frame frame)
      then record d { drop = inc64 d.drop }
      else append_frame frame d
