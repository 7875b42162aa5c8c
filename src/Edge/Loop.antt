-- ===== src/Edge/Loop.antt =====
-- The loop of `main` in core-engine/src/main.cpp, without its pacing and printing; what it reads is an
-- argument.
pub mod Flushing
pub mod Owed
pub mod Delivery
pub mod Sampled
pub mod Run
pub mod Carried
pub mod Worlds
pub mod ToCapture
pub mod Auto
use zcmesh.Base.{
  ℕ, ◌+◌, ◌%◌, ◌^◌, ◌||◌, Bool, true, false, Option, none, some, if◌then◌else◌, inc64, add64,
  bit_and, List, [], ◌∷◌,
}
use zcmesh.Wire.Frame.{SensorSample, flag_last_hop}
use zcmesh.Net.Api.{Endpoint}
use zcmesh.Batch.{FrameBatch, empty, full, should_flush, has_partial_send, push}
use zcmesh.Control.{Received, poll_control}
use zcmesh.Router.{set_hop_skip_mask}
use zcmesh.Edge.{
  EdgeApi, EdgeState, Transport, tcp_mode, udp_mode, mesh_mode, auto_mode, flush_batch, should_drop,
}

-- the options of `main` that the loop reads
pub record Options : Type 0 where
  pub transport : Transport
  pub operator : Endpoint
  pub node_id : ℕ
  pub drop_pct : ℕ

-- How a turn ends: the batch held back, the sample dropped on purpose, refused by the batch, or taken.
pub data Outcome : Type 0 where
  held dropped refused taken : Outcome

-- A value of a sensor, from the generator, a file or the standard input.
pub record Reading : Type 0 where
  pub sensor : ℕ
  pub raw : ℕ

-- LAST_HOP on a direct uplink only
abbrev pub first_flags : Transport → ℕ
first_flags tcp_mode = flag_last_hop
first_flags udp_mode = flag_last_hop
first_flags mesh_mode = 0
first_flags auto_mode = 0

module _ {W : Type 0} (api : EdgeApi W) (o : Options) where
  pub record LoopState : Type 0 where
    pub edge : EdgeState api
    pub seq : ℕ
    pub sent_ok : ℕ
    pub sent_fail : ℕ
    pub dropped_count : ℕ

  abbrev pub flush : EdgeState api → Bool × EdgeState api
  flush e = flush_batch api o.transport o.operator o.node_id e

  -- The drain before a sample is read; false is `continue`.
  unfoldable pub drain : LoopState → Bool × LoopState
  drain s =
      let b = s.edge.batch in
      let (ok, e) = flush s.edge in
      let sent = record s { edge = e; sent_ok = add64 s.sent_ok b.count } in
      if should_flush b || has_partial_send b || full b
      then (if ok
          then (true, sent)
          else if empty e.batch
          then (true, sent)
          else (false, record s { edge = e; sent_fail = inc64 s.sent_fail }))
      else (true, s)

  -- The flush after a sample, where the batch asks for one.
  unfoldable pub after_push : LoopState → LoopState
  after_push s =
      let b = s.edge.batch in
      let (ok, e) = flush s.edge in
      if should_flush b || full b
      then (if ok
          then record s { edge = e; sent_ok = add64 s.sent_ok b.count }
          else if empty e.batch
          then record s { edge = e; sent_fail = add64 s.sent_fail b.count }
          else record s { edge = e })
      else s

  -- A sample of a sensor; `seq` is a uint32_t.
  unfoldable pub take_sample : ℕ → ℕ → LoopState → Outcome × LoopState
  take_sample sensor raw s =
      let next = (s.seq + 1) % 2 ^ 32 in
      let (now, w) = api.monotonic_ns s.edge.world in
      let sample : SensorSample = record {
        seq = s.seq;
        timestamp_ns = now;
        node_id = o.node_id;
        sensor_type = sensor;
        flags = first_flags o.transport;
        reserved = 0;
        raw_value = raw;
      } in
      let (slot, b) = push s.edge.batch sample in
      let pushed = record s { edge = record (s.edge) { batch = b; world = w }; seq = next } in
      let flushed = after_push pushed in
      if should_drop s.seq o.drop_pct
      then (dropped, record s { seq = next; dropped_count = inc64 s.dropped_count })
      else elim slot [ none ↦ (refused, pushed) | some f ↦ (taken, flushed) ]

  -- The skip file at the top of a turn; `none` where the option is not given, 0 where the file has no
  -- positive number or does not open.
  unfoldable pub read_skip_file : Option ℕ → LoopState → LoopState
  read_skip_file none s = s
  read_skip_file (some v) s =
      let (ok, router) = set_hop_skip_mask s.edge.router o.node_id (bit_and v 0xFF) in
      record s { edge = record (s.edge) { router = router } }

  -- The flush at the end of the program.
  unfoldable pub finish : LoopState → LoopState
  finish s = let (ok, e) = flush s.edge in if empty s.edge.batch then s else record s { edge = e }

  unfoldable pub turn : ℕ → ℕ → LoopState → Outcome × LoopState
  turn sensor raw s =
      let (go, s') = drain s in
      let after = take_sample sensor raw s' in if go then after else (held, s')

  -- What the top of a turn reads: the datagrams of the control socket, none where it is off, and the
  -- number of the skip file.
  pub record Polled : Type 0 where
    pub datagrams : List Received
    pub skip_file : Option ℕ

  unfoldable pub poll : Polled → LoopState → LoopState
  poll p s =
      let router = poll_control p.datagrams s.edge.router in
      read_skip_file p.skip_file (record s { edge = record (s.edge) { router = router } })

  -- The state after one turn, the samples not yet read, and whether the loop goes on: it ends where it
  -- would read a sample and there is none.
  unfoldable pub iterate : Polled → List Reading → LoopState → Bool × List Reading × LoopState
  iterate p readings s =
      let (go, s') = drain (poll p s) in
      if go
      then elim readings [
        | [] ↦ (false, [], s')
        | r ∷ rs ↦ (true, rs, (take_sample r.sensor r.raw s').1)
      ]
      else (true, readings, s')

  -- The loop and the flush behind it, with one `Polled` for each turn until the duration is over.
  pub run : List Polled → List Reading → LoopState → LoopState
  run [] readings s = finish s
  run (p ∷ []) readings s = finish (poll p s)
  run (p ∷ q ∷ ps) readings s =
      let (on, rest, s') = iterate p readings s in
      let later = run (q ∷ ps) rest s' in if on then later else finish s'
