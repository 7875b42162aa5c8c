-- ===== src/Edge/Loop/Flushing.antt =====
-- Flushes over every transport, and turns of the loop of `main` in core-engine/src/main.cpp, on a
-- valid batch.
use zcmesh.Base.{ℕ, ◌+◌, ◌%◌, ◌^◌, ◌≡◌, ◌≢◌, inl, inr, refl, arith, Bool, true, false, some, List}
use zcmesh.Base.{Bool-cases, ◌∙◌}
use zcmesh.Wire.Frame.{SensorSample}
use zcmesh.Wire.Pack.{pack_frame_into}
use zcmesh.Net.Api.{Endpoint, IsTcp}
use zcmesh.Batch.{FrameBatch, adapt, push, full, flush_tcp_retry}
use zcmesh.Batch.Validity.{IsValid, adapt-IsValid, push-IsValid}
use zcmesh.Batch.Drain.{Flushed, flush_tcp_retry-Flushed}
use zcmesh.Edge.{
  EdgeApi, EdgeState, Transport, tcp_mode, udp_mode, mesh_mode, auto_mode, taped, try_connect,
  fail_over, flush_over_tcp, flush_auto, flush_batch, should_drop,
}
use zcmesh.Edge.Mesh.{flush_udp_mesh-empty, flush_udp_direct-empty}
use zcmesh.Edge.Failover.{fail_over_lem}
use zcmesh.Edge.Loop.{
  Options, refused, LoopState, drain, after_push, take_sample, turn, first_flags,
}

pub adapt-count : (b : FrameBatch) (sent : Bool) (ns : ℕ) → (adapt b sent ns).count ≡ b.count
unfolding adapt
adapt-count b sent ns = ground arith

pub push-room :
    (b : FrameBatch) (sample : SensorSample)
    → full b ≡ false
    → (push b sample).0 ≡ some (pack_frame_into sample)
unfolding push
push-room b sample room = rw room refl

module _ {W : Type 0} (api : EdgeApi W) (laws : IsTcp api.tcp) where
  -- The batch is valid after a flush, and empty where the flush answers true.
  abbrev pub IsDone : Bool × EdgeState (taped api) → Type 0
  IsDone r = IsValid r.1.batch × (r.0 ≡ true → r.1.batch.count ≡ 0)

  sent_all :
      (b : FrameBatch) (sent : Bool) (ns : ℕ) (stream : List ℕ) (b0 : FrameBatch) (w : W × List ℕ)
      → Flushed b0 stream (sent, b, w)
      → IsValid (adapt b sent ns) × (sent ≡ true → (adapt b sent ns).count ≡ 0)
  sent_all b sent ns stream b0 w (bytes, v, inl (all, none_left, start)) =
      (adapt-IsValid b sent ns v, λ e. adapt-count b sent ns ∙ none_left)
  sent_all b sent ns stream b0 w (bytes, v, inr (part, kept, grows)) =
      (adapt-IsValid b sent ns v, λ e. absurd (ground (arith, e, part)))

  emptied :
      (sent : Bool) (b : FrameBatch) (stream : List ℕ) (b0 : FrameBatch) (w : W × List ℕ)
      → Flushed b0 stream (sent, b, w)
      → sent ≡ true
      → b.count ≡ 0
  emptied sent b stream b0 w (bytes, v, inl (all, none_left, start)) e = none_left
  emptied sent b stream b0 w (bytes, v, inr (part, kept, grows)) e =
      absurd (ground (arith, e, part))

  flush_over_tcp-IsDone :
      (op : Endpoint) (t0 : ℕ) (s : EdgeState (taped api))
      → IsValid s.batch
      → IsDone (flush_over_tcp (taped api) op t0 s)
  unfolding flush_over_tcp
  flush_over_tcp-IsDone op t0 s v =
      let (_, gate, w1) = try_connect (taped api) s.gate op s.world in
      let (sent, b, w2) = flush_tcp_retry (taped api).tcp s.batch 128 w1 in
      let f = flush_tcp_retry-Flushed api.tcp laws 128 s.batch w1.0 w1.1 v in
      elim (Bool-cases ((taped api).tcp.connected w1)) [
        | inl up ↦ rw (up, flush_over_tcp) (sent_all b sent _ w1.1 s.batch w2 f)
        | inr down ↦
            rw (down, flush_over_tcp)
              (adapt-IsValid s.batch false _ v, λ e. absurd (ground (arith, e)))
      ]

  fail_over-IsDone :
      (node_id t0 : ℕ) (s : EdgeState (taped api))
      → IsValid s.batch
      → IsDone (fail_over (taped api) node_id t0 s)
  fail_over-IsDone node_id t0 s v =
      let ((none_left, start, v'), rest) = fail_over_lem (taped api) node_id t0 s v in
      (v', λ e. none_left)

  flush_auto-IsDone :
      (op : Endpoint) (node_id t0 : ℕ) (s : EdgeState (taped api))
      → IsValid s.batch
      → IsDone (flush_auto (taped api) op node_id t0 s)
  unfolding flush_auto
  flush_auto-IsDone op node_id t0 s v =
      let (_, gate, w1) = try_connect (taped api) s.gate op s.world in
      let (sent, b, w2) = flush_tcp_retry (taped api).tcp s.batch 64 w1 in
      let f = flush_tcp_retry-Flushed api.tcp laws 64 s.batch w1.0 w1.1 v in
      elim (Bool-cases ((taped api).tcp.connected w1)) [
        | inl up ↦ elim (Bool-cases sent) [
          | inl all ↦
              rw (up, all, flush_auto)
                (
                  adapt-IsValid b true _ f.1,
                  λ e. adapt-count b true _ ∙ emptied sent b w1.1 s.batch w2 f all,
                )
          | inr some_left ↦
              rw (up, some_left, flush_auto)
                (fail_over-IsDone node_id t0 (record s { batch = b; gate = gate; world = w2 }) f.1)
        ]
        | inr down ↦
            rw (down, flush_auto)
              (fail_over-IsDone node_id t0 (record s { gate = gate; world = w1 }) v)
      ]

  -- Over every transport.
  pub flush_batch-IsDone :
      (transport : Transport) (op : Endpoint) (node_id : ℕ) (s : EdgeState (taped api))
      → IsValid s.batch
      → IsDone (flush_batch (taped api) transport op node_id s)
  unfolding flush_batch
  flush_batch-IsDone udp_mode op node_id s v =
      let (none_left, start, v') =
        flush_udp_direct-empty (taped api) op s.batch ((taped api).monotonic_ns s.world).1 v in
      (v', λ e. none_left)
  flush_batch-IsDone mesh_mode op node_id s v =
      let (none_left, start, v') =
        flush_udp_mesh-empty (taped api) s.router node_id s.batch
          ((taped api).monotonic_ns s.world).1 v in
      (v', λ e. none_left)
  flush_batch-IsDone tcp_mode op node_id s v =
      let (t0, w0) = (taped api).monotonic_ns s.world in
      flush_over_tcp-IsDone op t0 (record s { world = w0 }) v
  flush_batch-IsDone auto_mode op node_id s v =
      let (t0, w0) = (taped api).monotonic_ns s.world in
      flush_auto-IsDone op node_id t0 (record s { world = w0 }) v

  module _ (o : Options) where
    drain_lem :
        (s : LoopState (taped api) o)
        → IsValid s.edge.batch
        → let (go, s') = drain (taped api) o s in
          IsValid s'.edge.batch × (go ≡ true → full s'.edge.batch ≡ false)
    unfolding drain
    drain_lem s v =
        let (v', done) = flush_batch-IsDone o.transport o.operator o.node_id s.edge v in
        ground (arith, v'.flush_pos, v'.flush_le, done)

    after_push-IsValid :
        (s : LoopState (taped api) o)
        → IsValid s.edge.batch
        → IsValid (after_push (taped api) o s).edge.batch
    unfolding after_push
    after_push-IsValid s v =
        let (v', done) = flush_batch-IsDone o.transport o.operator o.node_id s.edge v in
        ground (arith, v')

    take_sample_lem :
        (sensor raw : ℕ) (s : LoopState (taped api) o)
        → IsValid s.edge.batch
        → full s.edge.batch ≡ false
        → let (outcome, s') = take_sample (taped api) o sensor raw s in
          IsValid s'.edge.batch × (outcome ≢ refused)
    unfolding take_sample
    take_sample_lem sensor raw s v room =
        let (now, w) = (taped api).monotonic_ns s.edge.world in
        let sample : SensorSample = record {
          seq = s.seq;
          timestamp_ns = now;
          node_id = o.node_id;
          sensor_type = sensor;
          flags = first_flags o.transport;
          reserved = 0;
          raw_value = raw;
        } in
        let b = (push s.edge.batch sample).1 in
        let pushed : LoopState (taped api) o = record s {
          edge = record (s.edge) { batch = b; world = w };
          seq = (s.seq + 1) % 2 ^ 32;
        } in
        elim (Bool-cases (should_drop s.seq o.drop_pct)) [
          | inl lost ↦ rw lost (v, λ e. absurd (ground (arith, e)))
          | inr kept ↦
              rw (kept, push-room s.edge.batch sample room)
                (
                  after_push-IsValid pushed (push-IsValid s.edge.batch sample v),
                  λ e. absurd (ground (arith, e)),
                )
        ]

    -- Over a TCP client with the client laws, a turn of the edge's loop from a valid batch leaves
    -- the batch valid in every transport mode, and the batch never refuses the turn's sample.
    pub turn_lem :
        (sensor raw : ℕ) (s : LoopState (taped api) o)
        → IsValid s.edge.batch
        → let (outcome, s') = turn (taped api) o sensor raw s in
          IsValid s'.edge.batch × (outcome ≢ refused)
    unfolding turn
    turn_lem sensor raw s v =
        let (go, s') = drain (taped api) o s in
        let (v', room) = drain_lem s v in
        elim (Bool-cases go) [
          | inl on ↦ rw (on, turn) (take_sample_lem sensor raw s' v' (room on))
          | inr back ↦ rw (back, turn) (v', λ e. absurd (ground (arith, e)))
        ]
