-- ===== src/Edge/Loop/Auto.antt =====
-- `flush_batch` of core-engine/src/main.cpp in auto mode: what the stream has got when the mesh takes over.
use zcmesh.Base.{
  ℕ, ◌+◌, ◌≡◌, ◌⊎◌, refl, sym, ◌∙◌, ap, arith, Bool, true, false, ◌&&◌, Bool-cases, inl, inr, List,
  [], ◌∷◌, ◌++◌, append-nil, take, drop-all, drop, if◌then◌else◌,
}
use zcmesh.Wire.Frame.{Frame, frame_bytes}
use zcmesh.Net.Api.{Endpoint, IsTcp}
use zcmesh.Batch.{
  FrameBatch, adapt, contents, frames_bytes, flush_tcp_retry, unsent_frames, unsent_count,
  discard_fully_sent, has_partial_send,
}
use zcmesh.Batch.Validity.{IsValid}
use zcmesh.Batch.Contents.{pending}
use zcmesh.Batch.Drain.{Flushed, flush_tcp_retry-Flushed}
use zcmesh.Router.{MeshRouter, forward_udp}
use zcmesh.Router.World.{forward_udp-keeps}
use zcmesh.Edge.{
  ReconnectGate, EdgeApi, EdgeState, taped, elapsed, try_connect, forward_all, flush_udp_mesh,
  fail_over, flush_auto,
}
use zcmesh.Edge.Failover.{IsEmptied, FailedOver, fail_over_lem}
use zcmesh.Edge.Loop.Flushing.{adapt-count}
use zcmesh.Edge.Loop.Owed.{pending-adapt, try_connect-tape}

module _ {W : Type 0} (api : EdgeApi W) where
  -- Datagrams put nothing on the stream.
  forward_all-tape :
      (router : MeshRouter) (node_id : ℕ) (fs : List Frame) (now n : ℕ) (w : W × List ℕ)
      → (forward_all (taped api) router node_id fs now n w).2.1 ≡ w.1
  unfolding forward_all
  forward_all-tape router node_id [] now n w = refl
  forward_all-tape router node_id (f ∷ fs) now n w =
      let (ok, router', w') = forward_udp (taped api).udp router node_id (frame_bytes f) now w in
      forward_all-tape router' node_id fs now (if ok then n + 1 else n) w'
      ∙ forward_udp-keeps (taped api).udp (λ w''. w''.1 ≡ w.1) (λ e bytes w'' p. p) router node_id
          (frame_bytes f) now w refl

  flush_udp_mesh-tape :
      (router : MeshRouter) (node_id : ℕ) (b : FrameBatch) (w : W × List ℕ)
      → (flush_udp_mesh (taped api) router node_id b w).3.1 ≡ w.1
  unfolding flush_udp_mesh
  flush_udp_mesh-tape router node_id b w =
      let d = discard_fully_sent b in
      let (now, w1) = (taped api).monotonic_ns w in
      forward_all-tape router node_id (take (unsent_count d) (unsent_frames d)) now 0 w1

  fail_over-tape :
      (node_id t0 : ℕ) (s : EdgeState (taped api))
      → (fail_over (taped api) node_id t0 s).1.world.1 ≡ s.world.1
  unfolding fail_over
  fail_over-tape node_id t0 s =
      let (t1, w1) = (taped api).monotonic_ns s.world in
      let b = adapt s.batch false (elapsed (taped api) t1 t0) in
      let m = flush_udp_mesh (taped api) s.router node_id b w1 in
      let same = flush_udp_mesh-tape s.router node_id b w1 in
      elim (Bool-cases (has_partial_send b && (taped api).tcp.connected m.3)) [
        | inl abort ↦ rw (abort, fail_over) same
        | inr goes_on ↦ rw (goes_on, fail_over) same
      ]

contents-adapt : (b : FrameBatch) (sent : Bool) (ns : ℕ) → contents (adapt b sent ns) ≡ contents b
unfolding adapt
contents-adapt b sent ns = ground arith

module _ {W : Type 0} (api : EdgeApi W) (laws : IsTcp api.tcp) where
  -- The stream has got a first part of what was pending, and the mesh is given the batch `b` that holds the
  -- same frames and has the rest of it pending.
  pub record HandedOver (node_id : ℕ) (s : EdgeState (taped api)) (r : Bool × EdgeState (taped api))
      : Type 0 where
    pub b : FrameBatch
    pub w : W × List ℕ
    pub stream : r.1.world.1 ++ pending b ≡ s.world.1 ++ pending s.batch
    pub kept : contents b ≡ contents s.batch
    pub went : FailedOver (taped api) node_id s b w r
    pub emptied : IsEmptied r.1.batch

  -- The failover of what TCP has left.
  fail_over-HandedOver :
      (node_id t0 : ℕ) (s : EdgeState (taped api)) (b1 : FrameBatch) (gate : ReconnectGate)
      (w1 : W × List ℕ)
      → IsValid b1
      → w1.1 ++ pending b1 ≡ s.world.1 ++ pending s.batch
      → contents b1 ≡ contents s.batch
      → HandedOver node_id s
          (fail_over (taped api) node_id t0 (record s { batch = b1; gate = gate; world = w1 }))
  fail_over-HandedOver node_id t0 s b1 gate w1 v stream kept =
      let s1 : EdgeState (taped api) = record s { batch = b1; gate = gate; world = w1 } in
      let (t1, w2) = (taped api).monotonic_ns w1 in
      let b = adapt b1 false (elapsed (taped api) t1 t0) in
      let (emptied, went) = fail_over_lem (taped api) node_id t0 s1 v in
      record {
        b = b;
        w = w2;
        stream =
            ap (λ l. l ++ pending b) (fail_over-tape api node_id t0 s1)
            ∙ ap (◌++◌ w1.1) (pending-adapt b1 false _)
            ∙ stream;
        kept = contents-adapt b1 false _ ∙ kept;
        went = went;
        emptied = emptied;
      }

  none_pending : (b : FrameBatch) → b.count ≡ 0 → pending b ≡ []
  none_pending b e =
      ap (λ n. drop b.send_offset (frames_bytes (take n b.frames))) e
      ∙ drop-all b.send_offset [] (omega arith)

  -- What the answer of the flush says of the batch.
  answered :
      (b0 : FrameBatch) (stream : List ℕ) (sent : Bool) (b : FrameBatch) (w : W × List ℕ)
      → Flushed b0 stream (sent, b, w)
      → (sent ≡ true → b.count ≡ 0) × (sent ≡ false → contents b ≡ contents b0)
  answered b0 stream sent b w (bytes, v, inl (all, none_left, start)) =
      (λ e. none_left, λ e. absurd (ground (arith, e, all)))
  answered b0 stream sent b w (bytes, v, inr (part, kept, grows)) =
      (λ e. absurd (ground (arith, e, part)), λ e. kept)

  -- Over TCP with the client laws, of a valid batch, a flush in auto mode answers true with all
  -- pending bytes on the stream and the batch empty, or it leaves on the stream a first part of
  -- them and fails over with a batch of the same frames that has the rest pending; the mesh puts
  -- nothing on the stream, and the batch is empty afterwards.
  pub flush_auto-HandedOver :
      (op : Endpoint) (node_id t0 : ℕ) (s : EdgeState (taped api))
      → IsValid s.batch
      → let r = flush_auto (taped api) op node_id t0 s in
        ((r.0 ≡ true) × (r.1.world.1 ≡ s.world.1 ++ pending s.batch) × (r.1.batch.count ≡ 0))
        ⊎ HandedOver node_id s r
  unfolding flush_auto
  flush_auto-HandedOver op node_id t0 s v =
      let (_, gate, w1) = try_connect (taped api) s.gate op s.world in
      let (sent, b, w2) = flush_tcp_retry (taped api).tcp s.batch 64 w1 in
      let f = flush_tcp_retry-Flushed api.tcp laws 64 s.batch w1.0 w1.1 v in
      let tape = try_connect-tape api laws s.gate op s.world in
      let stream = f.0 ∙ ap (λ l. l ++ pending s.batch) tape in
      let (whole, some_kept) = answered s.batch w1.1 sent b w2 f in
      elim (Bool-cases ((taped api).tcp.connected w1)) [
        | inl up ↦ elim (Bool-cases sent) [
          | inl all ↦
              rw (up, all, flush_auto)
                (inl (
                  refl,
                  sym (append-nil w2.1)
                      ∙ ap (◌++◌ w2.1) (sym (none_pending b (whole all)))
                      ∙ stream,
                  adapt-count b true _ ∙ whole all,
                ))
          | inr some_left ↦
              rw (up, some_left, flush_auto)
                (inr (fail_over-HandedOver node_id t0 s b gate w2 f.1 stream (some_kept some_left)))
        ]
        | inr down ↦
            rw (down, flush_auto)
              (inr (
                fail_over-HandedOver node_id t0 s s.batch gate w1 v
                  (ap (λ l. l ++ pending s.batch) tape) refl))
      ]
