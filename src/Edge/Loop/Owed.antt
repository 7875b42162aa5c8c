-- ===== src/Edge/Loop/Owed.antt =====
-- What TCP has accepted in a run of core-engine/src/main.cpp, and what it is still to get.
use zcmesh.Base.{
  ℕ, ◌≤◌, ◌≡◌, ◌∙◌, ap, arith, Bool, false, List, [], ◌∷◌, ◌++◌, append-nil, length, length-take,
  drop, inl, inr, Bool-cases, drop-append_left,
}
use zcmesh.Wire.Frame.{SensorSample, frame_bytes}
use zcmesh.Wire.Pack.{pack_frame_into}
use zcmesh.Net.Api.{Endpoint, IsTcp}
use zcmesh.Batch.{FrameBatch, adapt, push, full, contents, frames_bytes, flush_tcp_retry}
use zcmesh.Batch.Validity.{IsValid}
use zcmesh.Batch.Contents.{pending, push_lem, frames_bytes-append, length-frames_bytes}
use zcmesh.Batch.Drain.{flush_tcp_retry-Flushed}
use zcmesh.Edge.{
  EdgeApi, EdgeState, tcp_mode, ReconnectGate, taped, try_connect, flush_over_tcp, flush_batch,
}
use zcmesh.Edge.Loop.Flushing.{flush_batch-IsDone}

pub pending-adapt : (b : FrameBatch) (sent : Bool) (ns : ℕ) → pending (adapt b sent ns) ≡ pending b
unfolding adapt
pending-adapt b sent ns = ground arith

-- A sample that the batch takes is owed behind all others.
pub pending-push :
    (b : FrameBatch) (s : SensorSample)
    → IsValid b
    → full b ≡ false
    → pending (push b s).1 ≡ pending b ++ frame_bytes (pack_frame_into s)
pending-push b s v room = elim (push_lem b s v) [
  | inl (no_room, slot, same) ↦ absurd (ground (arith, room, no_room))
  | inr (with_room, slot, held_now, cursor) ↦
      let f = pack_frame_into s in
      let size : length (contents b) ≡ b.count =
        omega (arith, length-take b.count b.frames, v.slab, v.count_le) in
      let within : b.send_offset ≤ length (frames_bytes (contents b)) =
        omega (arith, length-frames_bytes (contents b), v.offset_le) in
      ap (λ n. drop n (frames_bytes (contents (push b s).1))) cursor
      ∙ ap (λ fs. drop b.send_offset (frames_bytes fs)) held_now
      ∙ ap (drop b.send_offset) (frames_bytes-append (contents b) (f ∷ []))
      ∙ drop-append_left b.send_offset (frames_bytes (contents b)) (frame_bytes f ++ []) within
      ∙ ap (◌++◌ (pending b)) (append-nil (frame_bytes f))
]

module _ {W : Type 0} (api : EdgeApi W) (laws : IsTcp api.tcp) where
  -- What TCP has accepted, and what it is still to get.
  abbrev pub owed : EdgeState (taped api) → List ℕ
  owed e = e.world.1 ++ pending e.batch

  pub try_connect-tape :
      (gate : ReconnectGate) (op : Endpoint) (w : W × List ℕ)
      → (try_connect (taped api) gate op w).2.1 ≡ w.1
  unfolding try_connect
  try_connect-tape gate op w = ground arith

  owed-flush_over_tcp :
      (op : Endpoint) (t0 : ℕ) (e : EdgeState (taped api))
      → IsValid e.batch
      → owed (flush_over_tcp (taped api) op t0 e).1 ≡ owed e
  unfolding flush_over_tcp
  owed-flush_over_tcp op t0 e v =
      let (_, gate, w1) = try_connect (taped api) e.gate op e.world in
      let (sent, b, w2) = flush_tcp_retry (taped api).tcp e.batch 128 w1 in
      let f = flush_tcp_retry-Flushed api.tcp laws 128 e.batch w1.0 w1.1 v in
      let tape = try_connect-tape e.gate op e.world in
      elim (Bool-cases ((taped api).tcp.connected w1)) [
        | inl up ↦
            rw (up, flush_over_tcp)
              (ap (◌++◌ w2.1) (pending-adapt b sent _) ∙ f.0 ∙ ap (λ l. l ++ pending e.batch) tape)
        | inr down ↦
            rw (down, flush_over_tcp)
              (ap (◌++◌ w1.1) (pending-adapt e.batch false _) ∙ ap (λ l. l ++ pending e.batch) tape)
      ]

  owed-flush_batch :
      (op : Endpoint) (node_id : ℕ) (e : EdgeState (taped api))
      → IsValid e.batch
      → owed (flush_batch (taped api) tcp_mode op node_id e).1 ≡ owed e
  unfolding flush_batch
  owed-flush_batch op node_id e v =
      let (t0, w0) = (taped api).monotonic_ns e.world in
      owed-flush_over_tcp op t0 (record e { world = w0 }) v

  -- The edge keeps its account of bytes and a valid batch.
  abbrev pub Keeps : EdgeState (taped api) → EdgeState (taped api) → Type 0
  Keeps e e' = (owed e' ≡ owed e) × IsValid e'.batch

  pub flush-Keeps :
      (op : Endpoint) (node_id : ℕ) (e : EdgeState (taped api))
      → IsValid e.batch
      → Keeps e (flush_batch (taped api) tcp_mode op node_id e).1
  flush-Keeps op node_id e v =
      (owed-flush_batch op node_id e v, (flush_batch-IsDone api laws tcp_mode op node_id e v).0)
