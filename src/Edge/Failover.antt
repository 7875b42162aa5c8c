-- ===== src/Edge/Failover.antt =====
-- The failover of `flush_batch` in core-engine/src/main.cpp from TCP to the mesh.
use zcmesh.Base.{ℕ, ◌≡◌, refl, ap, Bool, false, ◌&&◌, length, inl, inr, Bool-cases, inc64, add64}
use zcmesh.Batch.{FrameBatch, adapt, has_partial_send}
use zcmesh.Batch.Validity.{IsValid, adapt-IsValid}
use zcmesh.Batch.Contents.{unsent, unsent_frames_lem}
use zcmesh.Edge.{EdgeApi, EdgeState, flush_udp_mesh, fail_over, elapsed}
use zcmesh.Edge.Mesh.{flush_udp_mesh-empty}

-- The batch is empty and valid.
abbrev pub IsEmptied : FrameBatch → Type 0
IsEmptied b = (b.count ≡ 0) × (b.send_offset ≡ 0) × IsValid b

module _ {W : Type 0} (api : EdgeApi W) where
  -- What a failover does with a batch `b` and the world `w` that TCP has left: the mesh gets `b`, and the
  -- failover and its frames are counted.
  abbrev pub FailedOver : ℕ → EdgeState api → FrameBatch → W → Bool × EdgeState api → Type 0
  FailedOver node_id s b w r =
      let m = flush_udp_mesh api s.router node_id b w in
      (r.0 ≡ m.0)
      × (r.1.router ≡ m.1)
      × (r.1.stats.mesh_failover ≡ inc64 s.stats.mesh_failover)
      × (r.1.stats.mesh_rescue_frames ≡ add64 s.stats.mesh_rescue_frames (length (unsent b)))

  -- Of a valid batch, a failover gives the mesh what TCP has not fully taken, counts itself and
  -- those frames, and leaves the batch empty and valid, whether or not the mesh took all.
  pub fail_over_lem :
      (node_id t0 : ℕ) (s : EdgeState api)
      → IsValid s.batch
      → let (t1, w1) = api.monotonic_ns s.world in
        let b = adapt s.batch false (elapsed api t1 t0) in
        let r = fail_over api node_id t0 s in IsEmptied r.1.batch × FailedOver node_id s b w1 r
  unfolding fail_over
  fail_over_lem node_id t0 s v =
      let (t1, w1) = api.monotonic_ns s.world in
      let b = adapt s.batch false (elapsed api t1 t0) in
      let v' = adapt-IsValid s.batch false (elapsed api t1 t0) v in
      let emptied = flush_udp_mesh-empty api s.router node_id b w1 v' in
      let (_, rescue) = unsent_frames_lem b v' in
      let m = flush_udp_mesh api s.router node_id b w1 in
      elim (Bool-cases (has_partial_send b && api.tcp.connected m.3)) [
        | inl abort ↦
            rw (abort, fail_over)
              (emptied, (refl, refl, refl, ap (add64 s.stats.mesh_rescue_frames) rescue))
        | inr keep ↦
            rw (keep, fail_over)
              (emptied, (refl, refl, refl, ap (add64 s.stats.mesh_rescue_frames) rescue))
      ]
