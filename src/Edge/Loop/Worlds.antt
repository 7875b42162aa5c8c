-- ===== src/Edge/Loop/Worlds.antt =====
-- What each call of the system keeps, a run of the loop of core-engine/src/main.cpp over TCP keeps.
use zcmesh.Base.{arith, ℕ, ◌+◌, ◌%◌, ◌^◌, Option, none, some, List, [], ◌∷◌}
use zcmesh.Net.Api.{Endpoint}
use zcmesh.Wire.Frame.{SensorSample}
use zcmesh.Batch.{push, flush_tcp_retry}
use zcmesh.Batch.Kept.{flush_tcp_retry-Holds}
use zcmesh.Edge.{
  EdgeApi, EdgeState, ReconnectGate, tcp_mode, try_connect, flush_over_tcp, flush_batch,
}
use zcmesh.Edge.Loop.{
  Options, first_flags, Reading, LoopState, Polled, drain, after_push, take_sample, read_skip_file,
  poll, finish, iterate, run,
}
use zcmesh.Control.{poll_control}
use zcmesh.Edge.Loop.Delivery.{over_tcp}

module _ {W : Type 0} (api : EdgeApi W) (Holds : W → Type 0) where
  -- The calls that a run over TCP makes keep `Holds`.
  pub record IsKept : Type 0 where
    pub send_keeps : (bs : List ℕ) (w : W) → Holds w → Holds (api.tcp.send_nb bs w).1
    pub connect_keeps : (ep : Endpoint) (w : W) → Holds w → Holds (api.tcp.connect ep w).1
    pub clock_keeps : (w : W) → Holds w → Holds (api.monotonic_ns w).1

  module _ (kept : IsKept) where
    pub try_connect-Holds :
        (gate : ReconnectGate) (ep : Endpoint) (w : W)
        → Holds w
        → Holds (try_connect api gate ep w).2
    unfolding try_connect
    try_connect-Holds gate ep w h =
        let h1 = kept.clock_keeps w h in
        let h2 = kept.connect_keeps ep (api.monotonic_ns w).1 h1 in ground (arith, h, h1, h2)

    flush_over_tcp-Holds :
        (op : Endpoint) (t0 : ℕ) (e : EdgeState api)
        → Holds e.world
        → Holds (flush_over_tcp api op t0 e).1.world
    unfolding flush_over_tcp
    flush_over_tcp-Holds op t0 e h =
        let w1 = (try_connect api e.gate op e.world).2 in
        let h1 = try_connect-Holds e.gate op e.world h in
        let h2 = flush_tcp_retry-Holds Holds api.tcp kept.send_keeps e.batch 128 w1 h1 in
        let h3 = kept.clock_keeps (flush_tcp_retry api.tcp e.batch 128 w1).2 h2 in
        let h4 = kept.clock_keeps w1 h1 in ground (arith, h3, h4)

    flush-Holds :
        (op : Endpoint) (node_id : ℕ) (e : EdgeState api)
        → Holds e.world
        → Holds (flush_batch api tcp_mode op node_id e).1.world
    unfolding flush_batch
    flush-Holds op node_id e h =
        flush_over_tcp-Holds op (api.monotonic_ns e.world).0
          (record e { world = (api.monotonic_ns e.world).1 }) (kept.clock_keeps e.world h)

    module _ (op : Endpoint) (node_id drop_pct : ℕ) where
      abbrev opts : Options
      opts = over_tcp op node_id drop_pct

      abbrev Looped : Type 0
      Looped = LoopState api opts

      drain-Holds : (s : Looped) → Holds s.edge.world → Holds (drain api opts s).1.edge.world
      unfolding drain
      drain-Holds s h = let h' = flush-Holds op node_id s.edge h in ground (arith, h, h')

      after_push-Holds :
          (s : Looped) → Holds s.edge.world → Holds (after_push api opts s).edge.world
      unfolding after_push
      after_push-Holds s h = let h' = flush-Holds op node_id s.edge h in ground (arith, h, h')

      take_sample-Holds :
          (sensor raw : ℕ) (s : Looped)
          → Holds s.edge.world
          → Holds (take_sample api opts sensor raw s).1.edge.world
      unfolding take_sample
      take_sample-Holds sensor raw s h =
          let h1 = kept.clock_keeps s.edge.world h in
          let (now, w) = api.monotonic_ns s.edge.world in
          let sample : SensorSample = record {
            seq = s.seq;
            timestamp_ns = now;
            node_id = node_id;
            sensor_type = sensor;
            flags = first_flags tcp_mode;
            reserved = 0;
            raw_value = raw;
          } in
          let b = (push s.edge.batch sample).1 in
          let pushed : Looped = record s {
            edge = record (s.edge) { batch = b; world = w };
            seq = (s.seq + 1) % 2 ^ 32;
          } in
          let later = after_push-Holds pushed h1 in ground (arith, h, h1, later)

      finish-Holds : (s : Looped) → Holds s.edge.world → Holds (finish api opts s).edge.world
      unfolding finish
      finish-Holds s h = let h' = flush-Holds op node_id s.edge h in ground (arith, h, h')

      poll-Holds :
          (p : Polled api opts) (s : Looped)
          → Holds s.edge.world
          → Holds (poll api opts p s).edge.world
      unfolding poll read_skip_file
      poll-Holds p s h = by_file p.skip_file
        where
          by_file :
              (o : Option ℕ)
              → Holds
                  (read_skip_file api opts o (record s {
                    edge = record (s.edge) { router = poll_control p.datagrams s.edge.router };
                  })).edge.world
          by_file none = h
          by_file (some v) = h

      iterate-Holds :
          (p : Polled api opts) (readings : List Reading) (s : Looped)
          → Holds s.edge.world
          → Holds (iterate api opts p readings s).2.edge.world
      unfolding iterate
      iterate-Holds p [] s h =
          let h' = drain-Holds (poll api opts p s) (poll-Holds p s h) in ground (arith, h')
      iterate-Holds p (r ∷ rs) s h =
          let s' = (drain api opts (poll api opts p s)).1 in
          let h' = drain-Holds (poll api opts p s) (poll-Holds p s h) in
          let taken = take_sample-Holds r.sensor r.raw s' h' in ground (arith, h', taken)

      pub run-Holds :
          (ps : List (Polled api opts)) (readings : List Reading) (s : Looped)
          → Holds s.edge.world
          → Holds (run api opts ps readings s).edge.world
      unfolding run
      run-Holds [] readings s h = finish-Holds s h
      run-Holds (p ∷ []) readings s h = finish-Holds (poll api opts p s) (poll-Holds p s h)
      run-Holds (p ∷ q ∷ ps) readings s h =
          let (on, rest, s1) = iterate api opts p readings s in
          let h1 = iterate-Holds p readings s h in
          let later = run-Holds (q ∷ ps) rest s1 h1 in
          let ended = finish-Holds s1 h1 in ground (arith, later, ended)
