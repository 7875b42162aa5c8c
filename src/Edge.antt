-- ===== src/Edge.antt =====
-- The edge node of core-engine/src/main.cpp: how a batch is flushed over each transport, with reconnect
-- backoff and mesh failover.
pub mod Backoff
pub mod Mesh
pub mod Failover
pub mod Loop
pub mod Launch
pub mod Samples
pub mod Arguments
pub mod Start
use zcmesh.Base.{
  ℕ, zero, suc, ◌+◌, ◌-◌, ◌*◌, ◌/◌, ◌%◌, ◌^◌, min, not, ◌||◌, ◌&&◌, Bool, true, false, List, [],
  ◌∷◌, ◌++◌, ltb, leb, ◌==◌, if◌then◌else◌, length, take, inc64, add64,
}
use zcmesh.Wire.Frame.{Frame, frame_bytes}
use zcmesh.Net.Api.{Endpoint, TcpApi, UdpApi, IsTcp, Datagram, accepted, logged, recorded}
use zcmesh.Batch.{
  FrameBatch, clear, unsent_count, unsent_frames, discard_fully_sent, flush_tcp_retry, adapt,
  has_partial_send,
}
use zcmesh.Router.{MeshRouter, forward_udp}

pub data Transport : Type 0 where
  auto_mode tcp_mode udp_mode mesh_mode : Transport

-- The sockets and the monotonic clock that the edge runs on.
pub record EdgeApi (W : Type 0) : Type 0 where
  pub tcp : TcpApi W
  pub udp : UdpApi W
  pub monotonic_ns : W → ℕ × W

pub record ReconnectGate : Type 0 where
  pub next_ns : ℕ
  pub backoff_ms : ℕ

pub record FlushStats : Type 0 where
  pub mesh_failover : ℕ
  pub tcp_partial_abort : ℕ
  pub mesh_rescue_frames : ℕ

abbrev pub new_gate : ReconnectGate
new_gate = record { next_ns = 0; backoff_ms = 50 }

-- `seq` is a uint32_t; the percentage is an int, and 0 stands for all that is not positive.
unfoldable pub should_drop : ℕ → ℕ → Bool
should_drop seq drop_pct =
    let h = seq * 2654435761 % 2 ^ 32 in
    if drop_pct == 0
    then false
    else if leb 100 drop_pct
    then true
    else ltb (h / 2 ^ 24 % 100) drop_pct

module _ {W : Type 0} (api : EdgeApi W) where
  unfoldable pub try_connect : ReconnectGate → Endpoint → W → Bool × ReconnectGate × W
  try_connect gate ep w =
      let (now, w1) = api.monotonic_ns w in
      let (ok, w2) = api.tcp.connect ep w1 in
      if api.tcp.connected w
      then (true, gate, w)
      else if ltb now gate.next_ns
      then (false, gate, w1)
      else if ok
      then (true, record { next_ns = 0; backoff_ms = 50 }, w2)
      else (
        false,
        record {
          next_ns = (now + gate.backoff_ms * 1000000) % 2 ^ 64;
          backoff_ms = min 2000 (gate.backoff_ms * 2);
        },
        w2,
      )

  -- the loop of `flush_udp_direct`, with the count of frames forwarded
  pub send_all : Endpoint → List Frame → ℕ → W → ℕ × W
  send_all ep [] forwarded w = (forwarded, w)
  send_all ep (f ∷ fs) forwarded w =
      let (ok, w') = api.udp.send_to ep (frame_bytes f) w in
      send_all ep fs (if ok then forwarded + 1 else forwarded) w'

  unfoldable pub flush_udp_direct : Endpoint → FrameBatch → W → Bool × FrameBatch × W
  flush_udp_direct ep batch w =
      let b = discard_fully_sent batch in
      let n = unsent_count b in
      let (forwarded, w') = send_all ep (take n (unsent_frames b)) 0 w in
      (forwarded == n, clear b, w')

  -- the loop of `flush_udp_mesh`
  pub forward_all : MeshRouter → ℕ → List Frame → ℕ → ℕ → W → ℕ × MeshRouter × W
  forward_all router node_id [] now forwarded w = (forwarded, router, w)
  forward_all router node_id (f ∷ fs) now forwarded w =
      let (ok, router', w') = forward_udp api.udp router node_id (frame_bytes f) now w in
      forward_all router' node_id fs now (if ok then forwarded + 1 else forwarded) w'

  unfoldable pub flush_udp_mesh :
      MeshRouter → ℕ → FrameBatch → W → Bool × MeshRouter × FrameBatch × W
  flush_udp_mesh router node_id batch w =
      let b = discard_fully_sent batch in
      let n = unsent_count b in
      let (now, w1) = api.monotonic_ns w in
      let (forwarded, router', w2) =
        forward_all router node_id (take n (unsent_frames b)) now 0 w1 in
      (forwarded == n, router', clear b, w2)

  -- All that `flush_batch` works on.
  pub record EdgeState : Type 0 where
    pub batch : FrameBatch
    pub router : MeshRouter
    pub gate : ReconnectGate
    pub stats : FlushStats
    pub world : W

  abbrev pub elapsed : ℕ → ℕ → ℕ
  elapsed t1 t0 = (t1 + 2 ^ 64 - t0) % 2 ^ 64

  -- `transport == Transport::Tcp`
  pub flush_over_tcp : Endpoint → ℕ → EdgeState → Bool × EdgeState
  flush_over_tcp op t0 s =
      let (_, gate, w1) = try_connect s.gate op s.world in
      let (sent, b, w2) = flush_tcp_retry api.tcp s.batch 128 w1 in
      let (t1, w3) = api.monotonic_ns w2 in
      let (t1', w3') = api.monotonic_ns w1 in
      if api.tcp.connected w1
      then (sent, record s { batch = adapt b sent (elapsed t1 t0); gate = gate; world = w3 })
      else (
        false,
        record s { batch = adapt s.batch false (elapsed t1' t0); gate = gate; world = w3' },
      )

  -- TCP could not take the whole batch: what it has not fully taken goes over the mesh, and a stream
  -- that may stand in mid-frame is given up.
  pub fail_over : ℕ → ℕ → EdgeState → Bool × EdgeState
  fail_over node_id t0 s =
      let (t1, w1) = api.monotonic_ns s.world in
      let b = adapt s.batch false (elapsed t1 t0) in
      let had_partial = has_partial_send b in
      let rescue = unsent_count b in
      let (ok, router, b', w2) = flush_udp_mesh s.router node_id b w1 in
      let counted = record (s.stats) {
        mesh_failover = inc64 s.stats.mesh_failover;
        mesh_rescue_frames = add64 s.stats.mesh_rescue_frames rescue;
      } in
      let s' = record s { batch = b'; router = router; stats = counted; world = w2 } in
      if had_partial && api.tcp.connected w2
      then (
        ok,
        record s' {
          stats = record counted { tcp_partial_abort = inc64 counted.tcp_partial_abort };
          world = api.tcp.close w2;
        },
      )
      else (ok, s')

  -- `transport == Transport::Auto`
  pub flush_auto : Endpoint → ℕ → ℕ → EdgeState → Bool × EdgeState
  flush_auto op node_id t0 s =
      let (_, gate, w1) = try_connect s.gate op s.world in
      let (sent, b, w2) = flush_tcp_retry api.tcp s.batch 64 w1 in
      let (t1, w3) = api.monotonic_ns w2 in
      if api.tcp.connected w1
      then (if sent
          then (true, record s { batch = adapt b true (elapsed t1 t0); gate = gate; world = w3 })
          else fail_over node_id t0 (record s { batch = b; gate = gate; world = w2 }))
      else fail_over node_id t0 (record s { gate = gate; world = w1 })

  pub flush_batch : Transport → Endpoint → ℕ → EdgeState → Bool × EdgeState
  flush_batch transport op node_id s =
      let (t0, w0) = api.monotonic_ns s.world in
      let (udp_ok, udp_batch, udp_world) = flush_udp_direct op s.batch w0 in
      let (mesh_ok, mesh_router, mesh_batch, mesh_world) =
        flush_udp_mesh s.router node_id s.batch w0 in
      elim transport [
        | udp_mode ↦ (udp_ok, record s { batch = udp_batch; world = udp_world })
        | mesh_mode ↦
            (mesh_ok, record s { router = mesh_router; batch = mesh_batch; world = mesh_world })
        | tcp_mode ↦ flush_over_tcp op t0 (record s { world = w0 })
        | auto_mode ↦ flush_auto op node_id t0 (record s { world = w0 })
      ]

-- The same sockets and clock, with every datagram recorded.
abbrev pub watched : {W : Type 0} → EdgeApi W → EdgeApi (W × List Datagram)
watched api = record {
  tcp = record {
    connected = λ s. api.tcp.connected s.0;
    send_nb = λ bytes s. let (r, w) = api.tcp.send_nb bytes s.0 in (r, (w, s.1));
    connect = λ e s. let (r, w) = api.tcp.connect e s.0 in (r, (w, s.1));
    close = λ s. (api.tcp.close s.0, s.1);
  };
  udp = logged api.udp;
  monotonic_ns = λ s. let (t, w) = api.monotonic_ns s.0 in (t, (w, s.1));
}

-- The same sockets and clock, with every byte that TCP accepts recorded.
abbrev pub taped : {W : Type 0} → EdgeApi W → EdgeApi (W × List ℕ)
taped api = record {
  tcp = recorded api.tcp;
  udp = record { send_to = λ e bytes s. let (r, w) = api.udp.send_to e bytes s.0 in (r, (w, s.1)) };
  monotonic_ns = λ s. let (t, w) = api.monotonic_ns s.0 in (t, (w, s.1));
}

-- What a receiver has of the connection that is up: how many there were, and the bytes that the last one
-- has taken. A receiver starts its stream anew with each connection behind the first.
pub record Link : Type 0 where
  pub connections : ℕ
  pub stream : List ℕ

abbrev pub relink : Bool → Link → Link
relink false l = l
relink true l = record {
  connections = l.connections + 1;
  stream = if l.connections == 0 then l.stream else [];
}

-- The same sockets and clock, with the receiver's side of TCP.
abbrev pub linked : {W : Type 0} → EdgeApi W → EdgeApi (W × Link)
linked api = record {
  tcp = record {
    connected = λ s. api.tcp.connected s.0;
    send_nb = λ bytes s.
        let (r, w) = api.tcp.send_nb bytes s.0 in
        (r, (w, record (s.1) { stream = s.1.stream ++ accepted bytes r }));
    connect = λ e s. let (r, w) = api.tcp.connect e s.0 in (r, (w, relink r s.1));
    close = λ s. (api.tcp.close s.0, s.1);
  };
  udp = record { send_to = λ e bytes s. let (r, w) = api.udp.send_to e bytes s.0 in (r, (w, s.1)) };
  monotonic_ns = λ s. let (t, w) = api.monotonic_ns s.0 in (t, (w, s.1));
}

pub linked-IsTcp : {W : Type 0} (api : EdgeApi W) → IsTcp api.tcp → IsTcp (linked api).tcp
linked-IsTcp api laws = record {
  send_le = λ bytes s n e. laws.send_le bytes s.0 n e;
  connect_lem = λ e s. laws.connect_lem e s.0;
  close_lem = λ s. laws.close_lem s.0;
}
