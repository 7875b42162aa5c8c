-- ===== src/Tests/Edge.antt =====
-- The theorems on the edge's flushes and reconnects at concrete inputs.
use zcmesh.Base.{
  ℕ, ◌+◌, ◌≡◌, ◌≢◌, ◌⊎◌, ap, arith, true, not, some, List, [], ◌++◌, length, min, ◌==◌,
}
use zcmesh.Net.Api.{Datagram, IsTcp}
use zcmesh.Net.Client.{
  SystemApi, IsSystem, Sending, taken, blocked, failed, under_way, client, client-IsTcp,
}
use zcmesh.Edge.Loop.{Options, LoopState, refused, turn}
use zcmesh.Edge.Loop.Auto.{HandedOver, flush_auto-HandedOver}
use zcmesh.Edge.Loop.Flushing.{turn_lem}
use zcmesh.Batch.Validity.{IsValid}
use zcmesh.Batch.Contents.{unsent, pending}
use zcmesh.Edge.{
  EdgeState, taped, flush_auto, auto_mode, EdgeApi, watched, new_gate, flush_udp_mesh,
}
use zcmesh.Edge.Mesh.{Walks, Covered, count_sent, flush_udp_mesh_lem}
use zcmesh.Tests.Batch.{slow_tcp, slow_tcp-IsTcp, partly_sent, partly_sent-IsValid}
use zcmesh.Tests.Router.{lossy_udp, router, hop_at}

abbrev pub edge : EdgeApi ℕ
edge = record { tcp = slow_tcp; udp = lossy_udp; monotonic_ns = λ w. (1000000000, w) }

flush_udp_mesh_example :
    let (ok, router', b', s) = flush_udp_mesh (watched edge) router 7 partly_sent (1, []) in
    let (now, w1) = edge.monotonic_ns 1 in
    (new : List Datagram) × (s.1 ≡ [] ++ new)
    × Walks edge 7 now (unsent partly_sent) router (w1, []) router' s
    × Covered (unsent partly_sent) new
    × (ok ≡ (count_sent new == length (unsent partly_sent)))
    × (b'.count ≡ 0)
    × (b'.send_offset ≡ 0)
    × IsValid b'
flush_udp_mesh_example = flush_udp_mesh_lem edge router 7 partly_sent 1 [] partly_sent-IsValid

abbrev state : EdgeState edge
state = record {
  batch = partly_sent;
  router = router;
  gate = new_gate;
  stats = record { mesh_failover = 0; tcp_partial_abort = 0; mesh_rescue_frames = 0 };
  world = 1;
}

abbrev options : Options
options = record { transport = auto_mode; operator = hop_at 9002; node_id = 7; drop_pct = 0 }

abbrev start : LoopState (taped edge) options
start = record {
  edge = record {
    batch = partly_sent;
    router = router;
    gate = new_gate;
    stats = record { mesh_failover = 0; tcp_partial_abort = 0; mesh_rescue_frames = 0 };
    world = (0, []);
  };
  seq = 44;
  sent_ok = 0;
  sent_fail = 0;
  dropped_count = 0;
}

flush_auto_example :
    let r = flush_auto (taped edge) (hop_at 9002) 7 5 start.edge in
    ((r.0 ≡ true) × (r.1.world.1 ≡ [] ++ pending partly_sent) × (r.1.batch.count ≡ 0))
    ⊎ HandedOver edge slow_tcp-IsTcp 7 start.edge r
flush_auto_example =
    flush_auto-HandedOver edge slow_tcp-IsTcp (hop_at 9002) 7 5 start.edge partly_sent-IsValid

turn_example :
    let (outcome, s') = turn (taped edge) options 2 250 start in
    IsValid s'.edge.batch × (outcome ≢ refused)
turn_example = turn_lem edge slow_tcp-IsTcp options 2 250 start partly_sent-IsValid

-- A system whose sockets come up at once and take up to ten bytes.
abbrev pub stream_system : SystemApi ℕ
stream_system = record {
  socket = λ w. (some w, w + 1);
  set_nonblocking = λ fd w. (true, w);
  apply_socket_opts = λ fd w. w;
  resolve = λ ep w. (not (ep.port == 0), w);
  connect = λ fd ep w. (under_way, w);
  established = λ fd w. (true, w);
  send = λ fd bytes w. (taken (min (length bytes) 10), w);
  close_socket = λ fd w. w;
}

abbrev taken_or : Sending → ℕ
taken_or (taken n) = n
taken_or blocked = 0
taken_or failed = 0

pub stream_system-IsSystem : IsSystem stream_system
stream_system-IsSystem = record { taken_le = λ fd bytes w n e. omega (arith, ap taken_or e) }

client-IsTcp_example : IsTcp (client stream_system)
client-IsTcp_example = client-IsTcp stream_system stream_system-IsSystem
