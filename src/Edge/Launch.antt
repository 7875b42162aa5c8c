-- ===== src/Edge/Launch.antt =====
-- `main` of core-engine/src/main.cpp from its arguments to its loop and through it.
pub mod Memory
pub mod Hosts
pub mod Delivered
use zcmesh.Base.{
  ℕ, ◌+◌, ◌*◌, ◌^◌, not, Bool, true, false, Option, none, some, List, [], if◌then◌else◌,
}
use zcmesh.Net.Api.{Endpoint}
use zcmesh.Net.Endpoints.{parse_endpoint}
use zcmesh.Options.{codes}
use zcmesh.Arena.{Arena, Allocated, block, invalid_alignment, bad_alloc, alloc}
use zcmesh.Batch.{new_batch}
use zcmesh.Edge.{
  Transport, auto_mode, tcp_mode, udp_mode, mesh_mode, EdgeApi, EdgeState, ReconnectGate, new_gate,
  try_connect,
}
use zcmesh.Edge.Arguments.{EdgeOptions, edge_defaults, Parsed, go, exit, parse_edge}
use zcmesh.Edge.Start.{start_router}
use zcmesh.Edge.Loop.{Options, Reading, Polled, LoopState, run}

-- The 4 MiB of the arena.
abbrev pub arena_bytes : ℕ
arena_bytes = 4194304

-- `sizeof(RouteEntry)`, aligned to 8: three endpoints of 66 bytes and five 64-bit counters
abbrev pub route_bytes : ℕ
route_bytes = 256

abbrev pub batch_block : ℕ → ℕ → Allocated → Option (ℕ × ℕ)
batch_block routes batch_size (block at a) = some (routes, at)
batch_block routes batch_size invalid_alignment = none
batch_block routes batch_size bad_alloc = none

abbrev pub routes_block : ℕ → Allocated → Option (ℕ × ℕ)
routes_block batch_size (block at a) = batch_block at batch_size (alloc a 24 1 batch_size)
routes_block batch_size invalid_alignment = none
routes_block batch_size bad_alloc = none

-- Where the routes and the frames of the batch lie in the arena; none where `std::bad_alloc` is thrown,
-- which nothing catches.
unfoldable pub start_memory : ℕ → ℕ → Option (ℕ × ℕ)
start_memory base batch_size =
    routes_block batch_size
      (alloc (record { base = base; capacity = arena_bytes; offset = 0 }) route_bytes 8 8)

-- What the program has of the system beside the sockets of its loop.
pub record EdgeHost (W : Type 0) : Type 0 where
  pub api : EdgeApi W
  pub slab : ℕ
  pub net_init : W → Bool × W
  pub net_shutdown : W → W
  pub open_udp : W → Bool × W
  pub open_control : W → Bool × W
  pub bind_control : Endpoint → W → Bool × W
  pub open_file : List ℕ → W → Bool × W

-- the value of an option, or its default
abbrev pub text_or : List ℕ → Option (List ℕ) → List ℕ
text_or d none = d
text_or d (some v) = v

-- A percentage that is not positive drops nothing.
abbrev pub loop_options : EdgeOptions → Endpoint → Options
loop_options o op = record {
  transport = o.transport;
  operator = op;
  node_id = o.node_id;
  drop_pct = elim o.drop_pct [ none ↦ 0 | some n ↦ n ];
}

-- `transport != Udp && transport != Mesh`
abbrev pub uses_tcp : Transport → Bool
uses_tcp auto_mode = true
uses_tcp tcp_mode = true
uses_tcp udp_mode = false
uses_tcp mesh_mode = false

module _ {W : Type 0} (host : EdgeHost W) where
  -- How the set-up ends: with an exit code, with an exception, or in the loop.
  pub data Launched : Type 0 where
    exits : ℕ → W → Launched
    throws : W → Launched
    loops : (o : Options) → LoopState (host.api) o → Launched

  abbrev pub fails : W → Launched
  fails w = exits 1 (host.net_shutdown w)

  abbrev pub start_state : EdgeOptions → Endpoint → ReconnectGate → W → Launched
  start_state o op gate w = loops (loop_options o op) (record {
    edge = record {
      batch = new_batch o.batch_size;
      router = (start_router o.node_id op o.hop_override).1;
      gate = gate;
      stats = record { mesh_failover = 0; tcp_partial_abort = 0; mesh_rescue_frames = 0 };
      world = w;
    };
    seq = 0;
    sent_ok = 0;
    sent_fail = 0;
    dropped_count = 0;
  })

  -- `--file`
  abbrev pub with_file : EdgeOptions → Endpoint → ReconnectGate → Option (List ℕ) → W → Launched
  with_file o op gate none w = start_state o op gate w
  with_file o op gate (some path) w =
      let (opened, w1) = host.open_file path w in
      if not opened then fails w1 else start_state o op gate w1

  abbrev pub with_tcp : EdgeOptions → Endpoint → W → Launched
  with_tcp o op w =
      let (up, gate, w1) = try_connect (host.api) new_gate op w in
      if uses_tcp o.transport
      then with_file o op gate o.file w1
      else with_file o op new_gate o.file w

  -- `--control`
  abbrev pub with_control : EdgeOptions → Endpoint → Option (List ℕ) → W → Launched
  with_control o op none w = with_tcp o op w
  with_control o op (some text) w =
      let (good, cep) = parse_endpoint text in
      let (opened, w1) = host.open_control w in
      let (bound, w2) = host.bind_control cep w1 in
      if not good
      then fails w
      else if not opened
      then fails w1
      else if not bound
      then fails w2
      else with_tcp o op w2

  abbrev pub with_memory : EdgeOptions → Endpoint → Option (ℕ × ℕ) → W → Launched
  with_memory o op none w = throws w
  with_memory o op (some blocks) w =
      let (opened, w1) = host.open_udp w in
      if not opened then fails w1 else with_control o op o.control w1

  unfoldable pub launch : EdgeOptions → W → Launched
  launch o w =
      let (up, w1) = host.net_init w in
      let (good, op) = parse_endpoint (text_or (codes "127.0.0.1:9900") o.operator_text) in
      if not up
      then exits 1 w1
      else if not good
      then fails w1
      else with_memory o op (start_memory (host.slab) o.batch_size) w1

  -- The loop, with what its turns read, and the flush behind it.
  module _ (polls : (o : Options) → List (Polled (host.api) o)) (readings : List Reading) where
    abbrev pub looped : Launched → Launched
    looped (exits n w) = exits n w
    looped (throws w) = throws w
    looped (loops o s) = loops o (run (host.api) o (polls o) readings s)

    abbrev pub edge_parsed : Parsed → W → Launched
    edge_parsed (exit n) w = exits n w
    edge_parsed (go o) w = looped (launch o w)

    unfoldable pub edge_main : List (List ℕ) → W → Launched
    edge_main args w = edge_parsed (parse_edge args edge_defaults) w
