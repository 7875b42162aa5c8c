-- ===== src/Tests/Programs.antt =====
-- The theorems on whole programs at concrete command lines.
use zcmesh.Base.{
  suc, ◌-◌, ◌<◌, min, ◌==◌, ℕ, ◌+◌, ◌≡◌, refl, ap, arith, Bool, true, false, leb, if◌then◌else◌,
  Option, none, some, List, [], ◌∷◌, All, length,
}
use zcmesh.Options.{codes}
use zcmesh.Net.Host.{HostApi}
use zcmesh.Net.Host.Ledger.{Held, ledger}
use zcmesh.Wire.Frame.{of_bytes}
use zcmesh.Router.Deliver.{deliver}
use zcmesh.Router.Deliver.Handed.{Handed, deliver-Handed}
use zcmesh.Net.Api.{TcpApi, UdpApi, IsTcp, recorded}
use zcmesh.Net.Client.{TcpClient, client, client-IsTcp, connect, dial, close, send_nb, send_on}
use zcmesh.Net.Udp.{UdpSocket, socket_api, send_to, deliver_on}
use zcmesh.Router.{hop_allowed, forward_route}
use zcmesh.Router.Reaching
use zcmesh.Router.Reaching.{StaysReady, forward_route-true}
use zcmesh.Hop.Start.{start_hop}
use zcmesh.Hop.Start.Released.{HopStarted, start_hop-HopStarted}
use zcmesh.Capture.{decode_tcp_stream}
use zcmesh.Capture.Accounting.{append_all}
use zcmesh.Capture.Select.{Turn}
use zcmesh.Capture.Start.{capture_main}
use zcmesh.Capture.Start.Ended.{Ended, capture_main-Ended}
use zcmesh.Zcm.{File, new_file, disk_file}
use zcmesh.Inspect.Arguments.{InspectOptions, strtol, inspect_main, inspect_file}
use zcmesh.Inspect.Arguments.Line.{inspect_line, inspect_main-inspect_line}
use zcmesh.Replay.Arguments.{thousand}
use zcmesh.Replay.Start.{pauses, replay_main}
use zcmesh.Replay.Start.Pauses.{slept_ns, IsPeriod, pauses_lem}
use zcmesh.Replay.Start.OfFile.{recorded_host, replay_line, replay_main-Captured}
use zcmesh.Replay.Success.{Accepts}
use zcmesh.Bench.{bench, bench_json}
use zcmesh.Bench.Packing.{sums}
use zcmesh.Bench.Json.{IsLineLength, bench_lem}
use zcmesh.Edge.Arguments.{
  EdgeOptions, edge_defaults, go, parse_edge, apply_value, step_flag, transport_of,
}
use zcmesh.Edge.Arguments.Flags.{edge_flag}
use zcmesh.Edge.{tcp_mode}
use zcmesh.Edge.Loop.{Options, Polled}
use zcmesh.Edge.{taped, linked}
use zcmesh.Edge.Launch.{EdgeHost, start_memory, edge_main}
use zcmesh.Edge.Launch.Memory.{start_memory_lem}
use zcmesh.Edge.Launch.Hosts.{taped_host, linked_host}
use zcmesh.Edge.Launch.Delivered.{no_link, Delivers, edge_main-Delivers}
use zcmesh.Edge.Samples.{file_readings, tokens, token_readings, token_value}
use zcmesh.Edge.Samples.OfFile.{Line, value, mark, lines_text, values_of, file_readings-lines_text}
use zcmesh.Tests.Wire.{golden, golden_good}
use zcmesh.Tests.Batch.{slow_tcp, slow_tcp-IsTcp}
use zcmesh.Tests.Router.{router, route, route-IsRoute}
use zcmesh.Tests.Edge.{edge, stream_system, stream_system-IsSystem}
use zcmesh.Tests.Receivers.{disk, counters}
use zcmesh.Tests.System.{endpoint, written, system}
use zcmesh.Tests.Files.{text, ended, captured, no_udp, frames}

abbrev host : HostApi ℕ
host = record {
  udp = system;
  stream_socket = λ w. (some w, w + 1);
  listen = λ fd w. (true, w);
  accept = λ w. (w, w + 1);
  net_init = λ w. (true, w);
  net_shutdown = λ w. w;
}

abbrev nothing_held : Held
nothing_held = record { fds = []; started = 0; bound = [] }

abbrev hop_arguments : List (List ℕ)
hop_arguments =
    codes "--listen"
    ∷ codes "0.0.0.0:9901"
    ∷ codes "--forward"
    ∷ codes "10.0.0.1:9902"
    ∷ codes "--final"
    ∷ []

start_hop_example :
    HopStarted host hop_arguments nothing_held
      (start_hop (ledger host) hop_arguments (3, nothing_held))
start_hop_example = start_hop-HopStarted host hop_arguments 3 nothing_held

abbrev capture_arguments : List (List ℕ)
capture_arguments =
    codes "--mode"
    ∷ codes "both"
    ∷ codes "--out"
    ∷ codes "a.zcm"
    ∷ codes "--seconds"
    ∷ codes "5"
    ∷ []

abbrev turns : List Turn
turns = record { accepted = true; from_client = none; from_udp = some (some golden) } ∷ []

abbrev open_file : List ℕ → Option File
open_file path = some (new_file 1000)

capture_main_example :
    Ended host disk_file turns capture_arguments open_file nothing_held
      (capture_main (ledger host) disk_file turns capture_arguments open_file (3, nothing_held))
capture_main_example =
    capture_main-Ended host disk_file turns capture_arguments open_file 3 nothing_held

abbrev expectations : InspectOptions
expectations = record {
  verbose = true;
  gaps_min = none;
  gaps_max = some 12;
  hop_idx = some 0;
  last_hop_min_pct = some (codes "99.5");
  frames_min = some 2;
  raws = 250 ∷ 0xFFFFFFFF ∷ [];
}

abbrev short_pct : List ℕ → ℕ → ℕ → Bool
short_pct pct last all = false

abbrev one_file : List ℕ → Option (List ℕ)
one_file path = some text

inspect_main_example :
    inspect_main short_pct one_file (codes "a.zcm" ∷ inspect_line expectations)
    ≡ inspect_file short_pct one_file expectations (some text)
inspect_main_example =
    inspect_main-inspect_line short_pct one_file (codes "a.zcm") expectations (record {
      gaps_min_fits = tt;
      gaps_max_fits = omega arith;
      hop_idx_fits = omega arith;
      frames_min_fits = omega arith;
      raws_fit = (omega arith, (omega arith, tt));
    })

abbrev connection : TcpApi (TcpClient ℕ)
connection = client stream_system

connection-IsTcp : IsTcp connection
connection-IsTcp = client-IsTcp stream_system stream_system-IsSystem

abbrev unconnected : TcpClient ℕ
unconnected = record { fd = none; connected = false; system = 0 }

abbrev IsConnected : TcpClient ℕ → Type 0
IsConnected c = (c.connected ≡ true) × ((fd : ℕ) × (c.fd ≡ some fd))

abbrev no_datagrams : UdpApi (TcpClient ℕ × List ℕ)
no_datagrams = record { send_to = λ e bytes w. (false, w) }

abbrev no_socket : TcpClient ℕ × List ℕ → Bool × (TcpClient ℕ × List ℕ)
no_socket s = (false, s)

abbrev starts_up : TcpClient ℕ → Bool × TcpClient ℕ
starts_up w = (true, w)

abbrev shuts_down : TcpClient ℕ → TcpClient ℕ
shuts_down w = w

takes_some :
    (bytes : List ℕ) (c : TcpClient ℕ)
    → IsConnected c
    → 0 < length bytes
    → ((n : ℕ) × ((connection.send_nb bytes c).0 ≡ some (suc n)))
      × IsConnected (connection.send_nb bytes c).1
unfolding send_nb send_on
takes_some bytes c (up, (fd, there)) some_bytes =
    let full : (length bytes == 0) ≡ false = ground (arith, some_bytes) in
    rw (there, up, full)
      ((min (length bytes) 10 - 1, ap some (omega (arith, some_bytes))), (refl, (fd, refl)))

accepts : Accepts connection connection-IsTcp no_datagrams endpoint IsConnected
accepts = takes_some

replay_main_example :
    let (code', counts, s) =
      replay_main
        (recorded_host connection connection-IsTcp no_datagrams no_socket starts_up shuts_down 24
          one_file)
        24
        one_file
        (replay_line (codes "a.zcm") endpoint)
        (unconnected, []) in
    (code' ≡ 0)
    × (counts.sent ≡ 2)
    × (decode_tcp_stream disk s.1 counters ≡ ([], append_all disk frames counters))
unfolding connect dial close
replay_main_example =
    replay_main-Captured connection connection-IsTcp no_datagrams no_socket starts_up shuts_down 24
      one_file IsConnected (codes "a.zcm") endpoint (length text) 0 ended captured unconnected disk
      counters written refl (omega arith) (omega arith) refl refl accepts (refl, (0, refl))

abbrev datagrams : UdpSocket ℕ
datagrams = record { fd = some 3; system = 4 }

abbrev IsOpen : UdpSocket ℕ → Type 0
IsOpen s = s.fd ≡ some 3

reaches_second : Reaching.Accepts (socket_api system) IsOpen (1 ∷ 2 ∷ []) route 1
unfolding send_to deliver_on
reaches_second s h = rw h refl

stays-IsOpen : StaysReady (socket_api system) IsOpen (1 ∷ 2 ∷ [])
unfolding send_to deliver_on
stays-IsOpen ep s h = rw h refl

forward_route-true_example :
    (forward_route (socket_api system) route (1 ∷ 2 ∷ []) 10 datagrams).0 ≡ true
unfolding hop_allowed
forward_route-true_example =
    forward_route-true (socket_api system) IsOpen route 1 (1 ∷ 2 ∷ []) 10 datagrams route-IsRoute
      refl reaches_second stays-IsOpen refl

abbrev golden_time : ℕ
golden_time = (of_bytes golden).timestamp_lo

pauses_example :
    (slept_ns (pauses true thousand (golden ∷ golden ∷ [])) + golden_time ≡ golden_time)
    × All (IsPeriod thousand) (pauses false thousand (golden ∷ golden ∷ []))
    × (length (pauses false thousand (golden ∷ golden ∷ [])) ≡ 1)
unfolding of_bytes
pauses_example =
    pauses_lem thousand golden (golden ∷ []) golden_time (golden_time ∷ [])
      (golden_good, refl, (golden_good, refl, tt)) (omega arith, omega arith, tt)

bench_example :
    (bench 4096 7 2 ≡ some (bench_json 7 2 0 (sums 7 2 0 0) 0))
    × IsLineLength (bench_json 7 2 0 (sums 7 2 0 0) 0).1
bench_example = bench_lem 4096 7 2 (omega arith) (omega arith)

deliver_example :
    Handed slow_tcp slow_tcp-IsTcp no_udp router 7 golden true 5
      (1, [])
      (deliver (recorded slow_tcp) no_udp router 7 golden true 5 (1, []))
deliver_example = deliver-Handed slow_tcp slow_tcp-IsTcp no_udp router 7 golden true 5 (1, [])

abbrev sample_lines : List Line
sample_lines = mark (codes "samples") ∷ value 250 ∷ value 0xFFFFFFFE ∷ []

file_readings_example : file_readings (lines_text sample_lines) ≡ values_of sample_lines
file_readings_example =
    file_readings-lines_text sample_lines
      ((refl, (refl, (refl, (refl, (refl, (refl, (refl, tt))))))), (omega arith, (omega arith, tt)))

-- The words behind a '#' are read on their own, and a number among them is a sample.
marked_number : file_readings (codes "# rate 50\n7") ≡ values_of (value 50 ∷ value 7 ∷ [])
unfolding file_readings tokens token_readings token_value strtol
marked_number = refl

start_memory_example :
    start_memory 4096 174678 ≡ (if leb 174678 174677 then some (4096, 4096 + 2048) else none)
start_memory_example = start_memory_lem 4096 174678 refl (omega arith) (omega arith)

abbrev edge_host : EdgeHost ℕ
edge_host = record {
  api = edge;
  slab = 4096;
  net_init = λ w. (true, w);
  net_shutdown = λ w. w;
  open_udp = λ w. (true, w);
  open_control = λ w. (true, w);
  bind_control = λ ep w. (true, w);
  open_file = λ path w. (true, w);
}

abbrev edge_arguments : List (List ℕ)
edge_arguments = codes "--batch" ∷ codes "2" ∷ codes "--transport" ∷ codes "tcp" ∷ []

abbrev edge_read : EdgeOptions
edge_read = record edge_defaults { batch_size = 2 }

abbrev polls : (o : Options) → List (Polled (taped (linked edge)) o)
polls o =
    record { datagrams = []; skip_file = none } ∷ record { datagrams = []; skip_file = none } ∷ []

parsed : parse_edge edge_arguments edge_defaults ≡ go (record edge_read { transport = tcp_mode })
unfolding parse_edge step_flag edge_flag apply_value transport_of
parsed = refl

edge_main_example :
    Delivers edge_host slow_tcp-IsTcp disk polls (values_of sample_lines) counters edge_read (
      edge_main
        (taped_host (linked_host edge_host))
        polls
        (values_of sample_lines)
        edge_arguments
        ((0, no_link), []))
edge_main_example =
    edge_main-Delivers edge_host slow_tcp-IsTcp disk polls (values_of sample_lines) counters
      edge_arguments edge_read 0 parsed (omega arith)
      ((omega arith, omega arith), ((omega arith, omega arith), tt)) (omega arith)
