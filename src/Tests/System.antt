-- ===== src/Tests/System.antt =====
-- The theorems on the arena, endpoints and the datagram socket at concrete inputs.
use zcmesh.Base.{
  ℕ, ◌+◌, ◌^◌, ◌≤◌, ◌<◌, ◌≡◌, arith, true, if◌then◌else◌, ◌==◌, none, some, List, [], ◌∷◌, length,
}
use zcmesh.Arena.{Arena, allocate}
use zcmesh.Arena.Blocks.{IsArena, Placed, next_aligned, allocate_lem}
use zcmesh.Net.Api.{Endpoint}
use zcmesh.Net.Endpoints.Printing.{endpoint_text}
use zcmesh.Control.Command.{ctl, node_id_text}
use zcmesh.Control.Command.Line.{Commands, skip_line, clear_line, ctl-skip_line}
use zcmesh.Edge.Arguments.Flags.{hop_text, batch_text, help_text}
use zcmesh.Edge.Arguments.{parse_edge, edge_defaults}
use zcmesh.Edge.Arguments.Accepted.{IsEndpoint, Accepted, parse_edge-Accepted}
use zcmesh.Router.Invariant.{IsRouter}
use zcmesh.Edge.Start.{start_router, first_hops, Routed, start_router-Routed}
use zcmesh.Net.Udp.{UdpSystem, UdpSocket, associated, unreachable, no_datagram}
use zcmesh.Net.Udp.Attempts.{Attempt}

abbrev arena : Arena
arena = record { base = 4099; capacity = 65536; offset = 10 }

arena-IsArena : IsArena arena
arena-IsArena = record { used_le = omega arith; end_fits = omega arith }

allocate_example :
    let at = next_aligned arena 4 in
    (4099 + 10 ≤ at) × (at < 4099 + 10 + 2 ^ 4) × Placed arena at 768 (allocate arena 768 (2 ^ 4))
allocate_example = allocate_lem arena 768 4 arena-IsArena (omega arith) (omega arith)

-- "::1", port 65535
abbrev pub endpoint : Endpoint
endpoint = record { host = 58 ∷ 58 ∷ 49 ∷ []; port = 65535 }

pub written : IsEndpoint endpoint
written = (omega arith, omega arith, omega arith, omega arith)

-- A system that reaches port 9002 only.
abbrev pub system : UdpSystem ℕ
system = record {
  socket = λ w. (some w, w + 1);
  set_nonblocking = λ fd w. (true, w);
  resolve = λ ep w. (true, w);
  reuse_address = λ fd w. w;
  bind = λ fd ep w. (true, w);
  recvfrom = λ fd n w. (no_datagram, w);
  connect = λ fd ep w. (if ep.port == 9002 then associated else unreachable, w);
  send = λ fd bytes w. (some (length bytes), w);
  sendto = λ fd ep bytes w. (none, w);
  dissociate = λ fd w. w;
  close_socket = λ fd w. w;
}

abbrev socket : UdpSocket (ℕ × List Attempt)
socket = record { fd = some 3; system = (4, []) }

ctl_example :
    Commands (ctl (skip_line endpoint 7 5)) endpoint 7 5
    × Commands (ctl (clear_line endpoint 7)) endpoint 7 0
ctl_example =
    ctl-skip_line endpoint 7 5 (omega arith) (omega arith) (omega arith) (omega arith) (omega arith)
      (omega arith)

-- "--batch 0 --node-id 70000 --hop ::1:65535 --help"
abbrev arguments : List (List ℕ)
arguments =
    batch_text
    ∷ (48 ∷ [])
    ∷ node_id_text
    ∷ (55 ∷ 48 ∷ 48 ∷ 48 ∷ 48 ∷ [])
    ∷ hop_text
    ∷ endpoint_text endpoint
    ∷ help_text
    ∷ []

parse_edge_example : Accepted (parse_edge arguments edge_defaults)
parse_edge_example = parse_edge-Accepted arguments

start_router_example :
    let (ok, m) = start_router 7 endpoint [] in
    (ok ≡ true) × IsRouter m × Routed m 7 (first_hops endpoint [])
start_router_example = start_router-Routed 7 endpoint [] (omega arith)
