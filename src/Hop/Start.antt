-- ===== src/Hop/Start.antt =====
-- `main` of core-engine/src/hop.cpp from its arguments to its loop.
pub mod Released
use zcmesh.Base.{ℕ, not, Bool, true, false, Option, none, some, List, if◌then◌else◌}
use zcmesh.Net.Api.{Endpoint}
use zcmesh.Net.Endpoints.{parse_endpoint}
use zcmesh.Net.Udp.{UdpSocket, open_socket, close, socket_api}
use zcmesh.Net.Host.{HostApi}
use zcmesh.Hop.{HopCounts, relay_all}
use zcmesh.Hop.Arguments.{HopOptions, parse_hop}

-- What the loop works with: the socket that it listens on, and `out`.
pub record Relaying (W : Type 0) : Type 0 where
  pub fd : ℕ
  pub forward : Endpoint
  pub loss_pct : ℕ
  pub final_hop : Bool
  pub out : UdpSocket W

pub data HopStart (W : Type 0) : Type 0 where
  serves : Relaying W → HopStart W
  exits : ℕ → W → HopStart W

-- `loss_pct <= 0` loses nothing.
abbrev pub percentage : Option ℕ → ℕ
percentage none = 0
percentage (some n) = n

module _ {W : Type 0} (host : HostApi W) where
  -- `closesocket(fd); net_shutdown(); return 1;`
  abbrev pub give_up_on : ℕ → W → HopStart W
  give_up_on fd w = exits 1 (host.net_shutdown (host.udp.close_socket (some fd) w))

  -- from `UdpSocket out` on; `out` is destroyed where `main` returns
  abbrev pub open_out : HopOptions → Endpoint → ℕ → W → HopStart W
  open_out o forward fd w =
      let (opened, out) = open_socket (host.udp) (record { fd = none; system = w }) in
      let gone =
        exits 1
          (close (host.udp) (record out {
            system = host.net_shutdown (host.udp.close_socket (some fd) (out.system));
          })).system in
      if not opened
      then gone
      else serves (record {
        fd = fd;
        forward = forward;
        loss_pct = percentage o.loss_pct;
        final_hop = o.final_hop;
        out = out;
      })

  -- from `set_reuse` on
  abbrev pub bind_listen : HopOptions → Endpoint → Endpoint → ℕ → W → HopStart W
  bind_listen o listen forward fd w =
      let (known, w1) = host.udp.resolve listen (host.udp.reuse_address fd w) in
      let (bound, w2) = host.udp.bind fd listen w1 in
      if not known
      then give_up_on fd w1
      else if not bound
      then give_up_on fd w2
      else open_out o forward fd w2

  abbrev pub on_socket : HopOptions → Endpoint → Endpoint → Option ℕ × W → HopStart W
  on_socket o listen forward (none, w) = exits 1 (host.net_shutdown w)
  on_socket o listen forward (some fd, w) = bind_listen o listen forward fd w

  -- from `net_init` on
  abbrev pub start_network : HopOptions → List ℕ → List ℕ → W → HopStart W
  start_network o listen_ep forward_ep w =
      let (up, w1) = host.net_init w in
      let (ok_listen, listen) = parse_endpoint listen_ep in
      let (ok_forward, forward) = parse_endpoint forward_ep in
      if not up
      then exits 1 w1
      else if not ok_listen
      then exits 1 (host.net_shutdown w1)
      else if not ok_forward
      then exits 1 (host.net_shutdown w1)
      else on_socket o listen forward (host.udp.socket w1)

  abbrev pub hop_checked : HopOptions → Option (List ℕ) → Option (List ℕ) → W → HopStart W
  hop_checked o (some listen_ep) (some forward_ep) w = start_network o listen_ep forward_ep w
  hop_checked o (some listen_ep) none w = exits 1 w
  hop_checked o none forward_ep w = exits 1 w

  abbrev pub hop_parsed : Option HopOptions → W → HopStart W
  hop_parsed none w = exits 1 w
  hop_parsed (some o) w = hop_checked o o.listen o.forward w

  unfoldable pub start_hop : List (List ℕ) → W → HopStart W
  start_hop args w = hop_parsed (parse_hop args) w

  -- The program that serves, over what arrives; it does not end by itself.
  abbrev pub serve : Relaying W → List (Option (List ℕ)) → HopCounts → HopCounts × UdpSocket W
  serve r arrivals c =
      relay_all (socket_api (host.udp)) r.forward r.loss_pct r.final_hop arrivals c r.out
