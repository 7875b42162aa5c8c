-- ===== src/Capture/Start.antt =====
-- `main` of core-engine/src/capture.cpp from its arguments to its exit code: the sockets around the loop of
-- Select. The file and the sockets have worlds of their own.
pub mod Sockets
pub mod Client
pub mod Ended
use zcmesh.Base.{
  ℕ, not, ◌&&◌, Bool, true, false, Option, none, some, List, [], ◌∷◌, map, if◌then◌else◌,
}
use zcmesh.Net.Api.{Endpoint}
use zcmesh.Net.Endpoints.{parse_endpoint}
use zcmesh.Net.Host.{HostApi}
use zcmesh.Zcm.{SeekApi, rewrite_header}
use zcmesh.Capture.{Received, would_block, closed, got, Decoder}
use zcmesh.Capture.Select.{Turn, capture}
use zcmesh.Capture.Arguments.{Mode, has_udp, has_tcp, CaptureOptions, parse_capture}

-- The sockets of the loop; -1 is `none`.
pub record Ports : Type 0 where
  pub udp_fd : Option ℕ
  pub tcp_fd : Option ℕ

pub data Listening (W : Type 0) : Type 0 where
  ready : Ports → W → Listening W
  refused : W → Listening W

-- What is reported of sockets that are there.
abbrev pub seen_in : Mode → Turn → Turn
seen_in mode t = record t {
  accepted = has_tcp mode && t.accepted;
  from_udp = if has_udp mode then t.from_udp else none;
}

module _ {W : Type 0} (host : HostApi W) where
  abbrev pub on_udp_socket : Endpoint → Option ℕ × W → Listening W
  on_udp_socket ep (none, w) = refused (host.net_shutdown w)
  on_udp_socket ep (some fd, w) =
      let (bound, w1) = host.udp.bind fd ep (host.udp.reuse_address fd w) in
      if not bound
      then refused (host.net_shutdown (host.udp.close_socket (some fd) w1))
      else ready (record { udp_fd = some fd; tcp_fd = none }) (host.udp.set_nonblocking fd w1).1

  abbrev pub listen_udp : Mode → Endpoint → W → Listening W
  listen_udp mode ep w =
      if has_udp mode
      then on_udp_socket ep (host.udp.socket w)
      else ready (record { udp_fd = none; tcp_fd = none }) w

  abbrev pub on_tcp_socket : Endpoint → Ports → Option ℕ × W → Listening W
  on_tcp_socket ep p (none, w) = refused (host.net_shutdown (host.udp.close_socket p.udp_fd w))
  on_tcp_socket ep p (some fd, w) =
      let (bound, w1) = host.udp.bind fd ep (host.udp.reuse_address fd w) in
      let (listening, w2) = host.listen fd w1 in
      let stop : W → Listening W = λ w.
        refused (
          host.net_shutdown (host.udp.close_socket (some fd) (host.udp.close_socket p.udp_fd w))) in
      if not bound
      then stop w1
      else if not listening
      then stop w2
      else ready (record p { tcp_fd = some fd }) (host.udp.set_nonblocking fd w2).1

  abbrev pub listen_tcp : Mode → Endpoint → Listening W → Listening W
  listen_tcp mode ep (refused w) = refused w
  listen_tcp mode ep (ready p w) =
      if has_tcp mode then on_tcp_socket ep p (host.stream_socket w) else ready p w

  -- The client's descriptor where a connection is accepted: the one before it is closed.
  abbrev pub accept_client : Bool → Option ℕ × W → Option ℕ × W
  accept_client false (client, w) = (client, w)
  accept_client true (client, w) =
      let (c, w1) = host.accept w in
      (some c, (host.udp.set_nonblocking c (host.udp.close_socket client w1)).1)

  -- and where the client's socket is read
  abbrev pub read_descriptor : Option Received → Option ℕ × W → Option ℕ × W
  read_descriptor none s = s
  read_descriptor (some would_block) s = s
  read_descriptor (some (got bytes)) s = s
  read_descriptor (some closed) (client, w) = (none, host.udp.close_socket client w)

  -- The descriptor over the turns of the loop.
  abbrev pub client_descriptor : List Turn → Option ℕ × W → Option ℕ × W
  client_descriptor [] s = s
  client_descriptor (t ∷ ts) s =
      client_descriptor ts (read_descriptor t.from_client (accept_client t.accepted s))

  module _ {F : Type 0} (api : SeekApi F) (turns : List Turn) where
    -- The exit code, the counters and the file where it was opened, and the system.
    abbrev pub End : Type 0
    End = ℕ × Option (Decoder F) × W

    -- from `fopen` on, whose answer is given
    abbrev pub on_file : CaptureOptions → Ports → Option F → W → End
    on_file o p none w = (
      1,
      none,
      host.net_shutdown (host.udp.close_socket p.tcp_fd (host.udp.close_socket p.udp_fd w)),
    )
    on_file o p (some file) w =
        let (code, d) = capture api (map (seen_in o.mode) turns) file in
        let close_udp = λ (w' : W). host.udp.close_socket p.udp_fd w' in
        let close_tcp = λ (w' : W). host.udp.close_socket p.tcp_fd w' in
        let (opened, start) = rewrite_header api 0 file in
        let (client, w0) = client_descriptor (map (seen_in o.mode) turns) (none, w) in
        let w1 =
          if opened
          then close_udp (close_tcp (host.udp.close_socket client w0))
          else close_tcp (close_udp w) in
        (code, some d, host.net_shutdown w1)

    abbrev pub on_listening : CaptureOptions → Option F → Listening W → End
    on_listening o file (refused w) = (1, none, w)
    on_listening o file (ready p w) = on_file o p file w

    -- from `net_init` on
    abbrev pub start_capture : CaptureOptions → Option F → W → End
    start_capture o file w =
        let (up, w1) = host.net_init w in
        let (good, ep) = parse_endpoint o.listen in
        let (known, w2) = host.udp.resolve ep w1 in
        let run = on_listening o file (listen_tcp o.mode ep (listen_udp o.mode ep w2)) in
        if not up
        then (1, none, w1)
        else if not good
        then (1, none, w1)
        else if not known
        then (1, none, host.net_shutdown w2)
        else run

    abbrev pub capture_checked : CaptureOptions → Option (List ℕ) → (List ℕ → Option F) → W → End
    capture_checked o none open_file w = (1, none, w)
    capture_checked o (some path) open_file w = start_capture o (open_file path) w

    abbrev pub capture_parsed : Option CaptureOptions → (List ℕ → Option F) → W → End
    capture_parsed none open_file w = (1, none, w)
    capture_parsed (some o) open_file w = capture_checked o o.out_path open_file w

    unfoldable pub capture_main : List (List ℕ) → (List ℕ → Option F) → W → End
    capture_main args open_file w = capture_parsed (parse_capture args) open_file w
