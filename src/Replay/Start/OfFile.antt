-- ===== src/Replay/Start/OfFile.antt =====
-- core-engine/src/replay.cpp from its command line to a receiver behind it.
use zcmesh.Base.{
  ℕ, ◌*◌, ◌^◌, ◌≤◌, ◌<◌, ◌≡◌, refl, sym, ◌∙◌, ap, Bool, true, some, Option, List, [], ◌∷◌, length,
}
use zcmesh.Net.Api.{Endpoint, TcpApi, UdpApi, IsTcp, recorded}
use zcmesh.Net.Endpoints.Printing.{endpoint_text, parse_endpoint-endpoint_text}
use zcmesh.Edge.Arguments.Accepted.{IsEndpoint}
use zcmesh.Options.{codes, parse_options}
use zcmesh.Capture.{FileApi, Decoder, decode_tcp_stream}
use zcmesh.Capture.Accounting.{append_all}
use zcmesh.Capture.Select.Written.{Captured}
use zcmesh.Zcm.{File}
use zcmesh.Replay.{load, replay_loaded}
use zcmesh.Replay.Success.{Accepts}
use zcmesh.Replay.OfCapture.{load-Captured, replay-Captured, replay-Accepts}
use zcmesh.Replay.Arguments.{ReplayOptions, replay_defaults, parse_replay, replay_flag}
use zcmesh.Replay.Start.{
  ReplayHost, over_transport, then_shut, replay_parsed, replay_file, replay_started, replay_main,
}

abbrev pub replay_line : List ℕ → Endpoint → List (List ℕ)
replay_line path ep =
    codes "--in"
    ∷ path
    ∷ codes "--target"
    ∷ endpoint_text ep
    ∷ codes "--transport"
    ∷ codes "tcp"
    ∷ []

abbrev read_options : List ℕ → Endpoint → ReplayOptions
read_options path ep = record replay_defaults {
  in_path = some path;
  target = endpoint_text ep;
  transport = codes "tcp";
}

parse-replay_line :
    (path : List ℕ) (ep : Endpoint)
    → parse_replay (replay_line path ep) ≡ some (read_options path ep)
unfolding parse_options replay_flag
parse-replay_line path ep = refl

module _ {W : Type 0} (tcp : TcpApi W) (laws : IsTcp tcp) (udp : UdpApi (W × List ℕ))
    (open_udp : W × List ℕ → Bool × (W × List ℕ)) (net_init : W → Bool × W) (net_shutdown : W → W)
    (fuel : ℕ) (files : List ℕ → Option (List ℕ)) where
  -- The system with the bytes that TCP has accepted.
  abbrev pub recorded_host : ReplayHost (W × List ℕ)
  recorded_host = record {
    tcp = recorded tcp;
    udp = udp;
    open_udp = open_udp;
    net_init = λ s. let (ok, w) = net_init s.0 in (ok, (w, s.1));
    net_shutdown = λ s. (net_shutdown s.0, s.1);
  }

  replay_main-replay_line :
      (path text : List ℕ) (ep : Endpoint) (blob : ℕ × List ℕ) (w : W)
      → IsEndpoint ep
      → files path ≡ some text
      → load text ≡ some blob
      → (net_init w).0 ≡ true
      → replay_main recorded_host fuel files (replay_line path ep) (w, [])
        ≡ over_transport recorded_host fuel files true blob ep ((net_init w).1, [])
  unfolding replay_main
  replay_main-replay_line path text ep blob w (some_host, short, some_port, fits) there loads up =
      let s : W × List ℕ = (w, []) in
      ap (λ p. replay_parsed recorded_host fuel files p s) (parse-replay_line path ep)
      ∙ ap (λ t. replay_file recorded_host fuel files (read_options path ep) t s) there
      ∙ ap (λ b. replay_started recorded_host fuel files (read_options path ep) b s) loads
      ∙ rw (up, parse_endpoint-endpoint_text ep some_host short some_port fits) refl

  -- Of a captured file with fewer than 2^64 bytes of frames and an endpoint that can be written,
  -- the command line of zcmesh_replay with --in, --target and --transport tcp, over a network
  -- that starts and a TCP client with the client laws that connects, and once connected takes at
  -- least a byte of each send and stays so, exits with 0, and a receiver's decoder gets from its
  -- stream exactly the frames of the file, in order.
  pub replay_main-Captured :
      {V : Type 0} (alive : W → Type 0) (path : List ℕ) (ep : Endpoint) (limit code : ℕ)
      (d : Decoder File) (c : Captured limit code d) (w : W) (file : FileApi V) (d0 : Decoder V)
      → IsEndpoint ep
      → files path ≡ some d.out.text
      → 24 * length c.frames < 2 ^ 64
      → 24 ≤ fuel
      → (net_init w).0 ≡ true
      → (tcp.connect ep (net_init w).1).0 ≡ true
      → Accepts tcp laws udp ep alive
      → alive (tcp.connect ep (net_init w).1).1
      → let (code', counts, s) =
          replay_main recorded_host fuel files (replay_line path ep) (w, []) in
        (code' ≡ 0)
        × (counts.sent ≡ length c.frames)
        × (decode_tcp_stream file s.1 d0 ≡ ([], append_all file c.frames d0))
  replay_main-Captured alive path ep limit code d c w file d0 good there few enough up on accepts
        ready =
      let w1 = (net_init w).1 in
      let loads = load-Captured limit code d c few in
      let same = replay_main-replay_line path d.out.text ep _ w good there loads up in
      let zero_code =
        replay-Accepts tcp laws udp ep fuel alive limit code d c w1 few enough on accepts ready in
      let stream = replay-Captured tcp laws udp ep fuel limit code d c w1 file d0 few zero_code in
      let ran =
        same
        ∙ ap
            (λ b.
              then_shut recorded_host fuel files
                (replay_loaded (recorded tcp) udp ep fuel true b (w1, [])))
            (sym loads) in
      rw ran (zero_code, stream.0, stream.1)
