-- ===== src/Replay/Start.antt =====
-- `main` of core-engine/src/replay.cpp from its arguments to its exit code, and the pauses of its loop.
pub mod Pauses
pub mod OfFile
use zcmesh.Base.{ℕ, not, Bool, true, false, Option, none, some, List, [], ◌∷◌, ltb, if◌then◌else◌}
use zcmesh.Wire.Frame.{of_bytes}
use zcmesh.Wire.Pack.{verify_frame}
use zcmesh.Net.Api.{Endpoint, TcpApi, UdpApi}
use zcmesh.Net.Endpoints.{parse_endpoint}
use zcmesh.Replay.{Counts, delta_ns, load, replay_loaded}
use zcmesh.Replay.Arguments.{Rate, ReplayOptions, parse_replay, with_rate, use_tcp}

-- What the program waits for between two frames: nanoseconds, or the next period of a rate.
pub data Pause : Type 0 where
  sleep_for : ℕ → Pause
  sleep_period : Rate → Pause

-- No time is slept where the difference is 0.
abbrev pub pause_between : Bool → Rate → List ℕ → List ℕ → List Pause → List Pause
pause_between pace_capture rate frame next later =
    let dns = delta_ns (of_bytes frame).timestamp_lo (of_bytes next).timestamp_lo in
    if pace_capture
    then (if ltb 0 dns then sleep_for dns ∷ later else later)
    else sleep_period rate ∷ later

-- The pauses of the loop over the frames. A frame that does not verify is not followed by one.
pub pauses : Bool → Rate → List (List ℕ) → List Pause
pauses pace_capture rate [] = []
pauses pace_capture rate (f ∷ []) = []
pauses pace_capture rate (f ∷ g ∷ fs) =
    let later = pauses pace_capture rate (g ∷ fs) in
    if verify_frame (of_bytes f) then pause_between pace_capture rate f g later else later

-- What the program has of the system: its sockets and the network.
pub record ReplayHost (W : Type 0) : Type 0 where
  pub tcp : TcpApi W
  pub udp : UdpApi W
  pub open_udp : W → Bool × W
  pub net_init : W → Bool × W
  pub net_shutdown : W → W

module _ {W : Type 0} (host : ReplayHost W) (fuel : ℕ) (files : List ℕ → Option (List ℕ)) where
  abbrev pub Replayed : Type 0
  Replayed = ℕ × Counts × W

  abbrev pub nothing_sent : W → Replayed
  nothing_sent w = (1, record { sent = 0; fail = 0 }, w)

  abbrev pub then_shut : Replayed → Replayed
  then_shut (code, c, w) = (code, c, host.net_shutdown w)

  -- from the choice of the transport on
  abbrev pub over_transport : Bool → ℕ × List ℕ → Endpoint → W → Replayed
  over_transport true blob ep w =
      then_shut (replay_loaded (host.tcp) (host.udp) ep fuel true (some blob) w)
  over_transport false blob ep w =
      let (opened, w1) = host.open_udp w in
      if not opened
      then nothing_sent (host.net_shutdown w1)
      else then_shut (replay_loaded (host.tcp) (host.udp) ep fuel false (some blob) w1)

  -- from `net_init` on
  abbrev pub replay_started : ReplayOptions → Option (ℕ × List ℕ) → W → Replayed
  replay_started o none w = nothing_sent w
  replay_started o (some blob) w =
      let (up, w1) = host.net_init w in
      let (good, ep) = parse_endpoint o.target in
      if not up
      then nothing_sent w1
      else if not good
      then nothing_sent w1
      else over_transport (use_tcp o) blob ep w1

  abbrev pub replay_file : ReplayOptions → Option (List ℕ) → W → Replayed
  replay_file o none w = nothing_sent w
  replay_file o (some text) w = replay_started o (load text) w

  abbrev pub replay_checked : ReplayOptions → Option (List ℕ) → W → Replayed
  replay_checked o none w = nothing_sent w
  replay_checked o (some path) w = replay_file o (files path) w

  abbrev pub replay_parsed : Option ReplayOptions → W → Replayed
  replay_parsed none w = nothing_sent w
  replay_parsed (some o) w = replay_checked o o.in_path w

  unfoldable pub replay_main : List (List ℕ) → W → Replayed
  replay_main args w = replay_parsed (parse_replay args) w
