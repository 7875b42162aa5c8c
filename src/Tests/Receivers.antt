-- ===== src/Tests/Receivers.antt =====
-- The theorems on the receiver, the relay, the replay and the gap statistics at concrete inputs.
use zcmesh.Base.{
  false, ℕ, ◌+◌, ◌-◌, ◌≡◌, refl, arith, true, none, some, List, [], ◌∷◌, ◌++◌, length, take, drop,
}
use zcmesh.Wire.Frame.{Frame, of_bytes}
use zcmesh.Batch.{frames_bytes}
use zcmesh.Capture.{FileApi, Decoder, Session, decode_tcp_stream, on_client, got}
use zcmesh.Capture.Resync.{Decodes}
use zcmesh.Capture.Stream.{decode_tcp_stream-Decodes}
use zcmesh.Capture.Chunks.{on_client-append}
use zcmesh.Capture.Accounting.{
  taped_file, Accounted, append_all, decode_tcp_stream-Accounted, decode_tcp_stream-frames_bytes,
}
use zcmesh.Hop.{HopCounts, relay_all}
use zcmesh.Hop.Relay.{RelayedAll, Counted, relay_all-Relayed}
use zcmesh.Replay.{Counts, replay_all}
use zcmesh.Replay.Sending.{Replayed, replay_all-Replayed}
use zcmesh.Analyze.{new_analyze, new_stats, lookup}
use zcmesh.Analyze.Gaps.{observe_all, observe_all-IsRising}
use zcmesh.Net.Api.{TcpApi, Datagram, logged}
use zcmesh.Tests.Wire.{golden, golden_frame, golden_good, golden-IsFrame}
use zcmesh.Tests.Router.{lossy_udp, hop_at}

-- A file that takes all; the world counts the writes.
abbrev pub disk : FileApi ℕ
disk = record { fwrite = λ bytes w. (length bytes, w + 1) }

abbrev pub counters : Decoder ℕ
counters = record { ok = 0; drop = 0; resync = 0; out = 0 }

abbrev taped_counters : Decoder (ℕ × List ℕ)
taped_counters = record { ok = 0; drop = 0; resync = 0; out = (0, []) }

abbrev session : Session disk
session = record { client = true; stream = []; decoder = counters }

-- Noise, a frame, and the start of another.
abbrev noisy : List ℕ
noisy = 9 ∷ 0x43 ∷ 0x5A ∷ golden ++ 0x43 ∷ []

on_client-append_example :
    on_client disk (got (drop 10 noisy)) (on_client disk (got (take 10 noisy)) session)
    ≡ on_client disk (got (take 10 noisy ++ drop 10 noisy)) session
on_client-append_example = on_client-append disk session (take 10 noisy) (drop 10 noisy)

decode_tcp_stream-Decodes_example :
    let (rest, d') = decode_tcp_stream disk noisy counters in Decodes disk rest d' noisy counters
decode_tcp_stream-Decodes_example = decode_tcp_stream-Decodes disk noisy counters

decode_tcp_stream-Accounted_example :
    let (rest, d') = decode_tcp_stream (taped_file disk) noisy taped_counters in
    Accounted disk noisy taped_counters rest d'
decode_tcp_stream-Accounted_example =
    decode_tcp_stream-Accounted disk noisy taped_counters (omega arith)

decode_tcp_stream-frames_bytes_example :
    decode_tcp_stream disk (frames_bytes (golden_frame ∷ golden_frame ∷ []) ++ 0x43 ∷ []) counters
    ≡ (0x43 ∷ [], append_all disk (golden_frame ∷ golden_frame ∷ []) counters)
decode_tcp_stream-frames_bytes_example =
    decode_tcp_stream-frames_bytes disk (golden_frame ∷ golden_frame ∷ []) (0x43 ∷ []) counters
      (golden-IsFrame, (golden-IsFrame, tt)) (golden_good, (golden_good, tt)) (omega arith)

abbrev no_counts : HopCounts
no_counts = record { ok = 0; drop = 0; injected = 0 }

relay_all_example :
    let (c', w') =
      relay_all
        (logged lossy_udp)
        (hop_at 9002)
        10
        true
        (some golden ∷ none ∷ some noisy ∷ [])
        no_counts
        (0, []) in
    (new : List Datagram) × (w'.1 ≡ [] ++ new)
    × RelayedAll lossy_udp (hop_at 9002) 10 true (some golden ∷ none ∷ some noisy ∷ []) new
    × Counted lossy_udp (hop_at 9002) 10 true 3 no_counts c' new
relay_all_example =
    relay_all-Relayed lossy_udp (hop_at 9002) 10 true (some golden ∷ none ∷ some noisy ∷ [])
      no_counts (0, []) (omega arith)

abbrev numbered : ℕ → ℕ → Frame
numbered node_id seq = record (of_bytes []) { node_id = node_id; seq = seq }

-- Node 7 misses two numbers; node 8 is apart.
abbrev seen : List Frame
seen = numbered 7 5 ∷ numbered 8 1 ∷ numbered 7 8 ∷ numbered 7 9 ∷ []

observe_all_example :
    let n = lookup new_stats (observe_all new_analyze seen).by_node 7 in
    (n.frames ≡ 3) × (n.dups ≡ 0) × (n.last_seq ≡ 9) × (n.gaps + n.frames ≡ 9 - 5 + 1)
observe_all_example =
    observe_all-IsRising seen 7 5 (8 ∷ 9 ∷ []) refl (omega arith)
      (omega arith, omega arith, (omega arith, omega arith, tt))

abbrev none_replayed : Counts
none_replayed = record { sent = 0; fail = 0 }

abbrev no_tcp : TcpApi (ℕ × List Datagram)
no_tcp = record {
  connected = λ w. false;
  send_nb = λ bytes w. (none, w);
  connect = λ e w. (false, w);
  close = λ w. w;
}

replay_all_example :
    let (c', w') =
      replay_all no_tcp
        (logged lossy_udp)
        (hop_at 9002)
        0
        false
        (golden ∷ noisy ∷ golden ∷ [])
        none_replayed
        (0, []) in
    Replayed no_tcp lossy_udp
      (hop_at 9002)
      0
      (golden ∷ noisy ∷ golden ∷ [])
      none_replayed
      []
      c'
      w'.1
replay_all_example =
    replay_all-Replayed no_tcp lossy_udp (hop_at 9002) 0 (golden ∷ noisy ∷ golden ∷ [])
      none_replayed (0, []) (omega arith)
