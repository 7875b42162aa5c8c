-- ===== src/Tests/Files.antt =====
-- The theorems on runs of the edge, capture files, their report and their replay at concrete inputs.
use zcmesh.Base.{
  ℕ, ◌*◌, ◌^◌, ◌≤◌, ◌<◌, ◌≡◌, ◌↔◌, ◌⊎◌, refl, ap, arith, min, not, ◌==◌, true, false, none, some,
  List, [], ◌∷◌, ◌++◌, All, All-append, IsByte, length, inr,
}
use zcmesh.Wire.Frame.{Frame, of_bytes, frame_bytes}
use zcmesh.Net.Api.{TcpApi, IsTcp, recorded, UdpApi}
use zcmesh.Batch.{new_batch, frames_bytes}
use zcmesh.Batch.Validity.{new_batch-IsValid}
use zcmesh.Control.{datagram}
use zcmesh.Edge.{taped, linked, new_gate}
use zcmesh.Edge.Loop.{LoopState, Polled, Reading, run}
use zcmesh.Edge.Loop.Delivery.{over_tcp}
use zcmesh.Edge.Loop.ToCapture.{Collected, run-Collected}
use zcmesh.Capture.{Decoder, got, decode_tcp_stream}
use zcmesh.Capture.Accounting.{IsGood, append_all}
use zcmesh.Capture.Select.{Turn, capture}
use zcmesh.Capture.Select.Written.{Captured, Whole, capture-Captured}
use zcmesh.Zcm.{File, new_file, disk_file, header_bytes, header_for}
use zcmesh.Zcm.Opening.{open_capture-header_bytes}
use zcmesh.Analyze.{new_analyze, note_seq, observe, total_gaps}
use zcmesh.Analyze.Gaps.{observe_all}
use zcmesh.Inspect.{Expect, inspect}
use zcmesh.Inspect.Reading.{frames_at, raws_of}
use zcmesh.Inspect.Verdict.{Meets, inspect_iff}
use zcmesh.Inspect.OfCapture.{inspect-Captured}
use zcmesh.Replay.{replay}
use zcmesh.Replay.Success.{Accepts}
use zcmesh.Replay.OfCapture.{replay-Captured, replay-Accepts}
use zcmesh.Tests.Wire.{golden, golden_frame, golden_good, golden-IsByte, golden-IsFrame}
use zcmesh.Tests.Batch.{slow_tcp-IsTcp}
use zcmesh.Tests.Router.{hop_at, router}
use zcmesh.Tests.Edge.{edge}
use zcmesh.Tests.Receivers.{disk, counters}

abbrev fresh : LoopState (taped (linked edge)) (over_tcp (hop_at 9002) 7 25)
fresh = record {
  edge = record {
    batch = new_batch 2;
    router = router;
    gate = new_gate;
    stats = record { mesh_failover = 0; tcp_partial_abort = 0; mesh_rescue_frames = 0 };
    world = ((0, record { connections = 0; stream = [] }), []);
  };
  seq = 0;
  sent_ok = 0;
  sent_fail = 0;
  dropped_count = 0;
}

abbrev quiet : Polled (taped (linked edge)) (over_tcp (hop_at 9002) 7 25)
quiet = record { datagrams = []; skip_file = none }

abbrev skipping : Polled (taped (linked edge)) (over_tcp (hop_at 9002) 7 25)
skipping = record { datagrams = datagram (1 ∷ []) ∷ []; skip_file = some 1 }

abbrev readings : List Reading
readings =
    record { sensor = 1; raw = 250 }
    ∷ record { sensor = 2; raw = 0xFFFFFFFF }
    ∷ record { sensor = 3; raw = 7 }
    ∷ []

run-Collected_example :
    Collected edge slow_tcp-IsTcp disk
      (hop_at 9002)
      7
      25
      readings
      fresh
      (run
        (taped (linked edge))
        (over_tcp (hop_at 9002) 7 25)
        (quiet ∷ skipping ∷ quiet ∷ [])
        readings
        fresh)
      counters
unfolding new_batch
run-Collected_example =
    run-Collected edge slow_tcp-IsTcp disk (hop_at 9002) 7 25 (quiet ∷ skipping ∷ quiet ∷ [])
      readings fresh counters (new_batch-IsValid 2 (omega arith) (omega arith)) refl refl refl
      (omega arith)
      ((omega arith, omega arith), ((omega arith, omega arith), ((omega arith, omega arith), tt)))
      (omega arith) (omega arith)

-- A connection whose first receipt cuts a frame, and a datagram.
abbrev turns : List Turn
turns =
    record { accepted = true; from_client = none; from_udp = none }
    ∷ record { accepted = false; from_client = some (got (golden ++ 0x43 ∷ [])); from_udp = none }
    ∷ record { accepted = false; from_client = none; from_udp = some (some golden) }
    ∷ []

capture-Captured_example :
    let (code, d) = capture disk_file turns (new_file 100) in
    (length d.out.text ≡ 100) ⊎ Whole 100 code d
capture-Captured_example =
    capture-Captured turns 100
      (
        (tt, tt),
        (
          (All-append IsByte golden (0x43 ∷ []) golden-IsByte (omega arith, tt), tt),
          ((tt, golden-IsByte), tt),
        ),
      )
      (omega arith)

-- Two frames and a byte of a third.
abbrev pub frames : List Frame
frames = golden_frame ∷ golden_frame ∷ []

abbrev body : List ℕ
body = frames_bytes frames ++ 0x43 ∷ []

abbrev pub text : List ℕ
text = header_bytes (header_for 2) ++ body

abbrev pub ended : Decoder File
ended = record {
  ok = 2;
  drop = 0;
  resync = 0;
  out = record { text = text; position = 16; limit = length text };
}

abbrev pub captured : Captured (length text) 0 ended
captured = record {
  frames = frames;
  part = 0x43 ∷ [];
  text = refl;
  counted = refl;
  good = (golden_good, (golden_good, tt));
  fit = (golden-IsFrame, (golden-IsFrame, tt));
  whole = inr refl;
  short = omega arith;
  exits = refl;
}

abbrev expect : Expect
expect = record {
  gaps_min = none;
  gaps_max = some 0;
  hop_idx = some 0;
  last_hop_short = λ last all. false;
  frames_min = some 2;
  raws = [];
}

no_gaps : total_gaps (observe_all new_analyze frames) < 2 ^ 63
unfolding total_gaps observe note_seq of_bytes
no_gaps = omega arith

no_gaps_read : total_gaps (observe_all new_analyze (frames_at 2 body)) < 2 ^ 63
unfolding total_gaps observe note_seq of_bytes frame_bytes
no_gaps_read = omega arith

inspect_example : (inspect expect text ≡ 0) ↔ (
    (24 * 2 ≤ length body)
    × All IsGood (frames_at 2 body)
    × Meets expect (observe_all new_analyze (frames_at 2 body)) (raws_of (frames_at 2 body)))
inspect_example =
    inspect_iff expect text body (header_for 2) (open_capture-header_bytes 2 body (omega arith))
      (omega arith) no_gaps_read

inspect-Captured_example :
    (inspect expect text ≡ 0) ↔ Meets expect (observe_all new_analyze frames) (raws_of frames)
inspect-Captured_example =
    inspect-Captured (length text) 0 ended captured expect (omega arith) no_gaps

-- A receiver that takes a byte at a time.
abbrev byte_tcp : TcpApi ℕ
byte_tcp = record {
  connected = λ w. not (w == 0);
  send_nb = λ bytes w. (some (min 1 (length bytes)), w);
  connect = λ e w. (true, 1);
  close = λ w. 0;
}

byte_tcp-IsTcp : IsTcp byte_tcp
byte_tcp-IsTcp = record {
  send_le = λ bytes w n e. ground (arith, e);
  connect_lem = λ e w. refl;
  close_lem = λ w. refl;
}

abbrev pub no_udp : UdpApi (ℕ × List ℕ)
no_udp = record { send_to = λ e bytes w. (false, w) }

abbrev IsUp : ℕ → Type 0
IsUp w = w ≡ 1

byte_tcp-Accepts : Accepts byte_tcp byte_tcp-IsTcp no_udp (hop_at 9002) IsUp
byte_tcp-Accepts = λ bytes w up some_bytes. ((0, ap some (omega arith)), up)

replay-Captured_example :
    let (code, counts, s) = replay (recorded byte_tcp) no_udp (hop_at 9002) 24 true text (0, []) in
    (counts.sent ≡ 2)
    × (decode_tcp_stream disk s.1 counters ≡ ([], append_all disk frames counters))
replay-Captured_example =
    replay-Captured byte_tcp byte_tcp-IsTcp no_udp (hop_at 9002) 24 (length text) 0 ended captured 0
      disk counters (omega arith)
      (replay-Accepts byte_tcp byte_tcp-IsTcp no_udp (hop_at 9002) 24 IsUp (length text) 0 ended
        captured 0 (omega arith) (omega arith) refl byte_tcp-Accepts refl)
