-- ===== src/Tests/Batch.antt =====
-- Test batches and a test TCP socket, and the theorems on batches at them.
use zcmesh.Base.{ℕ, refl, arith, true, not, some, [], ◌∷◌, length, min, ◌==◌}
use zcmesh.Net.Api.{TcpApi, IsTcp, recorded}
use zcmesh.Batch.{
  FrameBatch, new_batch, push, note_sent, frames_bytes, flush_loop, flush_tcp, flush_tcp_retry,
}
use zcmesh.Batch.Validity.{IsValid, new_batch-IsValid, push-IsValid, note_sent-IsValid}
use zcmesh.Batch.Drain.{Flushed, flush_tcp-Flushed, flush_tcp_retry-Flushed}
use zcmesh.Batch.Sending.{Drained, flush_loop-Drained}
use zcmesh.Tests.Wire.{sample}

-- A socket that takes ten bytes at a time; the world is 1 while it is connected, else 0.
abbrev pub slow_tcp : TcpApi ℕ
slow_tcp = record {
  connected = λ w. not (w == 0);
  send_nb = λ bytes w. (some (min (length bytes) 10), w);
  connect = λ e w. (true, 1);
  close = λ w. 0;
}

pub slow_tcp-IsTcp : IsTcp slow_tcp
slow_tcp-IsTcp = record {
  send_le = λ bytes w n e. ground (arith, e);
  connect_lem = λ e w. refl;
  close_lem = λ w. refl;
}

abbrev pub one_frame : FrameBatch
one_frame = (push (new_batch 4) sample).1

abbrev pub two_frames : FrameBatch
two_frames = (push one_frame (record sample { seq = 43 })).1

-- TCP has taken one frame and six bytes of the other.
abbrev pub partly_sent : FrameBatch
partly_sent = note_sent two_frames 30

pub two_frames-IsValid : IsValid two_frames
two_frames-IsValid =
    push-IsValid one_frame (record sample { seq = 43 })
      (push-IsValid (new_batch 4) sample (new_batch-IsValid 4 (omega arith) (omega arith)))

pub partly_sent-IsValid : IsValid partly_sent
partly_sent-IsValid = note_sent-IsValid two_frames 30 two_frames-IsValid

flush_tcp_retry_example :
    Flushed partly_sent (1 ∷ []) (flush_tcp_retry (recorded slow_tcp) partly_sent 64 (1, 1 ∷ []))
flush_tcp_retry_example =
    flush_tcp_retry-Flushed slow_tcp slow_tcp-IsTcp 64 partly_sent 1 (1 ∷ []) partly_sent-IsValid

flush_tcp_example : Flushed two_frames [] (flush_tcp (recorded slow_tcp) two_frames (1, []))
flush_tcp_example = flush_tcp-Flushed slow_tcp slow_tcp-IsTcp two_frames 1 [] two_frames-IsValid

flush_loop_example :
    Drained
      (frames_bytes two_frames.frames)
      48
      30
      []
      (flush_loop (recorded slow_tcp) 49 (frames_bytes two_frames.frames) 48 30 (1, []))
flush_loop_example =
    flush_loop-Drained slow_tcp slow_tcp-IsTcp 49 (frames_bytes two_frames.frames) 48 30 1 []
      (omega arith) (omega arith)
