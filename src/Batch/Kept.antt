-- ===== src/Batch/Kept.antt =====
-- What each send of the socket keeps, the flushes of core-engine/src/batch.cpp keep.
use zcmesh.Base.{
  arith, ℕ, zero, suc, ◌+◌, ◌-◌, ◌≡◌, refl, true, Bool-cases, inl, inr, Option, none, some, List,
  take, drop, ltb,
}
use zcmesh.Net.Api.{TcpApi}
use zcmesh.Batch.{
  FrameBatch, bytes, frames_bytes, FlushExit, drained, stalled, failed, out_of_fuel, flush_loop,
  flush_result, flush_tcp, flush_tcp_retry,
}

module _ {W : Type 0} (Holds : W → Type 0) where
  module _ (tcp : TcpApi W)
      (send_keeps : (bs : List ℕ) (w : W) → Holds w → Holds (tcp.send_nb bs w).1) where
    flush_loop-Holds :
        (fuel : ℕ) (buffer : List ℕ) (total off : ℕ) (w : W)
        → Holds w
        → Holds (flush_loop tcp fuel buffer total off w).2
    unfolding flush_loop
    flush_loop-Holds zero buffer total off w h = h
    flush_loop-Holds (suc fuel) buffer total off w h = elim (Bool-cases (ltb off total)) [
      | inr over ↦ rw (over, flush_loop) h
      | inl more ↦
          by_answer more (tcp.send_nb (take (total - off) (drop off buffer)) w).0 refl (λ n.
            flush_loop-Holds fuel buffer total (off + suc n)
              (tcp.send_nb (take (total - off) (drop off buffer)) w).1
              (send_keeps (take (total - off) (drop off buffer)) w h))
    ]
      where
        part : List ℕ
        part = take (total - off) (drop off buffer)

        by_answer :
            ltb off total ≡ true
            → (r : Option ℕ) → (tcp.send_nb part w).0 ≡ r
            → ((n : ℕ)
                → Holds (flush_loop tcp fuel buffer total (off + suc n) (tcp.send_nb part w).1).2)
            → Holds (flush_loop tcp (suc fuel) buffer total off w).2
        by_answer more none e later = rw (more, e, flush_loop) (send_keeps part w h)
        by_answer more (some zero) e later = rw (more, e, flush_loop) (send_keeps part w h)
        by_answer more (some (suc n)) e later = rw (more, e, flush_loop) (later n)

    flush_result-Holds :
        (b : FrameBatch) (exit : FlushExit) (w : W) → Holds w → Holds (flush_result tcp b exit w).2
    unfolding flush_result
    flush_result-Holds b drained w h = h
    flush_result-Holds b stalled w h = h
    flush_result-Holds b failed w h = h
    flush_result-Holds b out_of_fuel w h = h

    flush_tcp-Holds : (b : FrameBatch) (w : W) → Holds w → Holds (flush_tcp tcp b w).2
    unfolding flush_tcp
    flush_tcp-Holds b w h =
        let (exit, off, w') =
          flush_loop tcp (bytes b + 1) (frames_bytes b.frames) (bytes b) b.send_offset w in
        let flushed =
          flush_result-Holds (record b { send_offset = off }) exit w'
            (flush_loop-Holds (bytes b + 1) (frames_bytes b.frames) (bytes b) b.send_offset w h) in
        ground (arith, h, flushed)

    pub flush_tcp_retry-Holds :
        (b : FrameBatch) (attempts : ℕ) (w : W)
        → Holds w
        → Holds (flush_tcp_retry tcp b attempts w).2
    unfolding flush_tcp_retry
    flush_tcp_retry-Holds b zero w h = h
    flush_tcp_retry-Holds b (suc attempts) w h =
        let (ok, b', w') = flush_tcp tcp b w in
        let h' = flush_tcp-Holds b w h in
        let again = flush_tcp_retry-Holds b' attempts w' h' in ground (arith, h', again)
