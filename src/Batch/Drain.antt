-- ===== src/Batch/Drain.antt =====
-- Draining the batch over TCP: no byte is lost, repeated or reordered, whatever `send` accepts.
use zcmesh.Base.{
  ℕ, zero, suc, ◌+◌, ◌-◌, ◌*◌, ◌≤◌, ◌≡◌, refl, sym, ◌∙◌, ap, ap₂, arith, Bool, true, false, List,
  ◌++◌, take, drop, append_assoc, take-add, drop-drop, drop-all, ◌||◌, not, length-take, ==_iff,
  if◌then◌else◌, Bool-cases, ◌⊎◌, inl, inr,
}
use zcmesh.Net.Api.{TcpApi, IsTcp, recorded}
use zcmesh.Batch.{
  FrameBatch, FlushExit, drained, stalled, failed, out_of_fuel, flush_loop, flush_tcp,
  flush_tcp_retry, frames_bytes, contents, bytes, empty, clear, flush_result,
}
use zcmesh.Batch.Validity.{IsValid}
use zcmesh.Batch.Contents.{pending, pending-slab, length-frames_bytes}
use zcmesh.Batch.Sending.{Drained, flush_loop-Drained}

-- What a flush leaves behind: stream and pending bytes together are as before, and either all is sent
-- and the batch empty, or the frames are all kept and the cursor has not gone back.
abbrev pub Flushed : {W : Type 0} → FrameBatch → List ℕ → Bool × FrameBatch × (W × List ℕ) → Type 0
Flushed b stream r =
    (r.2.1 ++ pending r.1 ≡ stream ++ pending b)
    × IsValid r.1
    × (((r.0 ≡ true) × (r.1.count ≡ 0) × (r.1.send_offset ≡ 0))
        ⊎ ((r.0 ≡ false) × (contents r.1 ≡ contents b) × (b.send_offset ≤ r.1.send_offset)))

module _ {W : Type 0} (tcp : TcpApi W) (laws : IsTcp tcp) where
  -- Bytes that the loop has moved are gone from the front of the pending ones.
  Drained-pending :
      (b : FrameBatch) (off : ℕ) (stream stream' : List ℕ)
      → b.send_offset ≤ off
      → off ≤ b.count * 24
      → stream' ≡ stream ++ take (off - b.send_offset) (drop b.send_offset (frames_bytes b.frames))
      → stream' ++ pending (record b { send_offset = off }) ≡ stream ++ pending b
  Drained-pending b off stream stream' lo hi e =
      ap₂ ◌++◌ e (
        pending-slab (record b { send_offset = off })
        ∙ ap (take (b.count * 24 - off)) (
            ap (λ k. drop k slab) (omega arith)
            ∙ sym (drop-drop (off - b.send_offset) b.send_offset slab)))
      ∙ append_assoc stream (take (off - b.send_offset) rest) _
      ∙ ap (◌++◌ stream) (
          sym (take-add (off - b.send_offset) (b.count * 24 - off) rest)
          ∙ ap (λ k. take k rest) (omega arith)
          ∙ sym (pending-slab b))
    where
      slab : List ℕ
      slab = frames_bytes b.frames

      rest : List ℕ
      rest = drop b.send_offset slab

  Drained-Flushed :
      (b : FrameBatch) (stream : List ℕ) (exit : FlushExit) (off : ℕ) (s : W × List ℕ)
      → IsValid b
      → Drained (frames_bytes b.frames) (b.count * 24) b.send_offset stream (exit, off, s)
      → Flushed b stream (flush_result (recorded tcp) (record b { send_offset = off }) exit s)
  unfolding flush_result clear
  Drained-Flushed b stream drained off s v d = (
    ap (◌++◌ s.1) (
          sym (
            drop-all off (frames_bytes (contents b)) (
              omega (
                arith,
                d.done refl,
                length-frames_bytes (contents b),
                length-take b.count b.frames,
              ))))
        ∙ Drained-pending b off stream s.1 d.grows d.within d.sent,
    ground arith,
    inl (refl, refl, refl),
  )
  Drained-Flushed b stream stalled off s v d = (
    Drained-pending b off stream s.1 d.grows d.within d.sent,
    ground arith,
    inr (refl, refl, d.grows),
  )
  Drained-Flushed b stream failed off s v d = (
    Drained-pending b off stream s.1 d.grows d.within d.sent,
    ground arith,
    inr (refl, refl, d.grows),
  )
  Drained-Flushed b stream out_of_fuel off s v d = absurd (d.ends refl)

  -- `flush_tcp` moves bytes from the front of the pending ones to the end of the stream: together they
  -- stay the same. It returns true with everything sent and the batch empty; otherwise it returns
  -- false and keeps every frame.
  pub flush_tcp-Flushed :
      (b : FrameBatch) (w : W) (stream : List ℕ)
      → IsValid b
      → Flushed b stream (flush_tcp (recorded tcp) b (w, stream))
  unfolding flush_tcp
  flush_tcp-Flushed b w stream v = elim (Bool-cases (empty b || not (tcp.connected w))) [
    | inl idle ↦ rw (idle, flush_tcp) (refl, v, inr (refl, refl, omega arith))
    | inr busy ↦
        rw (busy, flush_tcp) (Drained-Flushed b stream _ _ _ v (loop (bytes b) (omega arith)))
  ]
    where
      slab : List ℕ
      slab = frames_bytes b.frames

      loop :
          (total : ℕ)
          → total ≡ b.count * 24
          → Drained slab
              (b.count * 24)
              b.send_offset
              stream
              (flush_loop (recorded tcp) (total + 1) slab total b.send_offset (w, stream))
      loop total e = rw e (
          flush_loop-Drained tcp laws (b.count * 24 + 1) slab (b.count * 24) b.send_offset w stream
            (omega arith) (omega arith))

  Flushed-again :
      (b b' : FrameBatch) (stream : List ℕ) (ok connected : Bool) (s : W × List ℕ)
      (again : Bool × FrameBatch × (W × List ℕ))
      → Flushed b stream (ok, b', s)
      → Flushed b' s.1 again
      → Flushed b stream (
          if ok
          then (true, b', s)
          else if not connected
          then (false, b', s)
          else if empty b'
          then (true, b', s)
          else again)
  Flushed-again b b' stream true connected s again f g = f
  Flushed-again b b' stream false false s again f g = f
  Flushed-again b b' stream false true s again f g = elim (Bool-cases (empty b')) [
    | inl e ↦ rw e (f.0, f.1, inl (refl, (==_iff b'.count 0).0 e, ground arith))
    | inr e ↦ rw e (g.0 ∙ f.0, g.1, ground arith)
  ]

  -- Of a valid batch, after any number of flush attempts the bytes that TCP has accepted followed
  -- by the bytes still pending are what they were before; the answer is true with the batch
  -- empty, or false with every frame kept and the send cursor not moved back; the batch is valid.
  pub flush_tcp_retry-Flushed :
      (attempts : ℕ) (b : FrameBatch) (w : W) (stream : List ℕ)
      → IsValid b
      → Flushed b stream (flush_tcp_retry (recorded tcp) b attempts (w, stream))
  unfolding flush_tcp_retry
  flush_tcp_retry-Flushed zero b w stream v = (refl, v, ground arith)
  flush_tcp_retry-Flushed (suc n) b w stream v =
      let r = flush_tcp (recorded tcp) b (w, stream) in
      let f = flush_tcp-Flushed b w stream v in
      Flushed-again b r.1 stream r.0 (tcp.connected r.2.0) r.2 _ f
        (flush_tcp_retry-Flushed n r.1 r.2.0 r.2.1 f.1)
