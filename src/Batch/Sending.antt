-- ===== src/Batch/Sending.antt =====
-- The send loop of `flush_tcp` in core-engine/src/batch.cpp: which bytes it has moved past when it stops.
use zcmesh.Base.{
  ℕ, zero, suc, ◌+◌, ◌-◌, ◌≤◌, ◌<◌, ◌≡◌, ◌≢◌, refl, sym, ◌∙◌, ap, ap₂, arith, true, List, [], ◌++◌,
  Option, none, some, take, drop, append_assoc, append-nil, take-add, take-take, drop-drop,
  length-take, ltb, ltb→le, Bool-cases, inl, inr,
}
use zcmesh.Net.Api.{TcpApi, IsTcp, recorded, accepted}
use zcmesh.Batch.{FlushExit, drained, stalled, failed, out_of_fuel, flush_loop}

-- What the loop has done when it stops, started at `off` with the bytes of `stream` accepted.
pub record Drained {W : Type 0} (buffer : List ℕ) (total off : ℕ) (stream : List ℕ)
    (r : FlushExit × ℕ × (W × List ℕ)) : Type 0 where
  pub ends : r.0 ≢ out_of_fuel
  pub grows : off ≤ r.1
  pub within : r.1 ≤ total
  pub done : r.0 ≡ drained → r.1 ≡ total
  pub sent : r.2.1 ≡ stream ++ take (r.1 - off) (drop off buffer)

module _ {W : Type 0} (tcp : TcpApi W) (laws : IsTcp tcp) where
  Drained-stop :
      (buffer : List ℕ) (total off : ℕ) (stream : List ℕ) (s : W × List ℕ) (exit : FlushExit)
      → s.1 ≡ stream
      → off ≤ total
      → exit ≢ out_of_fuel
      → (exit ≡ drained → off ≡ total)
      → Drained buffer total off stream (exit, off, s)
  Drained-stop buffer total off stream s exit same h ne d = record {
    ends = ne;
    grows = omega arith;
    within = h;
    done = d;
    sent = let e : off - off ≡ 0 = omega arith in same ∙ rw (e, append-nil);
  }

  Drained-send :
      (buffer : List ℕ) (total off n : ℕ) (stream stream' : List ℕ)
      (r : FlushExit × ℕ × (W × List ℕ))
      → suc n ≤ total - off
      → stream' ≡ stream ++ accepted (take (total - off) (drop off buffer)) (some (suc n))
      → Drained buffer total (off + suc n) stream' r
      → Drained buffer total off stream r
  Drained-send buffer total off n stream stream' r le e rest = record {
    ends = rest.ends;
    grows = omega (arith, rest.grows);
    within = rest.within;
    done = rest.done;
    sent =
        rest.sent
        ∙ ap (λ xs. xs ++ take (r.1 - (off + suc n)) (drop (off + suc n) buffer)) e
        ∙ ap₂ (λ xs ys. (stream ++ xs) ++ take (r.1 - (off + suc n)) ys)
            (take-take (suc n) (total - off) (drop off buffer) le)
            (sym (drop-drop (suc n) off buffer))
        ∙ append_assoc stream (take (suc n) (drop off buffer)) _
        ∙ ap (◌++◌ stream) (
            sym (take-add (suc n) (r.1 - (off + suc n)) (drop off buffer))
            ∙ ap (λ k. take k (drop off buffer)) (omega (arith, rest.grows)));
  }

  -- From an offset within the total and with more fuel than bytes left, the send loop ends
  -- without running out of fuel, its offset stays between start and total, and it has appended to
  -- the stream exactly the bytes it moved past.
  pub flush_loop-Drained :
      (fuel : ℕ) (buffer : List ℕ) (total off : ℕ) (w : W) (stream : List ℕ)
      → off ≤ total
      → total - off < fuel
      → Drained buffer total off stream
          (flush_loop (recorded tcp) fuel buffer total off (w, stream))
  unfolding flush_loop
  flush_loop-Drained zero buffer total off w stream h f = absurd (omega arith)
  flush_loop-Drained (suc fuel) buffer total off w stream h f = elim (Bool-cases (ltb off total)) [
    | inr over ↦
        rw (over, flush_loop)
          (Drained-stop buffer total off stream (w, stream) drained refl h (λ e. cc)
            (λ _. omega (arith, ltb→le off total over)))
    | inl more ↦ after more (tcp.send_nb offer w).0 refl (λ n le.
        flush_loop-Drained fuel buffer total (off + suc n) (tcp.send_nb offer w).1
          (stream ++ accepted offer (tcp.send_nb offer w).0) (omega arith) (omega arith))
  ]
    where
      offer : List ℕ
      offer = take (total - off) (drop off buffer)

      offered : (n : ℕ) → (tcp.send_nb offer w).0 ≡ some n → n ≤ total - off
      offered n e =
          omega (arith, laws.send_le offer w n e, length-take (total - off) (drop off buffer))

      refused :
          (r : Option ℕ)
          → (tcp.send_nb offer w).0 ≡ r
          → accepted offer r ≡ []
          → stream ++ accepted offer (tcp.send_nb offer w).0 ≡ stream
      refused r e none_taken =
          ap (λ t. stream ++ accepted offer t) e ∙ ap (◌++◌ stream) none_taken ∙ append-nil stream

      after :
          ltb off total ≡ true
          → (r : Option ℕ) → (tcp.send_nb offer w).0 ≡ r
          → ((n : ℕ)
              → suc n ≤ total - off
              → Drained buffer total
                  (off + suc n)
                  (stream ++ accepted offer (tcp.send_nb offer w).0)
                  (flush_loop
                    (recorded tcp)
                    fuel
                    buffer
                    total
                    (off + suc n)
                    ((recorded tcp).send_nb offer (w, stream)).1))
          → Drained buffer total off stream
              (flush_loop (recorded tcp) (suc fuel) buffer total off (w, stream))
      after more none e next =
          rw (more, e, flush_loop)
            (Drained-stop buffer total off stream _ failed (refused none e refl) h (λ d. cc)
              (λ d. cc))
      after more (some zero) e next =
          rw (more, e, flush_loop)
            (Drained-stop buffer total off stream _ stalled (refused (some 0) e refl) h (λ d. cc)
              (λ d. cc))
      after more (some (suc n)) e next =
          rw (more, e, flush_loop)
            (Drained-send buffer total off n stream
              (stream ++ accepted offer (tcp.send_nb offer w).0) _ (offered (suc n) e)
              (ap (λ r. stream ++ accepted offer r) e) (next n (offered (suc n) e)))
