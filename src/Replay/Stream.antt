-- ===== src/Replay/Stream.antt =====
-- What a replay of core-engine/src/replay.cpp puts on a TCP stream.
use zcmesh.Base.{
  All, ℕ, zero, suc, ◌+◌, ◌-◌, ◌≤◌, ◌<◌, ◌^◌, ◌≡◌, ◌⊎◌, refl, sym, ◌∙◌, ap, subst, arith, true,
  Bool-cases, inl, inr, List, [], ◌∷◌, ◌++◌, Option, none, some, append-nil, append_assoc, length,
  length-drop, take, take-add, take-all, drop, drop-drop, ltb, ◌==◌, ==_iff,
}
use zcmesh.Wire.Frame.{of_bytes}
use zcmesh.Wire.Pack.{verify_frame}
use zcmesh.Net.Api.{Endpoint, TcpApi, UdpApi, IsTcp, recorded, accepted}
use zcmesh.Replay.{Counts, send_frame, replay_frame, replay_all}

abbrev pub joined : List (List ℕ) → List ℕ
joined [] = []
joined (f ∷ fs) = f ++ joined fs

module _ {W : Type 0} (tcp : TcpApi W) (laws : IsTcp tcp) (udp : UdpApi (W × List ℕ))
    (ep : Endpoint) where
  -- From the offset `off`, the bytes up to the offset reached are behind the stream.
  abbrev pub Moved : List ℕ → ℕ → List ℕ → ℕ × (W × List ℕ) → Type 0
  Moved frame off stream (off', s) =
      (off ≤ off') × (off' ≤ 24) × (s.1 ≡ stream ++ take (off' - off) (drop off frame))

  still :
      (frame : List ℕ) (off : ℕ) (stream : List ℕ) (s : W × List ℕ)
      → off ≤ 24
      → s.1 ≡ stream
      → Moved frame off stream (off, s)
  still frame off stream s h same =
      let e : off - off ≡ 0 = omega arith in (omega arith, h, same ∙ rw (e, append-nil))

  further :
      (frame : List ℕ) (off n : ℕ) (stream : List ℕ) (r : ℕ × (W × List ℕ))
      → Moved frame (off + n) (stream ++ take n (drop off frame)) r
      → Moved frame off stream r
  further frame off n stream (off', s) (ge, le, sent) = (
    omega arith,
    le,
    sent
        ∙ append_assoc stream (take n (drop off frame))
            (take (off' - (off + n)) (drop (off + n) frame))
        ∙ ap (◌++◌ stream) (
            ap (λ l. take n (drop off frame) ++ take (off' - (off + n)) l)
              (sym (drop-drop n off frame))
            ∙ sym (take-add n (off' - (off + n)) (drop off frame))
            ∙ ap (λ k. take k (drop off frame)) (omega arith)),
  )

  taken_cases : (o : Option ℕ) → (o ≡ none) ⊎ (o ≡ some 0) ⊎ ((n : ℕ) × (o ≡ some (suc n)))
  taken_cases none = inl refl
  taken_cases (some zero) = inr (inl refl)
  taken_cases (some (suc n)) = inr (inr (n, refl))

  send_frame-Moved :
      (fuel : ℕ) (frame : List ℕ) (off : ℕ) (w : W) (stream : List ℕ)
      → length frame ≡ 24
      → off ≤ 24
      → Moved frame off stream (send_frame (recorded tcp) udp ep fuel frame off (w, stream))
  unfolding send_frame
  send_frame-Moved zero frame off w stream size h = still frame off stream (w, stream) h refl
  send_frame-Moved (suc fuel) frame off w stream size h =
      let (r, w1) = tcp.send_nb (drop off frame) w in
      let tape = stream ++ accepted (drop off frame) r in
      let seen : (o : Option ℕ) → r ≡ o → tape ≡ stream ++ accepted (drop off frame) o =
        λ o e. ap (λ o. stream ++ accepted (drop off frame) o) e in
      elim (Bool-cases (ltb off 24)) [
        | inr over ↦ rw (over, send_frame) (still frame off stream (w, stream) h refl)
        | inl more ↦ elim (taken_cases r) [
          | inl broken ↦
              rw (more, broken, send_frame)
                (still frame off stream (w1, tape) h (seen none broken ∙ append-nil stream))
          | inr (inl full) ↦
              rw (more, full, send_frame)
                (let same : tape ≡ stream = seen (some 0) full ∙ append-nil stream in
                  subst
                    (λ t.
                      Moved frame off stream
                        (send_frame (recorded tcp) udp ep fuel frame off (w1, t)))
                    (sym same) (send_frame-Moved fuel frame off w1 stream size h))
          | inr (inr (n, some_taken)) ↦
              rw (more, some_taken, send_frame)
                (let le : suc n ≤ length (drop off frame) =
                    laws.send_le (drop off frame) w (suc n) some_taken in
                  let next =
                    send_frame-Moved fuel frame (off + suc n) w1 tape size
                      (omega (arith, length-drop off frame)) in
                  further frame off (suc n) stream
                    (send_frame (recorded tcp) udp ep fuel frame (off + suc n) (w1, tape))
                    (subst
                      (λ t.
                        Moved frame (off + suc n) t
                          (send_frame (recorded tcp) udp ep fuel frame (off + suc n) (w1, tape)))
                      (seen (some (suc n)) some_taken) next))
        ]
      ]

  -- No failure was counted: then all of it is on the stream and verifies.
  abbrev pub Streamed : List (List ℕ) → Counts → List ℕ → Counts × (W × List ℕ) → Type 0
  Streamed fs c stream (c', s) =
      (c.fail ≤ c'.fail)
      × (c'.fail ≡ c.fail
          → (s.1 ≡ stream ++ joined fs)
            × (c'.sent ≡ c.sent + length fs)
            × All (λ f. verify_frame (of_bytes f) ≡ true) fs)

  replay_frame-Streamed :
      (fuel : ℕ) (f : List ℕ) (c : Counts) (w : W) (stream : List ℕ)
      → length f ≡ 24
      → c.sent + c.fail + 1 < 2 ^ 64
      → let r = replay_frame (recorded tcp) udp ep fuel true f c (w, stream) in
        Streamed (f ∷ []) c stream r × (r.0.sent + r.0.fail ≡ c.sent + c.fail + 1)
  unfolding replay_frame
  replay_frame-Streamed fuel f c w stream size fits =
      let (off, s) = send_frame (recorded tcp) udp ep fuel f 0 (w, stream) in
      let (ge, le, sent) = send_frame-Moved fuel f 0 w stream size (omega arith) in
      elim (Bool-cases (verify_frame (of_bytes f))) [
        | inr bad ↦ rw bad ((omega arith, λ e. absurd (omega (arith, e))), omega arith)
        | inl good ↦ elim (Bool-cases (off == 24)) [
          | inr cut ↦ rw (good, cut) ((omega arith, λ e. absurd (omega (arith, e))), omega arith)
          | inl whole ↦
              let all : take (off - 0) f ≡ f =
                take-all (off - 0) f (omega (arith, (==_iff off 24).0 whole)) in
              rw (good, whole)
                (
                  (
                    omega arith,
                    λ e. (
                      sent ∙ ap (◌++◌ stream) (all ∙ sym (append-nil f)),
                      omega arith,
                      (refl, tt),
                    ),
                  ),
                  omega arith,
                )
        ]
      ]

  pub replay_all-Streamed :
      (fuel : ℕ) (fs : List (List ℕ)) (c : Counts) (w : W) (stream : List ℕ)
      → All (λ f. length f ≡ 24) fs
      → c.sent + c.fail + length fs < 2 ^ 64
      → Streamed fs c stream (replay_all (recorded tcp) udp ep fuel true fs c (w, stream))
  unfolding replay_all
  replay_all-Streamed fuel [] c w stream size fits =
      (omega arith, λ e. (sym (append-nil stream), omega arith, tt))
  replay_all-Streamed fuel (f ∷ fs) c w stream size fits =
      let (c1, (w1, tape)) = replay_frame (recorded tcp) udp ep fuel true f c (w, stream) in
      let ((ge1, all1), sum) = replay_frame-Streamed fuel f c w stream size.0 (omega arith) in
      let (ge2, all2) = replay_all-Streamed fuel fs c1 w1 tape size.1 (omega (arith, sum)) in
      (
        omega arith,
        λ e.
            let (tape1, sent1, good1) = all1 (omega (arith, e)) in
            let (tape2, sent2, good2) = all2 (omega (arith, e)) in
            (
              tape2
                  ∙ ap (λ l. l ++ joined fs) (tape1 ∙ ap (◌++◌ stream) (append-nil f))
                  ∙ append_assoc stream f (joined fs),
              omega (arith, sent1, sent2),
              (good1.0, good2),
            ),
      )
