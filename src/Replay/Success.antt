-- ===== src/Replay/Success.antt =====
-- A replay of core-engine/src/replay.cpp to a receiver that keeps taking bytes.
use zcmesh.Base.{
  All, ℕ, zero, suc, ◌+◌, ◌≤◌, ◌<◌, ◌≡◌, refl, ◌∙◌, arith, true, Bool-cases, inl, inr, List, [],
  ◌∷◌, ◌++◌, some, length, length-drop, drop, ltb, ltb→lt, ltb→le, ==_iff,
}
use zcmesh.Wire.Frame.{of_bytes}
use zcmesh.Wire.Pack.{verify_frame}
use zcmesh.Net.Api.{Endpoint, TcpApi, UdpApi, IsTcp, recorded, accepted}
use zcmesh.Replay.{Counts, send_frame, replay_frame, replay_all}

module _ {W : Type 0} (tcp : TcpApi W) (laws : IsTcp tcp) (udp : UdpApi (W × List ℕ))
    (ep : Endpoint) where
  -- Where it is up, the socket takes at least a byte each time, and stays up.
  abbrev pub Accepts : (W → Type 0) → Type 0
  Accepts up =
      (bytes : List ℕ) (w : W)
      → up w
      → 0 < length bytes
      → ((n : ℕ) × ((tcp.send_nb bytes w).0 ≡ some (suc n))) × up (tcp.send_nb bytes w).1

  send_frame-whole :
      (up : W → Type 0) (fuel : ℕ) (frame : List ℕ) (off : ℕ) (w : W) (stream : List ℕ)
      → Accepts up
      → up w
      → length frame ≡ 24
      → off ≤ 24
      → 24 ≤ off + fuel
      → let (off', s) = send_frame (recorded tcp) udp ep fuel frame off (w, stream) in
        (off' ≡ 24) × up s.0
  unfolding send_frame
  send_frame-whole up zero frame off w stream accepts on size h enough = (omega arith, on)
  send_frame-whole up (suc fuel) frame off w stream accepts on size h enough =
      let (r, w1) = tcp.send_nb (drop off frame) w in
      let tape = stream ++ accepted (drop off frame) r in
      elim (Bool-cases (ltb off 24)) [
        | inr over ↦ rw (over, send_frame) (omega (arith, ltb→le off 24 over), on)
        | inl more ↦
            let ((n, some_taken), still) =
              accepts (drop off frame) w on
                (omega (arith, length-drop off frame, ltb→lt off 24 more)) in
            let le : suc n ≤ length (drop off frame) =
              laws.send_le (drop off frame) w (suc n) some_taken in
            rw (more, some_taken, send_frame)
              (send_frame-whole up fuel frame (off + suc n) w1 tape accepts still size
                (omega (arith, length-drop off frame)) (omega arith))
      ]

  replay_frame-whole :
      (up : W → Type 0) (fuel : ℕ) (f : List ℕ) (c : Counts) (w : W) (stream : List ℕ)
      → Accepts up
      → up w
      → 24 ≤ fuel
      → length f ≡ 24
      → verify_frame (of_bytes f) ≡ true
      → let (c', s) = replay_frame (recorded tcp) udp ep fuel true f c (w, stream) in
        (c'.fail ≡ c.fail) × up s.0
  unfolding replay_frame
  replay_frame-whole up fuel f c w stream accepts on enough size good =
      let (all, still) =
        send_frame-whole up fuel f 0 w stream accepts on size (omega arith) (omega arith) in
      let whole = (==_iff _ 24).1 all in rw (good, whole) (refl, still)

  pub replay_all-whole :
      (up : W → Type 0) (fuel : ℕ) (fs : List (List ℕ)) (c : Counts) (w : W) (stream : List ℕ)
      → Accepts up
      → up w
      → 24 ≤ fuel
      → All (λ f. length f ≡ 24) fs
      → All (λ f. verify_frame (of_bytes f) ≡ true) fs
      → (replay_all (recorded tcp) udp ep fuel true fs c (w, stream)).0.fail ≡ c.fail
  unfolding replay_all
  replay_all-whole up fuel [] c w stream accepts on enough size good = refl
  replay_all-whole up fuel (f ∷ fs) c w stream accepts on enough size good =
      let (c1, (w1, tape)) = replay_frame (recorded tcp) udp ep fuel true f c (w, stream) in
      let (same, still) = replay_frame-whole up fuel f c w stream accepts on enough size.0 good.0 in
      replay_all-whole up fuel fs c1 w1 tape accepts still enough size.1 good.1 ∙ same
