-- ===== src/Replay/Sending.antt =====
-- What a replay of core-engine/src/replay.cpp sends and counts.
use zcmesh.Base.{
  ℕ, ◌+◌, ◌^◌, ◌<◌, ◌≡◌, refl, sym, ◌∙◌, ap, arith, true, false, List, [], ◌∷◌, ◌++◌, append-nil,
  append_assoc, length, if◌then◌else◌, subst, Bool-cases, inl, inr,
}
use zcmesh.Wire.Frame.{of_bytes}
use zcmesh.Wire.Pack.{verify_frame}
use zcmesh.Net.Api.{Endpoint, TcpApi, UdpApi, Datagram, logged}
use zcmesh.Replay.{Counts, replay_frame, replay_all}

-- The frames of a file that verify.
abbrev pub intact : List (List ℕ) → List (List ℕ)
intact [] = []
intact (f ∷ fs) = if verify_frame (of_bytes f) then f ∷ intact fs else intact fs

intact-good :
    (f : List ℕ) (fs : List (List ℕ))
    → verify_frame (of_bytes f) ≡ true
    → intact (f ∷ fs) ≡ f ∷ intact fs
intact-good f fs good = rw good refl

intact-bad :
    (f : List ℕ) (fs : List (List ℕ))
    → verify_frame (of_bytes f) ≡ false
    → intact (f ∷ fs) ≡ intact fs
intact-bad f fs bad = rw bad refl

-- One datagram to `ep` for each frame, in order.
abbrev pub Sends : Endpoint → List (List ℕ) → List Datagram → Type 0
Sends ep [] new = new ≡ []
Sends ep (f ∷ fs) new =
    (d : Datagram) × (rest : List Datagram) × (new ≡ d ∷ rest)
    × (d.to ≡ ep)
    × (d.bytes ≡ f)
    × Sends ep fs rest

module _ {W : Type 0} (tcp : TcpApi (W × List Datagram)) (udp : UdpApi W) (ep : Endpoint)
    (fuel : ℕ) where
  -- After the replay of `fs`.
  abbrev pub Replayed : List (List ℕ) → Counts → List Datagram → Counts → List Datagram → Type 0
  Replayed fs c log c' log' =
      (new : List Datagram) × (log' ≡ log ++ new)
      × Sends ep (intact fs) new
      × (c'.sent + c'.fail ≡ c.sent + c.fail + length fs)

  replay_frame_bad :
      (f : List ℕ) (c : Counts) (w : W × List Datagram)
      → verify_frame (of_bytes f) ≡ false
      → c.sent + c.fail + 1 < 2 ^ 64
      → let (c', w') = replay_frame tcp (logged udp) ep fuel false f c w in
        (w'.1 ≡ w.1) × (c'.sent + c'.fail ≡ c.sent + c.fail + 1)
  unfolding replay_frame
  replay_frame_bad f c w bad fits = rw bad (refl, omega arith)

  replay_frame_good :
      (f : List ℕ) (c : Counts) (w : W × List Datagram)
      → verify_frame (of_bytes f) ≡ true
      → c.sent + c.fail + 1 < 2 ^ 64
      → let (c', w') = replay_frame tcp (logged udp) ep fuel false f c w in
        (d : Datagram) × (w'.1 ≡ w.1 ++ d ∷ [])
        × (d.to ≡ ep)
        × (d.bytes ≡ f)
        × (c'.sent + c'.fail ≡ c.sent + c.fail + 1)
  unfolding replay_frame
  replay_frame_good f c w good fits = elim (Bool-cases (udp.send_to ep f w.0).0) [
    | inl out ↦ rw (good, out) (_, refl, refl, refl, omega arith)
    | inr lost ↦ rw (good, lost) (_, refl, refl, refl, omega arith)
  ]

  -- Over UDP, with counters that do not reach 2^64, a replay sends each frame of the file that
  -- verifies once, in order and unchanged, to its target and nothing else, and counts every frame
  -- once as sent or failed.
  pub replay_all-Replayed :
      (fs : List (List ℕ)) (c : Counts) (w : W × List Datagram)
      → c.sent + c.fail + length fs < 2 ^ 64
      → let (c', w') = replay_all tcp (logged udp) ep fuel false fs c w in Replayed fs c w.1 c' w'.1
  unfolding replay_all
  replay_all-Replayed [] c w fits = ([], sym (append-nil w.1), refl, omega arith)
  replay_all-Replayed (f ∷ fs) c w fits =
      let (c1, w1) = replay_frame tcp (logged udp) ep fuel false f c w in
      elim (Bool-cases (verify_frame (of_bytes f))) [
        | inl good ↦
            let (d, log1, to, bytes, sum1) = replay_frame_good f c w good (omega arith) in
            let (new, log2, sends, sum2) = replay_all-Replayed fs c1 w1 (omega arith) in
            (
              d ∷ new,
              log2 ∙ ap (λ l. l ++ new) log1 ∙ append_assoc w.1 (d ∷ []) new,
              subst (λ xs. Sends ep xs (d ∷ new)) (sym (intact-good f fs good))
                  (d, new, refl, to, bytes, sends),
              omega arith,
            )
        | inr bad ↦
            let (log1, sum1) = replay_frame_bad f c w bad (omega arith) in
            let (new, log2, sends, sum2) = replay_all-Replayed fs c1 w1 (omega arith) in
            (
              new,
              log2 ∙ ap (λ l. l ++ new) log1,
              subst (λ xs. Sends ep xs new) (sym (intact-bad f fs bad)) sends,
              omega arith,
            )
      ]
