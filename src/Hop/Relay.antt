-- ===== src/Hop/Relay.antt =====
-- What the relay of core-engine/src/hop.cpp sends on and counts.
use zcmesh.Base.{
  inc64, ℕ, ◌+◌, ◌^◌, ◌≤◌, ◌<◌, ◌≡◌, ◌⊎◌, refl, sym, ◌∙◌, ap, arith, Bool, true, false, Option,
  none, some, List, [], ◌∷◌, ◌++◌, append-nil, append_assoc, ltb, ltb→lt, ltb→le, if◌then◌else◌,
  length, Bool-cases, inl, inr,
}
use zcmesh.Wire.Frame.{Frame, frame_bytes, of_bytes, wire_magic, wire_version}
use zcmesh.Wire.Pack.{verify_frame, apply_hop_stamp}
use zcmesh.Wire.Pack.Verify.{verify_frame-seal}
use zcmesh.Net.Api.{Endpoint, UdpApi, Datagram, logged}
use zcmesh.Hop.{HopCounts, should_drop, relay, relay_all}

verify_frame-fields :
    (f : Frame) → verify_frame f ≡ true → (f.magic ≡ wire_magic) × (f.version ≡ wire_version)
unfolding verify_frame
verify_frame-fields f v = ground (arith, v)

apply_hop_stamp-verify :
    (f : Frame) (last : Bool) → verify_frame f ≡ true → verify_frame (apply_hop_stamp f last) ≡ true
unfolding apply_hop_stamp
apply_hop_stamp-verify f last v =
    let (m, ver) = verify_frame-fields f v in verify_frame-seal _ m ver

abbrev pub sent_count : List Datagram → ℕ
sent_count [] = 0
sent_count (d ∷ ds) = (if d.sent then 1 else 0) + sent_count ds

abbrev pub total : HopCounts → ℕ
total c = c.ok + c.drop + c.injected

sent_count-append : (xs bs : List Datagram) → sent_count (xs ++ bs) ≡ sent_count xs + sent_count bs
sent_count-append [] bs = omega arith
sent_count-append (a ∷ xs) bs = omega (arith, sent_count-append xs bs)

module _ {W : Type 0} (udp : UdpApi W) (forward : Endpoint) (loss_pct : ℕ) (final_hop : Bool) where
  -- Why a datagram is not sent on: too short, no frame that verifies, or chosen for loss.
  abbrev pub IsHeld : List ℕ → Type 0
  IsHeld bytes =
      (length bytes < 24)
      ⊎ (verify_frame (of_bytes bytes) ≡ false)
      ⊎ (should_drop (of_bytes bytes).seq loss_pct ≡ true)

  -- What one receipt sends: nothing where it is held back, else its own frame to the next hop, stamped
  -- and valid again.
  abbrev pub RelayedOne : Option (List ℕ) → List Datagram → Type 0
  RelayedOne none new = new ≡ []
  RelayedOne (some bytes) new =
      (IsHeld bytes × (new ≡ []))
      ⊎ ((d : Datagram) × (new ≡ d ∷ [])
          × (24 ≤ length bytes)
          × (verify_frame (of_bytes bytes) ≡ true)
          × (should_drop (of_bytes bytes).seq loss_pct ≡ false)
          × (d.to ≡ forward)
          × (d.bytes ≡ frame_bytes (apply_hop_stamp (of_bytes bytes) final_hop))
          × (verify_frame (apply_hop_stamp (of_bytes bytes) final_hop) ≡ true))

  -- What the receipts send, one after the other.
  abbrev pub RelayedAll : List (Option (List ℕ)) → List Datagram → Type 0
  RelayedAll [] new = new ≡ []
  RelayedAll (r ∷ rs) new =
      (xs : List Datagram) × (ys : List Datagram) × (new ≡ xs ++ ys)
      × RelayedOne r xs
      × RelayedAll rs ys

  -- What is counted for `n` receipts that sent `new`.
  abbrev pub Counted : ℕ → HopCounts → HopCounts → List Datagram → Type 0
  Counted n c c' new = (c'.ok ≡ c.ok + sent_count new) × (total c' ≡ total c + n)

  module _ (bytes : List ℕ) (c : HopCounts) (w : W × List Datagram) where
    abbrev one_more_drop : HopCounts × (W × List Datagram)
    one_more_drop = (record c { drop = inc64 c.drop }, w)

    abbrev relayed : HopCounts × (W × List Datagram)
    relayed = relay (logged udp) forward loss_pct final_hop (some bytes) c w

    relay-short : ltb (length bytes) 24 ≡ true → relayed ≡ one_more_drop
    unfolding relay
    relay-short short = rw short refl

    relay-bad :
        ltb (length bytes) 24 ≡ false
        → verify_frame (of_bytes bytes) ≡ false
        → relayed ≡ one_more_drop
    unfolding relay
    relay-bad long bad = rw (long, bad) refl

    relay-lost :
        ltb (length bytes) 24 ≡ false
        → verify_frame (of_bytes bytes) ≡ true
        → should_drop (of_bytes bytes).seq loss_pct ≡ true
        → relayed ≡ (record c { injected = inc64 c.injected }, w)
    unfolding relay
    relay-lost long good lost = rw (long, good, lost) refl

    relay-on :
        ltb (length bytes) 24 ≡ false
        → verify_frame (of_bytes bytes) ≡ true
        → should_drop (of_bytes bytes).seq loss_pct ≡ false
        → let out = frame_bytes (apply_hop_stamp (of_bytes bytes) final_hop) in
          let (ok, w') = (logged udp).send_to forward out w in
          relayed ≡ (
            if ok
            then (record c { ok = inc64 c.ok }, w')
            else (record c { drop = inc64 c.drop }, w'))
    unfolding relay
    relay-on long good kept = rw (long, good, kept) refl

  relay-Relayed :
      (r : Option (List ℕ)) (c : HopCounts) (w : W × List Datagram)
      → total c + 1 < 2 ^ 64
      → let (c', w') = relay (logged udp) forward loss_pct final_hop r c w in
        (new : List Datagram) × (w'.1 ≡ w.1 ++ new) × RelayedOne r new × Counted 1 c c' new
  relay-Relayed none c w fits =
      unfold relay in ([], sym (append-nil w.1), refl, (omega arith, omega arith))
  relay-Relayed (some bytes) c w fits =
      let f = of_bytes bytes in
      let out = frame_bytes (apply_hop_stamp f final_hop) in
      let still = sym (append-nil w.1) in
      elim (Bool-cases (ltb (length bytes) 24)) [
        | inl short ↦
            rw (relay-short bytes c w short)
              ([], still, inl (inl (ltb→lt _ _ short), refl), (omega arith, omega arith))
        | inr long ↦ elim (Bool-cases (verify_frame f)) [
          | inr bad ↦
              rw (relay-bad bytes c w long bad)
                ([], still, inl (inr (inl bad), refl), (omega arith, omega arith))
          | inl good ↦ elim (Bool-cases (should_drop f.seq loss_pct)) [
            | inl lost ↦
                rw (relay-lost bytes c w long good lost)
                  ([], still, inl (inr (inr lost), refl), (omega arith, omega arith))
            | inr kept ↦
                let valid = apply_hop_stamp-verify f final_hop good in
                let d : Datagram = record {
                  to = forward;
                  bytes = out;
                  sent = (udp.send_to forward out w.0).0;
                } in
                rw (relay-on bytes c w long good kept)
                  (elim (Bool-cases (udp.send_to forward out w.0).0) [
                    | inl sent ↦ (
                      d ∷ [],
                      rw sent refl,
                      inr (d, refl, ltb→le _ _ long, good, kept, refl, refl, valid),
                      rw sent (omega arith, omega arith),
                    )
                    | inr unsent ↦ (
                      d ∷ [],
                      rw unsent refl,
                      inr (d, refl, ltb→le _ _ long, good, kept, refl, refl, valid),
                      rw unsent (omega arith, omega arith),
                    )
                  ])
          ]
        ]
      ]

  -- Of any receipts and counters whose sum does not reach 2^64, each receipt in order sends
  -- nothing if it is too short, no frame that verifies or chosen for loss, and else exactly one
  -- datagram to the next hop, its own frame stamped, which verifies again; ok counts the
  -- datagrams that went out and each receipt is counted once.
  pub relay_all-Relayed :
      (rs : List (Option (List ℕ))) (c : HopCounts) (w : W × List Datagram)
      → total c + length rs < 2 ^ 64
      → let (c', w') = relay_all (logged udp) forward loss_pct final_hop rs c w in
        (new : List Datagram) × (w'.1 ≡ w.1 ++ new)
        × RelayedAll rs new
        × Counted (length rs) c c' new
  unfolding relay_all
  relay_all-Relayed [] c w fits = ([], sym (append-nil w.1), refl, (omega arith, omega arith))
  relay_all-Relayed (r ∷ rs) c w fits =
      let (c1, w1) = relay (logged udp) forward loss_pct final_hop r c w in
      let (new1, log1, one, (ok1, sum1)) = relay-Relayed r c w (omega arith) in
      let (new2, log2, all, (ok2, sum2)) = relay_all-Relayed rs c1 w1 (omega arith) in
      (
        new1 ++ new2,
        log2 ∙ ap (λ l. l ++ new2) log1 ∙ append_assoc w.1 new1 new2,
        (new1, new2, refl, one, all),
        (omega (arith, sent_count-append new1 new2), omega arith),
      )
