-- ===== src/Router/Sending.antt =====
-- Where datagrams go: only to hops that the operator has not skipped, and at most one gets through.
use zcmesh.Base.{
  ℕ, zero, suc, ◌+◌, ◌%◌, ◌≡◌, refl, sym, ◌∙◌, arith, Bool, true, false, List, [], ◌∷◌, ◌++◌,
  append-nil, append_assoc, Option, none, some, get_or, inc64, Bool-cases, ◌⊎◌, inl, inr,
}
use zcmesh.Net.Api.{UdpApi, Datagram, logged}
use zcmesh.Router.{
  RouteEntry, hop_allowed, select_active, delivered, probe_due, try_hops, forward_hops,
  forward_active, forward_route, no_endpoint,
}
use zcmesh.Router.Validity.{select_active_lem}

-- A datagram with these bytes, to a hop of the route that is allowed.
abbrev pub ToAllowed : RouteEntry → List ℕ → Datagram → Type 0
ToAllowed e bytes d =
    (i : ℕ) × (hop_allowed e i ≡ true) × (d.to ≡ get_or e.hops i no_endpoint) × (d.bytes ≡ bytes)

-- The sends of one call that returns `ok`: all but the last one refused, and the last one taken exactly
-- if `ok`.
abbrev pub Tries : (Datagram → Type 0) → Bool → List Datagram → Type 0
Tries P ok [] = ok ≡ false
Tries P ok (d ∷ ds) =
    P d × (((d.sent ≡ true) × (ok ≡ true) × (ds ≡ [])) ⊎ ((d.sent ≡ false) × Tries P ok ds))

-- What a call has added to the record of sends.
abbrev pub Sent :
    {W : Type 0}
    → RouteEntry
    → List ℕ
    → List Datagram
    → Bool × RouteEntry × (W × List Datagram)
    → Type 0
Sent e bytes log r =
    (new : List Datagram) × (r.2.1 ≡ log ++ new) × Tries (ToAllowed e bytes) r.0 new

module _ {W : Type 0} where
  -- A send that was refused goes in front of what the rest of the call sends.
  Sent-refused :
      (e : RouteEntry) (bytes : List ℕ) (log : List Datagram) (d : Datagram)
      (r : Bool × RouteEntry × (W × List Datagram))
      → ToAllowed e bytes d
      → d.sent ≡ false
      → Sent e bytes (log ++ d ∷ []) r
      → Sent e bytes log r
  Sent-refused e bytes log d r to no_send (new, grown, tries) =
      (d ∷ new, grown ∙ append_assoc log (d ∷ []) new, (to, inr (no_send, tries)))

  Sent-taken :
      (e : RouteEntry) (bytes : List ℕ) (log : List Datagram) (d : Datagram) (e' : RouteEntry)
      (w : W)
      → ToAllowed e bytes d
      → d.sent ≡ true
      → Sent e bytes log (true, e', (w, log ++ d ∷ []))
  Sent-taken e bytes log d e' w to taken = (d ∷ [], refl, (to, inl (taken, refl, refl)))

-- The record of one send to hop `i`.
abbrev datagram : RouteEntry → ℕ → List ℕ → Bool → Datagram
datagram e i bytes sent = record { to = get_or e.hops i no_endpoint; bytes = bytes; sent = sent }

datagram-ToAllowed :
    (e : RouteEntry) (i : ℕ) (bytes : List ℕ) (sent : Bool)
    → hop_allowed e i ≡ true
    → ToAllowed e bytes (datagram e i bytes sent)
datagram-ToAllowed e i bytes sent ok = (i, ok, refl, refl)

module _ {W : Type 0} (udp : UdpApi W) where
  try_hops-Sent :
      (left attempt : ℕ) (e : RouteEntry) (bytes : List ℕ) (w : W) (log : List Datagram)
      → Sent e bytes log (try_hops (logged udp) left attempt e bytes (w, log))
  unfolding try_hops
  try_hops-Sent zero attempt e bytes w log = ([], sym (append-nil log), refl)
  try_hops-Sent (suc left) attempt e bytes w log = elim (Bool-cases (hop_allowed e idx)) [
    | inr skipped ↦ rw (skipped, try_hops) (try_hops-Sent left (attempt + 1) e bytes w log)
    | inl ok ↦ answer ok (udp.send_to (get_or e.hops idx no_endpoint) bytes w).0 refl (
        try_hops-Sent left (attempt + 1) e bytes
          (udp.send_to (get_or e.hops idx no_endpoint) bytes w).1 (log ++ d ∷ []))
  ]
    where
      idx : ℕ
      idx = (e.active_hop + attempt) % e.hop_count

      d : Datagram
      d = datagram e idx bytes (udp.send_to (get_or e.hops idx no_endpoint) bytes w).0

      w' : W
      w' = (udp.send_to (get_or e.hops idx no_endpoint) bytes w).1

      answer :
          hop_allowed e idx ≡ true
          → (sent : Bool) → (udp.send_to (get_or e.hops idx no_endpoint) bytes w).0 ≡ sent
          → Sent e bytes
              (log ++ d ∷ [])
              (try_hops (logged udp) left (attempt + 1) e bytes (w', log ++ d ∷ []))
          → Sent e bytes log (try_hops (logged udp) (suc left) attempt e bytes (w, log))
      answer ok true h rest =
          rw (ok, h, try_hops)
            (Sent-taken e bytes log d (delivered e idx) w'
              (datagram-ToAllowed e idx bytes d.sent ok) h)
      answer ok false h rest =
          rw (ok, h, try_hops)
            (Sent-refused e bytes log d
              (try_hops (logged udp) left (attempt + 1) e bytes (w', log ++ d ∷ []))
              (datagram-ToAllowed e idx bytes d.sent ok) h rest)

  forward_hops-Sent :
      (e : RouteEntry) (bytes : List ℕ) (w : W) (log : List Datagram)
      → Sent e bytes log (forward_hops (logged udp) e bytes (w, log))
  unfolding forward_hops
  forward_hops-Sent e bytes w log =
      let (new, grown, tries) = try_hops-Sent e.hop_count 0 e bytes w log in
      elim (Bool-cases (try_hops (logged udp) e.hop_count 0 e bytes (w, log)).0) [
        | inl ok ↦ rw (ok, forward_hops) (new, grown, rw ok at tries)
        | inr no_hop ↦ rw (no_hop, forward_hops) (new, grown, rw no_hop at tries)
      ]

  probe_due-allowed :
      (e : RouteEntry) (now_ns : ℕ) → probe_due e now_ns ≡ true → hop_allowed e 0 ≡ true
  unfolding probe_due
  probe_due-allowed e now_ns h = ground arith

  forward_active-Sent :
      (e : RouteEntry) (bytes : List ℕ) (now_ns : ℕ) (w : W) (log : List Datagram)
      → Sent e bytes log (forward_active (logged udp) e bytes now_ns (w, log))
  unfolding forward_active hop_allowed
  forward_active-Sent e bytes now_ns w log = elim (Bool-cases (probe_due e now_ns)) [
    | inr no_probe ↦ rw (no_probe, forward_active) (forward_hops-Sent e bytes w log)
    | inl due ↦ answer due (udp.send_to (get_or e.hops 0 no_endpoint) bytes w).0 refl
  ]
    where
      probed : RouteEntry
      probed = record e { last_probe_ns = now_ns }

      d : Bool → Datagram
      d = datagram e 0 bytes

      w' : W
      w' = (udp.send_to (get_or e.hops 0 no_endpoint) bytes w).1

      answer :
          probe_due e now_ns ≡ true
          → (sent : Bool) → (udp.send_to (get_or e.hops 0 no_endpoint) bytes w).0 ≡ sent
          → Sent e bytes log (forward_active (logged udp) e bytes now_ns (w, log))
      answer due true h =
          rw (due, h, forward_active)
            (Sent-taken e bytes log (d true) (delivered probed 0) w'
              (datagram-ToAllowed e 0 bytes true (probe_due-allowed e now_ns due)) refl)
      answer due false h =
          rw (due, h, forward_active)
            (Sent-refused e bytes log (d false)
              (forward_hops (logged udp) probed bytes (w', log ++ d false ∷ []))
              (datagram-ToAllowed e 0 bytes false (probe_due-allowed e now_ns due)) refl
              (forward_hops-Sent probed bytes w' (log ++ d false ∷ [])))

  -- One call of the forwarder sends its bytes only to hops that are in range and not skipped,
  -- stops at the first send that goes out, and returns true exactly if there is one.
  pub forward_route-Sent :
      (e : RouteEntry) (bytes : List ℕ) (now_ns : ℕ) (w : W) (log : List Datagram)
      → Sent e bytes log (forward_route (logged udp) e bytes now_ns (w, log))
  unfolding forward_route hop_allowed
  forward_route-Sent e bytes now_ns w log = after (select_active counted) refl
    where
      counted : RouteEntry
      counted = record e { attempts = inc64 e.attempts }

      active :
          (e' : RouteEntry) (a : ℕ)
          → e' ≡ record counted { active_hop = a }
          → Sent e bytes log (forward_active (logged udp) e' bytes now_ns (w, log))
      active e' a same =
          rw same (forward_active-Sent (record counted { active_hop = a }) bytes now_ns w log)

      after :
          (o : Option RouteEntry)
          → select_active counted ≡ o
          → Sent e bytes log (forward_route (logged udp) e bytes now_ns (w, log))
      after none h = rw (h, forward_route) ([], sym (append-nil log), refl)
      after (some e') h =
          rw (h, forward_route) (active e' e'.active_hop (select_active_lem counted e' h).0)
