-- ===== src/Router/Reaching.antt =====
-- `forward_udp` of core-engine/src/router.cpp where a hop takes the datagram.
use zcmesh.Base.{
  ℕ, zero, suc, ◌+◌, ◌-◌, ◌%◌, ◌^◌, ◌≤◌, ◌<◌, ◌≡◌, refl, ◌∙◌, ap, arith, true, false, List, get_or,
  inc64, Bool-cases, ◌⊎◌, inl, inr, ◌==◌, ==_iff,
}
use zcmesh.Net.Api.{Endpoint, UdpApi}
use zcmesh.Router.{
  RouteEntry, hop_allowed, delivered, probe_due, try_hops, forward_hops, forward_active,
  forward_route, no_endpoint, preferred_probe_ns,
}
use zcmesh.Router.Validity.{IsRoute, hop_allowed-lt, select_active_lem}
use zcmesh.Router.Choosing.{select_active-some, probe_due-cases, turn-mod}

module _ {W : Type 0} (udp : UdpApi W) where
  -- Where the socket is ready, hop `i` of the route takes the datagram.
  abbrev pub Accepts : (W → Type 0) → List ℕ → RouteEntry → ℕ → Type 0
  Accepts ready bytes e i =
      (w : W) → ready w → (udp.send_to (get_or e.hops i no_endpoint) bytes w).0 ≡ true

  -- A socket that is ready stays so, to whatever hop the datagram is sent.
  abbrev pub StaysReady : (W → Type 0) → List ℕ → Type 0
  StaysReady ready bytes = (ep : Endpoint) (w : W) → ready w → ready (udp.send_to ep bytes w).1

  try_hops-hit :
      (left attempt : ℕ) (e : RouteEntry) (bytes : List ℕ) (w : W)
      → hop_allowed e ((e.active_hop + attempt) % e.hop_count) ≡ true
      → (udp.send_to (get_or e.hops ((e.active_hop + attempt) % e.hop_count) no_endpoint) bytes w).0
        ≡ true
      → try_hops udp (suc left) attempt e bytes w ≡ (
        true,
        delivered e ((e.active_hop + attempt) % e.hop_count),
        (udp.send_to
            (get_or e.hops ((e.active_hop + attempt) % e.hop_count) no_endpoint)
            bytes
            w).1,
      )
  unfolding try_hops
  try_hops-hit left attempt e bytes w ok acc = rw (ok, acc, try_hops)

  try_hops-true :
      (ready : W → Type 0) (left attempt k : ℕ) (e : RouteEntry) (bytes : List ℕ) (w : W)
      → hop_allowed e ((e.active_hop + k) % e.hop_count) ≡ true
      → Accepts ready bytes e ((e.active_hop + k) % e.hop_count)
      → StaysReady ready bytes
      → ready w
      → attempt ≤ k
      → k < attempt + left
      → (try_hops udp left attempt e bytes w).0 ≡ true
  unfolding try_hops
  try_hops-true ready zero attempt k e bytes w ok acc stays up p q = absurd (omega arith)
  try_hops-true ready (suc left) attempt k e bytes w ok acc stays up p q =
      elim (Bool-cases (attempt == k)) [
        | inl now ↦
            let at : attempt ≡ k = (==_iff attempt k).0 now in
            rw at (ap (λ r. r.0) (try_hops-hit left k e bytes w ok (acc w up)))
        | inr later ↦
            let next : attempt + 1 ≤ k = ground arith in
            ground (
              arith,
              try_hops-true ready left (attempt + 1) k e bytes w ok acc stays up next (omega arith),
              try_hops-true ready left (attempt + 1) k e bytes
                  (udp.send_to (get_or e.hops ((e.active_hop + attempt) % e.hop_count) no_endpoint)
                    bytes w).1
                  ok acc stays
                  (stays (get_or e.hops ((e.active_hop + attempt) % e.hop_count) no_endpoint) w up)
                  next (omega arith),
            )
      ]

  forward_hops-true :
      (ready : W → Type 0) (e : RouteEntry) (i : ℕ) (bytes : List ℕ) (w : W)
      → IsRoute e
      → hop_allowed e i ≡ true
      → Accepts ready bytes e i
      → StaysReady ready bytes
      → ready w
      → (forward_hops udp e bytes w).0 ≡ true
  unfolding forward_hops
  forward_hops-true ready e i bytes w v ok acc stays up =
      let (k, lt, turn) = turn-mod e.hop_count e.active_hop i v.active_lt (hop_allowed-lt e i ok) in
      let sent =
        try_hops-true ready e.hop_count 0 k e bytes w (rw turn ok) (rw turn acc) stays up
          (omega arith) (omega arith) in
      rw (sent, forward_hops)

  forward_active-true :
      (ready : W → Type 0) (e : RouteEntry) (i : ℕ) (bytes : List ℕ) (now_ns : ℕ) (w : W)
      → IsRoute e
      → hop_allowed e i ≡ true
      → Accepts ready bytes e i
      → StaysReady ready bytes
      → ready w
      → (forward_active udp e bytes now_ns w).0 ≡ true
  unfolding forward_active
  forward_active-true ready e i bytes now_ns w v ok acc stays up =
      let probed = record e { last_probe_ns = now_ns } in
      let v' : IsRoute probed = ground arith in
      ground (
        arith,
        forward_hops-true ready e i bytes w v ok acc stays up,
        forward_hops-true ready probed i bytes (udp.send_to (get_or e.hops 0 no_endpoint) bytes w).1
            v' (unfold hop_allowed in ok) acc stays (stays (get_or e.hops 0 no_endpoint) w up),
      )

  -- Of a well-formed route, over a socket that is ready and stays ready whatever it is asked to
  -- send the datagram to, if some hop is in range, not skipped and takes the datagram whenever
  -- the socket is ready, the forwarder returns true.
  pub forward_route-true :
      (ready : W → Type 0) (e : RouteEntry) (i : ℕ) (bytes : List ℕ) (now_ns : ℕ) (w : W)
      → IsRoute e
      → hop_allowed e i ≡ true
      → Accepts ready bytes e i
      → StaysReady ready bytes
      → ready w
      → (forward_route udp e bytes now_ns w).0 ≡ true
  unfolding forward_route hop_allowed
  forward_route-true ready e i bytes now_ns w v ok acc stays up =
      let (e', chosen) = select_active-some counted i ok in
      let (same, allowed) = select_active_lem counted e' chosen in
      rw (chosen, forward_route)
        (active e' e'.active_hop same (hop_allowed-lt counted e'.active_hop allowed))
    where
      counted : RouteEntry
      counted = record e { attempts = inc64 e.attempts }

      active :
          (e' : RouteEntry) (a : ℕ)
          → e' ≡ record counted { active_hop = a }
          → a < e.hop_count
          → (forward_active udp e' bytes now_ns w).0 ≡ true
      active e' a same lt = rw same (
          forward_active-true ready (record counted { active_hop = a }) i bytes now_ns w
            (ground arith) ok acc stays up)

  try_hops_first :
      (n idx : ℕ) (e : RouteEntry) (bytes : List ℕ) (w : W)
      → 1 ≤ n
      → (e.active_hop + 0) % e.hop_count ≡ idx
      → hop_allowed e idx ≡ true
      → (udp.send_to (get_or e.hops idx no_endpoint) bytes w).0 ≡ true
      → try_hops udp n 0 e bytes w
        ≡ (true, delivered e idx, (udp.send_to (get_or e.hops idx no_endpoint) bytes w).1)
  try_hops_first zero idx e bytes w p at ok acc = absurd (omega arith)
  try_hops_first (suc n) idx e bytes w p at ok acc =
      try_hops-hit n 0 e bytes w (rw at ok) (rw at acc)
      ∙ ap (λ i. (true, delivered e i, (udp.send_to (get_or e.hops i no_endpoint) bytes w).1)) at

  -- Where hop 0 is the active one and takes the datagram, nothing else is tried.
  forward_active-preferred :
      (e : RouteEntry) (bytes : List ℕ) (now_ns : ℕ) (w : W)
      → IsRoute e
      → hop_allowed e 0 ≡ true
      → (udp.send_to (get_or e.hops 0 no_endpoint) bytes w).0 ≡ true
      → (e.active_hop ≡ 0) ⊎ (probe_due e now_ns ≡ true)
      → let r = forward_active udp e bytes now_ns w in
        (r.0 ≡ true)
        × (r.1.active_hop ≡ 0)
        × (r.2 ≡ (udp.send_to (get_or e.hops 0 no_endpoint) bytes w).1)
  unfolding forward_active delivered forward_hops
  forward_active-preferred e bytes now_ns w v ok acc (inr due) = ground arith
  forward_active-preferred e bytes now_ns w v ok acc (inl here) =
      let none_due : probe_due e now_ns ≡ false = unfold probe_due in ground arith in
      let at : (e.active_hop + 0) % e.hop_count ≡ 0 = ground arith in
      let first = try_hops_first e.hop_count 0 e bytes w v.count_pos at ok acc in
      rw (none_due, forward_active, first, forward_hops) (refl, refl, refl)

  -- Of a well-formed route whose preferred hop is not skipped and accepts the datagram, with no
  -- probe yet or the last one at least 500 ms ago, the forwarder sends once, to hop 0, makes it
  -- active and returns true.
  pub forward_route_recovers :
      (e : RouteEntry) (bytes : List ℕ) (now_ns : ℕ) (w : W)
      → IsRoute e
      → hop_allowed e 0 ≡ true
      → (udp.send_to (get_or e.hops 0 no_endpoint) bytes w).0 ≡ true
      → (e.last_probe_ns ≡ 0) ⊎ (preferred_probe_ns ≤ (now_ns + 2 ^ 64 - e.last_probe_ns) % 2 ^ 64)
      → let r = forward_route udp e bytes now_ns w in
        (r.0 ≡ true)
        × (r.1.active_hop ≡ 0)
        × (r.2 ≡ (udp.send_to (get_or e.hops 0 no_endpoint) bytes w).1)
  unfolding forward_route hop_allowed
  forward_route_recovers e bytes now_ns w v ok acc due =
      let (e', chosen) = select_active-some counted 0 ok in
      let (same, allowed) = select_active_lem counted e' chosen in
      rw (chosen, forward_route)
        (active e' e'.active_hop same (hop_allowed-lt counted e'.active_hop allowed))
    where
      counted : RouteEntry
      counted = record e { attempts = inc64 e.attempts }

      active :
          (e' : RouteEntry) (a : ℕ)
          → e' ≡ record counted { active_hop = a }
          → a < e.hop_count
          → let r = forward_active udp e' bytes now_ns w in
            (r.0 ≡ true)
            × (r.1.active_hop ≡ 0)
            × (r.2 ≡ (udp.send_to (get_or e.hops 0 no_endpoint) bytes w).1)
      active e' a same lt =
          let chosen = record counted { active_hop = a } in
          let split : (a ≡ 0) ⊎ (probe_due chosen now_ns ≡ true) =
            probe_due-cases chosen now_ns ok due in
          rw same (forward_active-preferred chosen bytes now_ns w (ground arith) ok acc split)
