-- ===== src/Router/World.antt =====
-- What forwarding of core-engine/src/router.cpp does to the world behind the socket: it sends, and
-- nothing else.
use zcmesh.Base.{ℕ, zero, suc, ◌+◌, ◌%◌, Bool-cases, inl, inr, Option-cases, List, get_or, inc64}
use zcmesh.Net.Api.{Endpoint, UdpApi}
use zcmesh.Router.{
  RouteEntry, MeshRouter, hop_allowed, probe_due, select_active, try_hops, forward_hops,
  forward_active, forward_route, forward_udp, find, zero_route, no_endpoint,
}

module _ {W : Type 0} (udp : UdpApi W) (P : W → Type 0)
    (keep : (e : Endpoint) (bytes : List ℕ) (w : W) → P w → P (udp.send_to e bytes w).1) where
  try_hops-keeps :
      (left attempt : ℕ) (e : RouteEntry) (bytes : List ℕ) (w : W)
      → P w
      → P (try_hops udp left attempt e bytes w).2
  unfolding try_hops
  try_hops-keeps zero attempt e bytes w p = p
  try_hops-keeps (suc left) attempt e bytes w p =
      let idx = (e.active_hop + attempt) % e.hop_count in
      let (ok, w') = udp.send_to (get_or e.hops idx no_endpoint) bytes w in
      let p' = keep (get_or e.hops idx no_endpoint) bytes w p in
      elim (Bool-cases (hop_allowed e idx)) [
        | inr skipped ↦ rw (skipped, try_hops) (try_hops-keeps left (attempt + 1) e bytes w p)
        | inl allowed ↦ elim (Bool-cases ok) [
          | inl out ↦ rw (allowed, out, try_hops) p'
          | inr lost ↦
              rw (allowed, lost, try_hops) (try_hops-keeps left (attempt + 1) e bytes w' p')
        ]
      ]

  forward_hops-keeps :
      (e : RouteEntry) (bytes : List ℕ) (w : W) → P w → P (forward_hops udp e bytes w).2
  unfolding forward_hops
  forward_hops-keeps e bytes w p =
      let after = try_hops-keeps e.hop_count 0 e bytes w p in
      elim (Bool-cases (try_hops udp e.hop_count 0 e bytes w).0) [
        | inl out ↦ rw (out, forward_hops) after
        | inr lost ↦ rw (lost, forward_hops) after
      ]

  forward_active-keeps :
      (e : RouteEntry) (bytes : List ℕ) (now_ns : ℕ) (w : W)
      → P w
      → P (forward_active udp e bytes now_ns w).2
  unfolding forward_active
  forward_active-keeps e bytes now_ns w p =
      let probed = record e { last_probe_ns = now_ns } in
      let (ok, w') = udp.send_to (get_or e.hops 0 no_endpoint) bytes w in
      let p' = keep (get_or e.hops 0 no_endpoint) bytes w p in
      elim (Bool-cases (probe_due e now_ns)) [
        | inr no_probe ↦ rw (no_probe, forward_active) (forward_hops-keeps e bytes w p)
        | inl due ↦ elim (Bool-cases ok) [
          | inl out ↦ rw (due, out, forward_active) p'
          | inr lost ↦ rw (due, lost, forward_active) (forward_hops-keeps probed bytes w' p')
        ]
      ]

  forward_route-keeps :
      (e : RouteEntry) (bytes : List ℕ) (now_ns : ℕ) (w : W)
      → P w
      → P (forward_route udp e bytes now_ns w).2
  unfolding forward_route
  forward_route-keeps e bytes now_ns w p =
      let counted = record e { attempts = inc64 e.attempts } in
      elim (Option-cases (select_active counted)) [
        | inl no_hop ↦ rw (no_hop, forward_route) p
        | inr (e', chosen) ↦ rw (chosen, forward_route) (forward_active-keeps e' bytes now_ns w p)
      ]

  -- What every send keeps of the world, the forwarder keeps.
  pub forward_udp-keeps :
      (m : MeshRouter) (node_id : ℕ) (bytes : List ℕ) (now_ns : ℕ) (w : W)
      → P w
      → P (forward_udp udp m node_id bytes now_ns w).2
  unfolding forward_udp
  forward_udp-keeps m node_id bytes now_ns w p = elim (Option-cases (find m node_id)) [
    | inl no_route ↦ rw (no_route, forward_udp) p
    | inr (i, found) ↦
        rw (found, forward_udp)
          (forward_route-keeps (get_or m.routes i zero_route) bytes now_ns w p)
  ]
