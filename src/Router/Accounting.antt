-- ===== src/Router/Accounting.antt =====
-- The node, hops and skip mask of a route under `forward_udp` of core-engine/src/router.cpp.
use zcmesh.Base.{ℕ, zero, suc, ◌+◌, ◌%◌, ◌≡◌, refl, arith, List, Option, none, some, get_or, inc64}
use zcmesh.Router.{
  RouteEntry, select_active, delivered, advance_active, failed, try_hops, forward_hops,
  forward_active, forward_route, no_endpoint,
}
use zcmesh.Router.Validity.{select_active_lem}
use zcmesh.Net.Api.{UdpApi}

-- `e'` is `e` but for its counters, its probe time and its active hop.
pub record Kept (e e' : RouteEntry) : Type 0 where
  pub same_node : e'.node_id ≡ e.node_id
  pub same_hops : e'.hops ≡ e.hops
  pub same_count : e'.hop_count ≡ e.hop_count
  pub same_mask : e'.hop_skip_mask ≡ e.hop_skip_mask

Kept-trans : {d e f : RouteEntry} → Kept d e → Kept e f → Kept d f
Kept-trans p q = ground arith

delivered-Kept : (e : RouteEntry) (i : ℕ) → Kept e (delivered e i)
unfolding delivered
delivered-Kept e i = ground arith

advance_active-Kept : (e : RouteEntry) (left step : ℕ) → Kept e (advance_active e left step)
unfolding advance_active
advance_active-Kept e zero step = ground arith
advance_active-Kept e (suc left) step = ground (arith, advance_active-Kept e left (step + 1))

failed-Kept : (e : RouteEntry) → Kept e (failed e)
unfolding failed
failed-Kept e =
    let e' = record e { fails = inc64 e.fails } in
    ground (arith, advance_active-Kept e' e'.hop_count 1)

module _ {W : Type 0} (udp : UdpApi W) where
  try_hops-Kept :
      (left attempt : ℕ) (e : RouteEntry) (bytes : List ℕ) (w : W)
      → Kept e (try_hops udp left attempt e bytes w).1
  unfolding try_hops
  try_hops-Kept zero attempt e bytes w = ground arith
  try_hops-Kept (suc left) attempt e bytes w = ground (
    arith,
    delivered-Kept e idx,
    try_hops-Kept left (attempt + 1) e bytes w,
    try_hops-Kept left (attempt + 1) e bytes
        (udp.send_to (get_or e.hops idx no_endpoint) bytes w).1,
  )
    where
      idx : ℕ
      idx = (e.active_hop + attempt) % e.hop_count

  forward_hops-Kept :
      (e : RouteEntry) (bytes : List ℕ) (w : W) → Kept e (forward_hops udp e bytes w).1
  unfolding forward_hops
  forward_hops-Kept e bytes w =
      let t = try_hops-Kept e.hop_count 0 e bytes w in
      ground (arith, t, failed-Kept (try_hops udp e.hop_count 0 e bytes w).1)

  pub forward_route-Kept :
      (e : RouteEntry) (bytes : List ℕ) (now_ns : ℕ) (w : W)
      → Kept e (forward_route udp e bytes now_ns w).1
  unfolding forward_route forward_active
  forward_route-Kept e bytes now_ns w = after (select_active counted) refl
    where
      counted : RouteEntry
      counted = record e { attempts = inc64 e.attempts }

      active : (e' : RouteEntry) → Kept e' (forward_active udp e' bytes now_ns w).1
      active e' =
          let probed = record e' { last_probe_ns = now_ns } in
          ground (
            arith,
            delivered-Kept probed 0,
            forward_hops-Kept e' bytes w,
            forward_hops-Kept probed bytes (udp.send_to (get_or e'.hops 0 no_endpoint) bytes w).1,
          )

      after :
          (o : Option RouteEntry)
          → select_active counted ≡ o
          → Kept e (forward_route udp e bytes now_ns w).1
      after none h = rw (h, forward_route) (ground arith)
      after (some e') h =
          rw (h, forward_route)
            (Kept-trans {e = e'} (ground (arith, select_active_lem counted e' h)) (active e'))
