-- ===== src/Router/Invariant.antt =====
-- The invariant of the whole route table, kept by every operation of `MeshRouter`.
use native.Mathlib.Numerals.{add-one}
use zcmesh.Base.{
  ℕ, zero, suc, ◌+◌, ◌≤◌, ◌<◌, ◌≡◌, refl, sym, ◌∙◌, ap, arith, subst, List, [], ◌∷◌, Option, none,
  some, length, length-set, length-take, length-replicate, set, get_or, get_or-take, take, take-set,
  take-suc-set, All, All-set, All-append, All-get_or, All-get_lt, Bool-cases, inl, inr,
  All-replicate,
}
use zcmesh.Net.Api.{Endpoint, UdpApi}
use zcmesh.Router.{
  RouteEntry, MeshRouter, zero_route, no_endpoint, new_router, copy_hops, new_route, add_refused,
  add_route, find, set_hop_skip_mask, forward_udp, forward_route,
}
use zcmesh.Router.Validity.{IsRoute, Balanced, forward_route-Balanced}
use zcmesh.Router.Table.{find_lem}

abbrev pub IsGood : RouteEntry → Type 0
IsGood e = IsRoute e × Balanced 0 e

abbrev pub IsSlot : RouteEntry → Type 0
IsSlot e = length e.hops ≡ 3

-- The slab has its capacity, each slot has room for three hops, and the routes in use are well-formed,
-- with counters that add up.
pub record IsRouter (m : MeshRouter) : Type 0 where
  pub slab : length m.routes ≡ m.capacity
  pub count_le : m.count ≤ m.capacity
  pub slots : All IsSlot m.routes
  pub good : All IsGood (take m.count m.routes)

pub new_router-IsRouter : (n : ℕ) → IsRouter (new_router n)
unfolding new_router
new_router-IsRouter n = record {
  slab = length-replicate n zero_route;
  count_le = omega arith;
  slots = All-replicate IsSlot n zero_route refl;
  good = tt;
}

length-copy_hops : (n i : ℕ) (from to : List Endpoint) → length (copy_hops n i from to) ≡ length to
unfolding copy_hops
length-copy_hops zero i from to = refl
length-copy_hops (suc n) i from to =
    length-copy_hops n (i + 1) from (set to i (get_or from i no_endpoint))
    ∙ length-set to i (get_or from i no_endpoint)

-- An entry in use is good.
entry_fits :
    (m : MeshRouter) (node_id k : ℕ)
    → IsRouter m
    → find m node_id ≡ some k
    → IsGood (get_or m.routes k zero_route)
entry_fits m node_id k v h =
    let (in_use, _, _) = find_lem m node_id k h in
    subst IsGood (get_or-take m.count m.routes k zero_route in_use) (
      All-get_lt IsGood (take m.count m.routes) k zero_route
        (omega (arith, length-take m.count m.routes, v.count_le, v.slab)) v.good)

set-IsRouter :
    (m : MeshRouter) (k : ℕ) (e : RouteEntry)
    → IsRouter m
    → IsGood e
    → IsRouter (record m { routes = set m.routes k e })
set-IsRouter m k e v g = record {
  slab = length-set m.routes k e ∙ v.slab;
  count_le = v.count_le;
  slots = All-set IsSlot m.routes k e g.0.hops_three v.slots;
  good =
      subst (All IsGood) (sym (take-set m.count m.routes k e))
        (All-set IsGood (take m.count m.routes) k e g v.good);
}

new_route-IsGood :
    (slot : RouteEntry) (node_id : ℕ) (hops : List Endpoint) (hop_count : ℕ)
    → IsSlot slot
    → 1 ≤ hop_count
    → hop_count ≤ 3
    → IsGood (new_route slot node_id hops hop_count)
unfolding new_route
new_route-IsGood slot node_id hops hop_count h p q =
    (ground (arith, length-copy_hops hop_count 0 hops slot.hops), refl)

added-IsRouter :
    (m : MeshRouter) (e : RouteEntry)
    → IsRouter m
    → m.count < m.capacity
    → IsGood e
    → IsRouter (record m { routes = set m.routes m.count e; count = m.count + 1 })
added-IsRouter m e v lt g = record {
  slab = length-set m.routes m.count e ∙ v.slab;
  count_le = omega arith;
  slots = All-set IsSlot m.routes m.count e g.0.hops_three v.slots;
  good =
      subst (All IsGood)
        (sym (
          ap (λ n. take n (set m.routes m.count e)) (add-one m.count)
          ∙ take-suc-set m.count m.routes e (omega (arith, v.slab))))
        (All-append IsGood (take m.count m.routes) (e ∷ []) v.good (g, tt));
}

-- `add_route` keeps the table valid, whatever hops and count it is given.
pub add_route-IsRouter :
    (m : MeshRouter) (node_id : ℕ) (hops : List Endpoint) (hop_count : ℕ)
    → IsRouter m
    → IsRouter (add_route m node_id hops hop_count).1
unfolding add_route
add_route-IsRouter m node_id hops hop_count v = elim (Bool-cases (add_refused m hop_count)) [
  | inl no_room ↦ rw (no_room, add_route) v
  | inr room ↦
      rw (room, add_route)
        (added-IsRouter m _ v (ground arith) (
          new_route-IsGood (get_or m.routes m.count zero_route) node_id hops hop_count
            (All-get_or IsSlot m.routes m.count zero_route refl v.slots) (ground arith)
            (ground arith)))
]

-- `set_hop_skip_mask` keeps the table valid.
pub set_hop_skip_mask-IsRouter :
    (m : MeshRouter) (node_id mask : ℕ) → IsRouter m → IsRouter (set_hop_skip_mask m node_id mask).1
unfolding set_hop_skip_mask
set_hop_skip_mask-IsRouter m node_id mask v = after (find m node_id) refl
  where
    after : (o : Option ℕ) → find m node_id ≡ o → IsRouter (set_hop_skip_mask m node_id mask).1
    after none h = rw (h, set_hop_skip_mask) v
    after (some k) h =
        let g = entry_fits m node_id k v h in
        rw (h, set_hop_skip_mask) (set-IsRouter m k _ v (ground (arith, g)))

module _ {W : Type 0} (udp : UdpApi W) where
  -- Forward_udp keeps the route table valid, with every route's attempts equal to its failures
  -- and deliveries together modulo 2^64.
  pub forward_udp-IsRouter :
      (m : MeshRouter) (node_id : ℕ) (bytes : List ℕ) (now_ns : ℕ) (w : W)
      → IsRouter m
      → IsRouter (forward_udp udp m node_id bytes now_ns w).1
  unfolding forward_udp
  forward_udp-IsRouter m node_id bytes now_ns w v = after (find m node_id) refl
    where
      after :
          (o : Option ℕ)
          → find m node_id ≡ o
          → IsRouter (forward_udp udp m node_id bytes now_ns w).1
      after none h = rw (h, forward_udp) v
      after (some k) h =
          let e = get_or m.routes k zero_route in
          let g = entry_fits m node_id k v h in
          rw (h, forward_udp)
            (set-IsRouter m k (forward_route udp e bytes now_ns w).1 v
              (forward_route-Balanced udp e bytes now_ns w g.0 g.1))
