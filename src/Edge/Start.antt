-- ===== src/Edge/Start.antt =====
-- The routes that `main` of core-engine/src/main.cpp starts with.
use zcmesh.Base.{
  ℕ, ◌≤◌, ◌≡◌, refl, ◌∙◌, ap, arith, Bool, true, false, none, some, List, [], ◌∷◌, length, take,
  get_or, ◌==◌, ==_iff, if◌then◌else◌,
}
use zcmesh.Net.Api.{Endpoint}
use zcmesh.Options.{codes}
use zcmesh.Router.{
  RouteEntry, MeshRouter, new_router, add_route, new_route, copy_hops, add_refused, find,
  zero_route,
}
use zcmesh.Router.Table.{route_of}
use zcmesh.Router.Invariant.{IsRouter, new_router-IsRouter, add_route-IsRouter}
use zcmesh.Router.Adding.{or_else, add_route_lem}

-- "127.0.0.1" with a port
abbrev pub local_endpoint : ℕ → Endpoint
local_endpoint port = record { host = 49 ∷ 50 ∷ 55 ∷ 46 ∷ 48 ∷ 46 ∷ 48 ∷ 46 ∷ 49 ∷ []; port = port }

-- The hops given, or two local relays and the operator.
abbrev pub start_hops : Endpoint → List Endpoint → List Endpoint
start_hops op [] = local_endpoint 9901 ∷ local_endpoint 9902 ∷ op ∷ []
start_hops op (h ∷ hs) = h ∷ hs

abbrev pub start_router : ℕ → Endpoint → List Endpoint → Bool × MeshRouter
start_router node_id op override =
    let hops = start_hops op override in add_route (new_router 8) node_id hops (length hops)

-- What the route is to hold: the hops given, or the relays at 127.0.0.1:9901 and 127.0.0.1:9902 and then
-- the operator.
abbrev pub first_hops : Endpoint → List Endpoint → List Endpoint
first_hops op [] =
    record { host = codes "127.0.0.1"; port = 9901 }
    ∷ record { host = codes "127.0.0.1"; port = 9902 }
    ∷ op
    ∷ []
first_hops op (h ∷ hs) = h ∷ hs

-- The route of the node, with exactly these hops, and the first of them active.
abbrev pub Routed : MeshRouter → ℕ → List Endpoint → Type 0
Routed m node_id hops =
    (e : RouteEntry) × (route_of m node_id ≡ some e)
    × (take e.hop_count e.hops ≡ hops)
    × (e.active_hop ≡ 0)
    × (e.hop_skip_mask ≡ 0)

no_route : (node_id : ℕ) → route_of (new_router 8) node_id ≡ none
unfolding find new_router
no_route node_id = refl

added :
    (node_id : ℕ) (hops : List Endpoint)
    → add_refused (new_router 8) (length hops) ≡ false
    → let e =
        new_route
          (get_or (new_router 8).routes (new_router 8).count zero_route)
          node_id
          hops
          (length hops) in
      take e.hop_count e.hops ≡ hops
      → let (ok, m) = add_route (new_router 8) node_id hops (length hops) in
        (ok ≡ true) × IsRouter m × Routed m node_id hops
added node_id hops room same =
    let (ok, route) =
      add_route_lem (new_router 8) node_id hops (length hops) node_id (new_router-IsRouter 8)
        room in
    let self : (node_id == node_id) ≡ true = (==_iff node_id node_id).1 refl in
    let e =
      new_route (get_or (new_router 8).routes (new_router 8).count zero_route) node_id hops
        (length hops) in
    (
      ok,
      add_route-IsRouter (new_router 8) node_id hops (length hops) (new_router-IsRouter 8),
      (
        e,
        route
            ∙ ap (λ o. or_else o (if node_id == node_id then some e else none)) (no_route node_id)
            ∙ ap (λ b. if b then some e else none) self,
        same,
        unfold new_route in refl,
        unfold new_route in refl,
      ),
    )

-- Of at most three hops given, the edge starts with a valid route table in which its node has a
-- route with exactly those hops in their order, or with 127.0.0.1:9901, 127.0.0.1:9902 and the
-- operator where none is given; the first hop is active and none is skipped.
pub start_router-Routed :
    (node_id : ℕ) (op : Endpoint) (override : List Endpoint)
    → length override ≤ 3
    → let (ok, m) = start_router node_id op override in
      (ok ≡ true) × IsRouter m × Routed m node_id (first_hops op override)
unfolding new_router new_route copy_hops
start_router-Routed node_id op [] le = added node_id (first_hops op []) refl refl
start_router-Routed node_id op (a ∷ []) le = added node_id (a ∷ []) refl refl
start_router-Routed node_id op (a ∷ b ∷ []) le = added node_id (a ∷ b ∷ []) refl refl
start_router-Routed node_id op (a ∷ b ∷ c ∷ []) le = added node_id (a ∷ b ∷ c ∷ []) refl refl
start_router-Routed node_id op (a ∷ b ∷ c ∷ d ∷ hs) le = absurd (omega arith)
