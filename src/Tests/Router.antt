-- ===== src/Tests/Router.antt =====
-- Test routes and a test UDP socket, and the theorems on the router and its control at them.
use zcmesh.Base.{ℕ, ◌+◌, ◌≡◌, inl, refl, arith, true, List, [], ◌∷◌, get_or, ◌==◌}
use zcmesh.Net.Api.{Endpoint, UdpApi, logged}
use zcmesh.Router.{
  MeshRouter, RouteEntry, new_router, no_endpoint, add_route, hop_allowed, forward_route,
  forward_udp,
}
use zcmesh.Router.Validity.{IsRoute}
use zcmesh.Router.Sending.{Sent, forward_route-Sent}
use zcmesh.Router.Reaching.{forward_route_recovers}
use zcmesh.Router.Invariant.{
  IsRouter, new_router-IsRouter, add_route-IsRouter, forward_udp-IsRouter,
}

abbrev pub hop_at : ℕ → Endpoint
hop_at port = record { host = []; port = port }

abbrev pub hops : List Endpoint
hops = hop_at 9001 ∷ hop_at 9002 ∷ hop_at 9003 ∷ []

-- A network that reaches port 9002 only, and counts the sends.
abbrev pub lossy_udp : UdpApi ℕ
lossy_udp = record { send_to = λ e bytes w. (e.port == 9002, w + 1) }

abbrev pub router : MeshRouter
router = (add_route (new_router 4) 7 hops 3).1

pub router-IsRouter : IsRouter router
router-IsRouter = add_route-IsRouter (new_router 4) 7 hops 3 (new_router-IsRouter 4)

abbrev pub route : RouteEntry
route = record {
  node_id = 7;
  hops = hops;
  hop_count = 3;
  active_hop = 0;
  hop_skip_mask = 0;
  attempts = 5;
  fails = 2;
  hop_ok = 1 ∷ 2 ∷ 0 ∷ [];
  last_probe_ns = 0;
}

-- A route whose preferred hop works and is not the active one.
abbrev demoted : RouteEntry
demoted = record route { active_hop = 2; hops = hop_at 9002 ∷ hop_at 9001 ∷ hop_at 9003 ∷ [] }

pub route-IsRoute : IsRoute route
route-IsRoute = ground arith

demoted-IsRoute : IsRoute demoted
demoted-IsRoute = ground arith

forward_route-Sent_example :
    Sent route (1 ∷ 2 ∷ []) [] (forward_route (logged lossy_udp) route (1 ∷ 2 ∷ []) 10 (0, []))
forward_route-Sent_example = forward_route-Sent lossy_udp route (1 ∷ 2 ∷ []) 10 0 []

forward_route_recovers_example :
    let r = forward_route lossy_udp demoted (1 ∷ 2 ∷ []) 10 0 in
    (r.0 ≡ true)
    × (r.1.active_hop ≡ 0)
    × (r.2 ≡ (lossy_udp.send_to (get_or demoted.hops 0 no_endpoint) (1 ∷ 2 ∷ []) 0).1)
unfolding hop_allowed
forward_route_recovers_example =
    forward_route_recovers lossy_udp demoted (1 ∷ 2 ∷ []) 10 0 demoted-IsRoute refl refl (inl refl)

forward_udp-IsRouter_example : IsRouter (forward_udp lossy_udp router 7 (1 ∷ []) 10 0).1
forward_udp-IsRouter_example = forward_udp-IsRouter lossy_udp router 7 (1 ∷ []) 10 0 router-IsRouter
