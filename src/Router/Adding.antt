-- ===== src/Router/Adding.antt =====
-- What a new route changes in the map from node to route.
use native.Mathlib.Numerals.{add-one}
use zcmesh.Base.{
  ℕ, suc, ◌+◌, ◌<◌, ◌≡◌, refl, ◌∙◌, ap, arith, true, false, List, [], ◌∷◌, ◌++◌, Option, none, some,
  length, length-take, set, get_or, get_or-set_self, get_or-set_ne, take, take-suc-set, ◌==◌,
  if◌then◌else◌, Bool-cases, inl, inr, ◌⊎◌,
}
use zcmesh.Net.Api.{Endpoint}
use zcmesh.Router.{
  RouteEntry, MeshRouter, zero_route, find_from, find, new_route, add_refused, add_route,
}
use zcmesh.Router.Table.{route_of, find_lem}
use zcmesh.Router.Invariant.{IsRouter}

abbrev pub or_else {ℓ} : {A : Type ℓ} → Option A → Option A → Option A
or_else (some a) o = some a
or_else none o = o

find_from-append :
    (es : List RouteEntry) (e : RouteEntry) (i node_id : ℕ)
    → find_from (es ++ e ∷ []) i node_id
      ≡ or_else
          (find_from es i node_id)
          (if e.node_id == node_id then some (i + length es) else none)
unfolding find_from
find_from-append [] e i node_id = let e' : i + 0 ≡ i = omega arith in rw e'
find_from-append (x ∷ es) e i node_id = elim (Bool-cases (x.node_id == node_id)) [
  | inl here ↦ rw here
  | inr later ↦
      let at : i + 1 + length es ≡ i + suc (length es) = omega arith in
      rw (later, ← at) (find_from-append es e (i + 1) node_id)
]

find-add_route :
    (m : MeshRouter) (node_id : ℕ) (hops : List Endpoint) (hop_count other : ℕ)
    → IsRouter m
    → add_refused m hop_count ≡ false
    → find (add_route m node_id hops hop_count).1 other
      ≡ or_else (find m other) (if node_id == other then some m.count else none)
unfolding find add_route new_route
find-add_route m node_id hops hop_count other v room =
    rw (room, add_route)
      (ap (λ es. find_from es 0 other)
          (ap (λ n. take n (set m.routes m.count e)) (add-one m.count)
            ∙ take-suc-set m.count m.routes e lt)
        ∙ find_from-append (take m.count m.routes) e 0 other
        ∙ ap
            (λ n.
              or_else (find_from (take m.count m.routes) 0 other)
                (if node_id == other then some n else none))
            len)
  where
    e : RouteEntry
    e = new_route (get_or m.routes m.count zero_route) node_id hops hop_count

    lt : m.count < length m.routes
    lt = ground (arith, v.slab)

    len : 0 + length (take m.count m.routes) ≡ m.count
    len = omega (arith, length-take m.count m.routes)

-- Of a valid table that does not refuse, add_route returns true and every node keeps the route
-- that lookup found; the new route is found only for its node and only if that had none.
pub add_route_lem :
    (m : MeshRouter) (node_id : ℕ) (hops : List Endpoint) (hop_count other : ℕ)
    → IsRouter m
    → add_refused m hop_count ≡ false
    → let (ok, m') = add_route m node_id hops hop_count in
      let slot = get_or m.routes m.count zero_route in
      (ok ≡ true)
      × (route_of m' other
          ≡ or_else
              (route_of m other)
              (if node_id == other then some (new_route slot node_id hops hop_count) else none))
unfolding add_route
add_route_lem m node_id hops hop_count other v room = (
  rw (room, add_route),
  after (find m other) refl (Bool-cases (node_id == other))
      (find-add_route m node_id hops hop_count other v room),
)
  where
    e : RouteEntry
    e = new_route (get_or m.routes m.count zero_route) node_id hops hop_count

    lt : m.count < length m.routes
    lt = ground (arith, v.slab)

    routes' : (add_route m node_id hops hop_count).1.routes ≡ set m.routes m.count e
    routes' = rw (room, add_route)

    after :
        (o : Option ℕ)
        → find m other ≡ o
        → ((node_id == other) ≡ true) ⊎ ((node_id == other) ≡ false)
        → find (add_route m node_id hops hop_count).1 other
          ≡ or_else (find m other) (if node_id == other then some m.count else none)
        → route_of (add_route m node_id hops hop_count).1 other
          ≡ or_else (route_of m other) (if node_id == other then some e else none)
    after (some k) h c q =
        let (in_use, _, _) = find_lem m other k h in
        let apart : m.count ≡ k → ⊥ = λ z. omega arith in
        rw (q, h) (ap some (rw routes' (get_or-set_ne m.routes m.count k e zero_route apart)))
    after none h (inl self) q =
        rw (q, h, self) (ap some (rw routes' (get_or-set_self m.routes m.count e zero_route lt)))
    after none h (inr other_node) q = rw (q, h, other_node)
