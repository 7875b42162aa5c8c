-- ===== src/Router/Table.antt =====
-- The table of routes as a map from node to route, and what each operation does to it.
use zcmesh.Base.{
  ℕ, zero, suc, ◌+◌, ◌-◌, ◌≤◌, ◌<◌, ◌≡◌, refl, sym, ◌∙◌, ap, arith, true, false, List, [], ◌∷◌,
  Option, none, some, ◌==◌, ==_iff, Bool-cases, inl, inr, ◌⊎◌, if◌then◌else◌, length, length-take,
  set, get_or, get_or-set_self, get_or-set_ne, get_or-take, take, take-set,
}
use zcmesh.Net.Api.{UdpApi}
use zcmesh.Router.{
  RouteEntry, MeshRouter, zero_route, find_from, find, set_hop_skip_mask, forward_udp,
  forward_route,
}
use zcmesh.Router.Accounting.{forward_route-Kept}

-- The route that the program uses for a node.
abbrev pub route_at : List RouteEntry → Option ℕ → Option RouteEntry
route_at routes none = none
route_at routes (some i) = some (get_or routes i zero_route)

abbrev pub route_of : MeshRouter → ℕ → Option RouteEntry
route_of m node_id = route_at m.routes (find m node_id)

-- Where `find` stops, the entry is of that node.
find_from_lem :
    (es : List RouteEntry) (i node_id k : ℕ)
    → find_from es i node_id ≡ some k
    → (i ≤ k) × (k < i + length es) × ((get_or es (k - i) zero_route).node_id ≡ node_id)
unfolding find_from
find_from_lem [] i node_id k h = cc
find_from_lem (e ∷ es) i node_id k h = elim (Bool-cases (e.node_id == node_id)) [
  | inl here ↦
      let found : some i ≡ some k = rw here at h in
      let same : i ≡ k = cc in
      let first : k - i ≡ 0 = omega arith in
      (omega arith, omega arith, rw first ((==_iff e.node_id node_id).0 here))
  | inr next ↦
      let ih = find_from_lem es (i + 1) node_id k (rw next at h) in
      let later : k - i ≡ suc (k - (i + 1)) = omega (arith, ih.0) in
      (omega (arith, ih.0), omega (arith, ih.1), rw later ih.2)
]

-- Exchanging an entry for one of the same node does not move any node.
find_from-set :
    (es : List RouteEntry) (j i node_id : ℕ) (e : RouteEntry)
    → e.node_id ≡ (get_or es j zero_route).node_id
    → find_from (set es j e) i node_id ≡ find_from es i node_id
unfolding find_from
find_from-set [] j i node_id e h = refl
find_from-set (x ∷ es) zero i node_id e h = rw h
find_from-set (x ∷ es) (suc j) i node_id e h = rw (find_from-set es j (i + 1) node_id e h)

-- `find` gives an entry in use, of the node asked for.
pub find_lem :
    (m : MeshRouter) (node_id k : ℕ)
    → find m node_id ≡ some k
    → (k < m.count) × (k < length m.routes) × ((get_or m.routes k zero_route).node_id ≡ node_id)
unfolding find
find_lem m node_id k h =
    let (lo, hi, same) = find_from_lem (take m.count m.routes) 0 node_id k h in
    let e : k - 0 ≡ k = omega arith in
    let in_use : k < m.count = omega (arith, length-take m.count m.routes) in
    (
      in_use,
      omega (arith, length-take m.count m.routes),
      ap (λ (r : RouteEntry). r.node_id) (sym (get_or-take m.count m.routes k zero_route in_use))
          ∙ (rw e at same),
    )

-- The table with the route at `k`, found for `node_id`, replaced by one of the same node.
abbrev replaced : MeshRouter → ℕ → RouteEntry → MeshRouter
replaced m k e = record m { routes = set m.routes k e }

find-replaced :
    (m : MeshRouter) (node_id k other : ℕ) (e : RouteEntry)
    → find m node_id ≡ some k
    → e.node_id ≡ (get_or m.routes k zero_route).node_id
    → find (replaced m k e) other ≡ find m other
find-replaced m node_id k other e h same =
    let (in_use, _, _) = find_lem m node_id k h in
    unfold find in
    ap (λ es. find_from es 0 other) (take-set m.count m.routes k e)
    ∙ find_from-set (take m.count m.routes) k 0 other e (
        same
        ∙ ap (λ (r : RouteEntry). r.node_id)
            (sym (get_or-take m.count m.routes k zero_route in_use)))

route_of-replaced :
    (m : MeshRouter) (node_id k other : ℕ) (e : RouteEntry)
    → find m node_id ≡ some k
    → e.node_id ≡ (get_or m.routes k zero_route).node_id
    → route_of (replaced m k e) other ≡ (if other == node_id then some e else route_of m other)
route_of-replaced m node_id k other e h same =
    after (find m other) refl (find-replaced m node_id k other e h same)
  where
    after :
        (o : Option ℕ)
        → find m other ≡ o
        → find (replaced m k e) other ≡ find m other
        → route_of (replaced m k e) other ≡ (if other == node_id then some e else route_of m other)
    after none n q =
        rw (q, n)
          (elim (Bool-cases (other == node_id)) [
            | inl self ↦
                let who : other ≡ node_id = (==_iff other node_id).0 self in
                let missing : find m node_id ≡ none = rw (← who) n in absurd (cc)
            | inr apart ↦ rw apart
          ])
    after (some j) n q =
        let (_, in_slab, is_node) = find_lem m node_id k h in
        let (_, _, is_other) = find_lem m other j n in
        rw (q, n)
          (elim (Bool-cases (other == node_id)) [
            | inl self ↦
                let who : other ≡ node_id = (==_iff other node_id).0 self in
                let found : find m node_id ≡ some j = rw (← who) n in
                let here : some k ≡ some j = sym h ∙ found in
                let at : k ≡ j = cc in
                rw (self, ← at) (ap some (get_or-set_self m.routes k e zero_route in_slab))
            | inr apart ↦ rw apart (
                ap some (
                  get_or-set_ne m.routes k j e zero_route
                    (λ at. ground (arith, ap (λ t. (get_or m.routes t zero_route).node_id) at))))
          ])

-- Set_hop_skip_mask changes the mask of the route of its node and no other route; for a node
-- without a route it returns false and changes nothing.
set_hop_skip_mask_lem :
    (m : MeshRouter) (node_id mask other : ℕ)
    → let (ok, m') = set_hop_skip_mask m node_id mask in
      ((e : RouteEntry) × (ok ≡ true)
        × (route_of m node_id ≡ some e)
        × (route_of m' other ≡ (
            if other == node_id
            then some (record e { hop_skip_mask = mask })
            else route_of m other)))
      ⊎ ((ok ≡ false) × (route_of m node_id ≡ none) × (m' ≡ m))
unfolding set_hop_skip_mask
set_hop_skip_mask_lem m node_id mask other = after (find m node_id) refl
  where
    after :
        (o : Option ℕ)
        → find m node_id ≡ o
        → let (ok, m') = set_hop_skip_mask m node_id mask in
          ((e : RouteEntry) × (ok ≡ true)
            × (route_of m node_id ≡ some e)
            × (route_of m' other ≡ (
                if other == node_id
                then some (record e { hop_skip_mask = mask })
                else route_of m other)))
          ⊎ ((ok ≡ false) × (route_of m node_id ≡ none) × (m' ≡ m))
    after none h = inr (rw (h, set_hop_skip_mask), rw h, rw (h, set_hop_skip_mask))
    after (some k) h =
        let e = get_or m.routes k zero_route in
        inl (
          e,
          rw (h, set_hop_skip_mask),
          rw h,
          rw (h, set_hop_skip_mask)
              (route_of-replaced m node_id k other (record e { hop_skip_mask = mask }) h refl),
        )

module _ {W : Type 0} (udp : UdpApi W) where
  -- Forward_udp forwards along the route of its node and changes no other node's route; for a
  -- node without a route it returns false and changes and sends nothing.
  pub forward_udp_lem :
      (m : MeshRouter) (node_id : ℕ) (bytes : List ℕ) (now_ns : ℕ) (w : W) (other : ℕ)
      → let (ok, m', w') = forward_udp udp m node_id bytes now_ns w in
        ((e : RouteEntry) × (route_of m node_id ≡ some e)
          × (ok ≡ (forward_route udp e bytes now_ns w).0)
          × (w' ≡ (forward_route udp e bytes now_ns w).2)
          × (route_of m' other ≡ (
              if other == node_id
              then some (forward_route udp e bytes now_ns w).1
              else route_of m other)))
        ⊎ ((route_of m node_id ≡ none) × (ok ≡ false) × (m' ≡ m) × (w' ≡ w))
  unfolding forward_udp
  forward_udp_lem m node_id bytes now_ns w other = after (find m node_id) refl
    where
      after :
          (o : Option ℕ)
          → find m node_id ≡ o
          → let (ok, m', w') = forward_udp udp m node_id bytes now_ns w in
            ((e : RouteEntry) × (route_of m node_id ≡ some e)
              × (ok ≡ (forward_route udp e bytes now_ns w).0)
              × (w' ≡ (forward_route udp e bytes now_ns w).2)
              × (route_of m' other ≡ (
                  if other == node_id
                  then some (forward_route udp e bytes now_ns w).1
                  else route_of m other)))
            ⊎ ((route_of m node_id ≡ none) × (ok ≡ false) × (m' ≡ m) × (w' ≡ w))
      after none h = inr (rw h, rw (h, forward_udp), rw (h, forward_udp), rw (h, forward_udp))
      after (some k) h =
          let e = get_or m.routes k zero_route in
          inl (
            e,
            rw h,
            rw (h, forward_udp),
            rw (h, forward_udp),
            rw (h, forward_udp)
                (route_of-replaced m node_id k other (forward_route udp e bytes now_ns w).1 h
                  (forward_route-Kept udp e bytes now_ns w).same_node),
          )
