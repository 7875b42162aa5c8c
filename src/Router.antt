-- ===== src/Router.antt =====
-- core-engine/src/router.cpp and include/router.hpp: routes with up to three hops, the choice of the
-- hop that a datagram goes to, and the counters. `hop_count` is at most 3, so no uint8_t index wraps.
pub mod Validity
pub mod Table
pub mod Accounting
pub mod Sending
pub mod Choosing
pub mod Reaching
pub mod Invariant
pub mod Adding
pub mod Deliver
pub mod World
use zcmesh.Base.{
  ℕ, zero, suc, ◌+◌, ◌-◌, ◌*◌, ◌/◌, ◌%◌, ◌^◌, bit_and, not, ◌||◌, ◌&&◌, Bool, true, false, List, [],
  ◌∷◌, Option, none, some, ltb, leb, ◌==◌, if◌then◌else◌, length, set, get_or, take, drop,
  replicate, inc64,
}
use zcmesh.Net.Api.{Endpoint, TcpApi, UdpApi}

abbrev pub max_fallbacks : ℕ
max_fallbacks = 3

abbrev pub preferred_probe_ns : ℕ
preferred_probe_ns = 500000000

pub record RouteEntry : Type 0 where
  pub node_id : ℕ
  pub hops : List Endpoint
  pub hop_count : ℕ
  pub active_hop : ℕ
  pub hop_skip_mask : ℕ
  pub attempts : ℕ
  pub fails : ℕ
  pub hop_ok : List ℕ
  pub last_probe_ns : ℕ

-- The slab of `capacity` entries, of which the first `count` are in use.
pub record MeshRouter : Type 0 where
  pub routes : List RouteEntry
  pub capacity : ℕ
  pub count : ℕ

abbrev pub no_endpoint : Endpoint
no_endpoint = record { host = []; port = 0 }

-- `memset(routes_, 0, …)`
abbrev pub zero_route : RouteEntry
zero_route = record {
  node_id = 0;
  hops = replicate 3 no_endpoint;
  hop_count = 0;
  active_hop = 0;
  hop_skip_mask = 0;
  attempts = 0;
  fails = 0;
  hop_ok = replicate 3 0;
  last_probe_ns = 0;
}

unfoldable pub new_router : ℕ → MeshRouter
new_router max_routes = record {
  routes = replicate max_routes zero_route;
  capacity = max_routes;
  count = 0;
}

-- `e.hops[i] = hops[i]` from index `i`, by the hops left
unfoldable pub copy_hops : ℕ → ℕ → List Endpoint → List Endpoint → List Endpoint
copy_hops zero i from to = to
copy_hops (suc n) i from to = copy_hops n (i + 1) from (set to i (get_or from i no_endpoint))

-- What `add_route` writes into the slot that held `slot`.
unfoldable pub new_route : RouteEntry → ℕ → List Endpoint → ℕ → RouteEntry
new_route slot node_id hops hop_count = record {
  node_id = node_id;
  hops = copy_hops hop_count 0 hops slot.hops;
  hop_count = hop_count;
  active_hop = 0;
  hop_skip_mask = 0;
  attempts = 0;
  fails = 0;
  hop_ok = replicate 3 0;
  last_probe_ns = 0;
}

-- The test on the arguments; `hops` is not null.
abbrev pub add_refused : MeshRouter → ℕ → Bool
add_refused m hop_count = (hop_count == 0) || ltb max_fallbacks hop_count || leb m.capacity m.count

unfoldable pub add_route : MeshRouter → ℕ → List Endpoint → ℕ → Bool × MeshRouter
add_route m node_id hops hop_count = if add_refused m hop_count then (false, m) else (
  true,
  record m {
    routes =
        set m.routes m.count
          (new_route (get_or m.routes m.count zero_route) node_id hops hop_count);
    count = m.count + 1;
  },
)

-- the loop of `find` over the entries from index `i`
unfoldable pub find_from : List RouteEntry → ℕ → ℕ → Option ℕ
find_from [] i node_id = none
find_from (e ∷ es) i node_id =
    let rest = find_from es (i + 1) node_id in if e.node_id == node_id then some i else rest

-- The index of the entry that is pointed to, or null.
unfoldable pub find : MeshRouter → ℕ → Option ℕ
unfolding find_from
find m node_id = find_from (take m.count m.routes) 0 node_id

unfoldable pub set_hop_skip_mask : MeshRouter → ℕ → ℕ → Bool × MeshRouter
set_hop_skip_mask m node_id mask = elim (find m node_id) [
  | none ↦ (false, m)
  | some i ↦ (
    true,
    record m {
      routes = set m.routes i (record (get_or m.routes i zero_route) { hop_skip_mask = mask });
    },
  )
]

unfoldable pub hop_allowed : RouteEntry → ℕ → Bool
hop_allowed e idx = ltb idx e.hop_count && (bit_and e.hop_skip_mask (2 ^ idx) == 0)

-- the first allowed index from `i`, by the indices left
unfoldable pub first_allowed : RouteEntry → ℕ → ℕ → Option ℕ
first_allowed e zero i = none
first_allowed e (suc left) i =
    let rest = first_allowed e left (i + 1) in if hop_allowed e i then some i else rest

-- Leaves an active hop that is not allowed; `none` where no hop is.
unfoldable pub select_active : RouteEntry → Option RouteEntry
unfolding first_allowed
select_active e = elim (hop_allowed e e.active_hop) [
  | true ↦ some e
  | false ↦ elim (first_allowed e e.hop_count 0) [
    | none ↦ none
    | some i ↦ some (record e { active_hop = i })
  ]
]

-- `route->active_hop = idx; ++route->hop_ok[idx]`
unfoldable pub delivered : RouteEntry → ℕ → RouteEntry
delivered e idx = record e {
  active_hop = idx;
  hop_ok = set e.hop_ok idx (inc64 (get_or e.hop_ok idx 0));
}

-- the loop after a failure, from `step`, by the steps left
unfoldable pub advance_active : RouteEntry → ℕ → ℕ → RouteEntry
advance_active e zero step = e
advance_active e (suc left) step =
    let idx = (e.active_hop + step) % e.hop_count in
    let rest = advance_active e left (step + 1) in
    if hop_allowed e idx then record e { active_hop = idx } else rest

unfoldable pub failed : RouteEntry → RouteEntry
unfolding advance_active
failed e = let e' = record e { fails = inc64 e.fails } in advance_active e' e.hop_count 1

unfoldable pub probe_due : RouteEntry → ℕ → Bool
probe_due e now_ns =
    ltb 0 e.active_hop
    && hop_allowed e 0
    && ((e.last_probe_ns == 0)
        || leb preferred_probe_ns ((now_ns + 2 ^ 64 - e.last_probe_ns) % 2 ^ 64))

module _ {W : Type 0} (udp : UdpApi W) where
  -- the loop over the hops, from `attempt`, by the attempts left
  pub try_hops : ℕ → ℕ → RouteEntry → List ℕ → W → Bool × RouteEntry × W
  try_hops zero attempt e bytes w = (false, e, w)
  try_hops (suc left) attempt e bytes w =
      let idx = (e.active_hop + attempt) % e.hop_count in
      elim (hop_allowed e idx) [
        | false ↦ try_hops left (attempt + 1) e bytes w
        | true ↦
            let (ok, w') = udp.send_to (get_or e.hops idx no_endpoint) bytes w in
            elim ok [
              | true ↦ (true, delivered e idx, w')
              | false ↦ try_hops left (attempt + 1) e bytes w'
            ]
      ]

  -- from the loop to the end of `forward_udp`
  pub forward_hops : RouteEntry → List ℕ → W → Bool × RouteEntry × W
  forward_hops e bytes w =
      let (ok, e', w') = try_hops e.hop_count 0 e bytes w in
      if ok then (true, e', w') else (false, failed e', w')

  -- the probe of hop 0 and what follows
  pub forward_active : RouteEntry → List ℕ → ℕ → W → Bool × RouteEntry × W
  forward_active e bytes now_ns w =
      let probed = record e { last_probe_ns = now_ns } in
      let (ok, w') = udp.send_to (get_or e.hops 0 no_endpoint) bytes w in
      if probe_due e now_ns
      then (if ok then (true, delivered probed 0, w') else forward_hops probed bytes w')
      else forward_hops e bytes w

  pub forward_route : RouteEntry → List ℕ → ℕ → W → Bool × RouteEntry × W
  forward_route e bytes now_ns w =
      let counted = record e { attempts = inc64 e.attempts } in
      elim (select_active counted) [
        | none ↦ (false, record counted { fails = inc64 counted.fails }, w)
        | some e' ↦ forward_active e' bytes now_ns w
      ]

  pub forward_udp : MeshRouter → ℕ → List ℕ → ℕ → W → Bool × MeshRouter × W
  forward_udp m node_id bytes now_ns w = elim (find m node_id) [
    | none ↦ (false, m, w)
    | some i ↦
        let (ok, e, w') = forward_route (get_or m.routes i zero_route) bytes now_ns w in
        (ok, record m { routes = set m.routes i e }, w')
  ]
