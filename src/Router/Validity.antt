-- ===== src/Router/Validity.antt =====
-- Routes keep their shape and their active hop in range, and the counters add up.
use zcmesh.Base.{
  ℕ, zero, suc, ◌+◌, ◌%◌, ◌^◌, ◌≤◌, ◌<◌, ◌≡◌, refl, arith, true, false, List, Option, none, some,
  Bool-cases, inl, inr, ◌⊎◌, length, length-set, get_or, get_or-set, inc64,
}
use zcmesh.Router.{
  RouteEntry, hop_allowed, first_allowed, select_active, delivered, advance_active, failed,
  try_hops, forward_hops, forward_active, forward_route, no_endpoint,
}
use zcmesh.Net.Api.{UdpApi}

pub record IsRoute (e : RouteEntry) : Type 0 where
  pub hops_three : length e.hops ≡ 3
  pub oks_three : length e.hop_ok ≡ 3
  pub count_pos : 1 ≤ e.hop_count
  pub count_le : e.hop_count ≤ 3
  pub active_lt : e.active_hop < e.hop_count

-- The datagrams that went out, over all hops.
abbrev pub total_ok : RouteEntry → ℕ
total_ok e = get_or e.hop_ok 0 0 + get_or e.hop_ok 1 0 + get_or e.hop_ok 2 0

-- Every attempt is counted once more, as a failure or at the hop that took it (modulo the wrap of the
-- 64-bit counters); `pending` attempts are under way.
abbrev pub Balanced : ℕ → RouteEntry → Type 0
Balanced pending e = e.attempts % 2 ^ 64 ≡ (e.fails + total_ok e + pending) % 2 ^ 64

pub hop_allowed-lt : (e : RouteEntry) (i : ℕ) → hop_allowed e i ≡ true → i < e.hop_count
unfolding hop_allowed
hop_allowed-lt e i h = ground arith

delivered-Balanced :
    (e : RouteEntry) (i : ℕ)
    → IsRoute e
    → i < e.hop_count
    → Balanced 1 e
    → IsRoute (delivered e i) × Balanced 0 (delivered e i)
unfolding delivered
delivered-Balanced e i v h b = ground (
  arith,
  length-set e.hop_ok i (inc64 (get_or e.hop_ok i 0)),
  get_or-set e.hop_ok i 0 (inc64 (get_or e.hop_ok i 0)) 0,
  get_or-set e.hop_ok i 1 (inc64 (get_or e.hop_ok i 0)) 0,
  get_or-set e.hop_ok i 2 (inc64 (get_or e.hop_ok i 0)) 0,
)

-- Moving the active hop touches nothing else.
advance_active_lem :
    (e : RouteEntry) (left step : ℕ)
    → IsRoute e
    → (i : ℕ) × (i < e.hop_count) × (advance_active e left step ≡ record e { active_hop = i })
unfolding advance_active
advance_active_lem e zero step v = (e.active_hop, v.active_lt, refl)
advance_active_lem e (suc left) step v =
    elim (Bool-cases (hop_allowed e ((e.active_hop + step) % e.hop_count))) [
      | inl ok ↦ ((e.active_hop + step) % e.hop_count, hop_allowed-lt e _ ok, rw ok)
      | inr no_hop ↦ rw no_hop (advance_active_lem e left (step + 1) v)
    ]

failed-Balanced :
    (e : RouteEntry) → IsRoute e → Balanced 1 e → IsRoute (failed e) × Balanced 0 (failed e)
unfolding failed
failed-Balanced e v b =
    let e' = record e { fails = inc64 e.fails } in
    let v' : IsRoute e' = ground arith in
    let (i, lt, moved) = advance_active_lem e' e'.hop_count 1 v' in rw moved (ground arith)

first_allowed_lem :
    (e : RouteEntry) (left i j : ℕ) → first_allowed e left i ≡ some j → hop_allowed e j ≡ true
unfolding first_allowed
first_allowed_lem e zero i j h = cc
first_allowed_lem e (suc left) i j h = ground (arith, first_allowed_lem e left (i + 1) j)

-- The route that is chosen is the old one, with an active hop that is allowed.
pub select_active_lem :
    (e e' : RouteEntry)
    → select_active e ≡ some e'
    → (e' ≡ record e { active_hop = e'.active_hop }) × (hop_allowed e e'.active_hop ≡ true)
unfolding select_active
select_active_lem e e' h = ground (arith, first_allowed_lem e e.hop_count 0 e'.active_hop)

select_active-Balanced :
    (e e' : RouteEntry) (n : ℕ)
    → IsRoute e
    → Balanced n e
    → select_active e ≡ some e'
    → IsRoute e' × Balanced n e'
select_active-Balanced e e' n v b h =
    let (same, ok) = select_active_lem e e' h in
    rw same (ground (arith, hop_allowed-lt e e'.active_hop ok))

module _ {W : Type 0} (udp : UdpApi W) where
  try_hops-Balanced :
      (left attempt : ℕ) (e : RouteEntry) (bytes : List ℕ) (w : W)
      → IsRoute e
      → Balanced 1 e
      → let (ok, e', w') = try_hops udp left attempt e bytes w in
        ((ok ≡ true) × IsRoute e' × Balanced 0 e') ⊎ ((ok ≡ false) × (e' ≡ e))
  unfolding try_hops
  try_hops-Balanced zero attempt e bytes w v b = inr (refl, refl)
  try_hops-Balanced (suc left) attempt e bytes w v b = ground (
    arith,
    hop_allowed-lt e idx,
    delivered-Balanced e idx v,
    try_hops-Balanced left (attempt + 1) e bytes w v b,
    try_hops-Balanced left (attempt + 1) e bytes
        (udp.send_to (get_or e.hops idx no_endpoint) bytes w).1 v b,
  )
    where
      idx : ℕ
      idx = (e.active_hop + attempt) % e.hop_count

  forward_hops-Balanced :
      (e : RouteEntry) (bytes : List ℕ) (w : W)
      → IsRoute e
      → Balanced 1 e
      → let r = forward_hops udp e bytes w in IsRoute r.1 × Balanced 0 r.1
  unfolding forward_hops
  forward_hops-Balanced e bytes w v b =
      ground (arith, try_hops-Balanced e.hop_count 0 e bytes w v b, failed-Balanced e v b)

  forward_active-Balanced :
      (e : RouteEntry) (bytes : List ℕ) (now_ns : ℕ) (w : W)
      → IsRoute e
      → Balanced 1 e
      → let r = forward_active udp e bytes now_ns w in IsRoute r.1 × Balanced 0 r.1
  unfolding forward_active
  forward_active-Balanced e bytes now_ns w v b =
      let probed = record e { last_probe_ns = now_ns } in
      let v' : IsRoute probed = ground arith in
      ground (
        arith,
        delivered-Balanced probed 0 v' v.count_pos b,
        forward_hops-Balanced e bytes w v b,
        forward_hops-Balanced probed bytes (udp.send_to (get_or e.hops 0 no_endpoint) bytes w).1 v'
            b,
      )

  -- Forwarding keeps a well-formed route well-formed, and its attempts equal to its failures and
  -- deliveries together modulo 2^64.
  pub forward_route-Balanced :
      (e : RouteEntry) (bytes : List ℕ) (now_ns : ℕ) (w : W)
      → IsRoute e
      → Balanced 0 e
      → let r = forward_route udp e bytes now_ns w in IsRoute r.1 × Balanced 0 r.1
  unfolding forward_route
  forward_route-Balanced e bytes now_ns w v b = after (select_active counted) refl
    where
      counted : RouteEntry
      counted = record e { attempts = inc64 e.attempts }

      v' : IsRoute counted
      v' = ground arith

      b' : Balanced 1 counted
      b' = omega arith

      after :
          (o : Option RouteEntry)
          → select_active counted ≡ o
          → let r = forward_route udp e bytes now_ns w in IsRoute r.1 × Balanced 0 r.1
      after none h = rw (h, forward_route) (ground arith)
      after (some e') h =
          let (v2, b2) = select_active-Balanced counted e' 1 v' b' h in
          rw (h, forward_route) (forward_active-Balanced e' bytes now_ns w v2 b2)
