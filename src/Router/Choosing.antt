-- ===== src/Router/Choosing.antt =====
-- Which hop core-engine/src/router.cpp chooses, and that its loop comes to every hop.
use zcmesh.Base.{
  ℕ, zero, suc, ◌+◌, ◌-◌, ◌%◌, ◌^◌, ◌≤◌, ◌<◌, ◌≡◌, ap, arith, true, some, Bool-cases, ◌⊎◌, inl, inr,
  ltb, ltb→le, leb, leb→le, leb→lt,
}
use native.Mathlib.Nat.{mod-eq_of_lt, mod-eq-sub-mod}
use zcmesh.Router.{
  RouteEntry, hop_allowed, first_allowed, select_active, probe_due, preferred_probe_ns,
}
use zcmesh.Router.Validity.{hop_allowed-lt}

first_allowed-some :
    (e : RouteEntry) (left lo i : ℕ)
    → hop_allowed e i ≡ true
    → lo ≤ i
    → i < lo + left
    → (j : ℕ) × (first_allowed e left lo ≡ some j)
unfolding first_allowed
first_allowed-some e zero lo i ok p q = absurd (omega arith)
first_allowed-some e (suc left) lo i ok p q = elim (Bool-cases (hop_allowed e lo)) [
  | inl here ↦ (lo, rw here)
  | inr later ↦
      let next : lo + 1 ≤ i = ground (arith, ap (hop_allowed e)) in
      rw later (first_allowed-some e left (lo + 1) i ok next (omega arith))
]

pub select_active-some :
    (e : RouteEntry) (i : ℕ)
    → hop_allowed e i ≡ true
    → (e' : RouteEntry) × (select_active e ≡ some e')
unfolding select_active
select_active-some e i ok = elim (Bool-cases (hop_allowed e e.active_hop)) [
  | inl here ↦ (e, rw (here, select_active))
  | inr moved ↦
      let (j, found) =
        first_allowed-some e e.hop_count 0 i ok (omega arith)
          (omega (arith, hop_allowed-lt e i ok)) in
      (record e { active_hop = j }, rw (moved, select_active, found))
]

pub probe_due-cases :
    (e : RouteEntry) (now_ns : ℕ)
    → hop_allowed e 0 ≡ true
    → (e.last_probe_ns ≡ 0) ⊎ (preferred_probe_ns ≤ (now_ns + 2 ^ 64 - e.last_probe_ns) % 2 ^ 64)
    → (e.active_hop ≡ 0) ⊎ (probe_due e now_ns ≡ true)
unfolding probe_due
probe_due-cases e now_ns ok due = elim (Bool-cases (ltb 0 e.active_hop)) [
  | inl demoted ↦ inr (ground arith)
  | inr preferred ↦ inl (omega (arith, ltb→le 0 e.active_hop preferred))
]

-- The attempt at which the loop comes to hop `i`.
pub turn-mod : (n a i : ℕ) → a < n → i < n → (k : ℕ) × (k < n) × ((a + k) % n ≡ i)
turn-mod n a i p q = elim (Bool-cases (leb a i)) [
  | inl up ↦
      let le : a ≤ i = leb→le a i up in
      (i - a, omega arith, omega (arith, mod-eq_of_lt {n = a + (i - a)} {m = n} (omega arith)))
  | inr down ↦
      let lt : i < a = leb→lt a i down in
      (
        i + n - a,
        omega arith,
        omega (
          arith,
          mod-eq-sub-mod {n = a + (i + n - a)} {m = n} (omega arith),
          mod-eq_of_lt {n = a + (i + n - a) - n} {m = n} (omega arith),
        ),
      )
]
