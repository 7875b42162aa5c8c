-- ===== src/Replay/Start/Pauses.antt =====
-- How long core-engine/src/replay.cpp waits between the frames of a file.
use zcmesh.Base.{
  ℕ, suc, ◌+◌, ◌-◌, ◌%◌, ◌^◌, ◌≤◌, ◌≡◌, refl, ap, ap₂, ◌∙◌, arith, min, true, false, Bool-cases,
  inl, inr, List, [], ◌∷◌, ltb, ltb→le, All, length,
}
use zcmesh.Wire.Frame.{of_bytes}
use zcmesh.Wire.Pack.{verify_frame}
use zcmesh.Replay.{delta_ns, delta_ns_lem}
use zcmesh.Replay.Arguments.{Rate}
use zcmesh.Replay.Start.{Pause, sleep_for, sleep_period, pause_between, pauses}

abbrev pub slept_ns : List Pause → ℕ
slept_ns [] = 0
slept_ns (sleep_for n ∷ ps) = n + slept_ns ps
slept_ns (sleep_period r ∷ ps) = slept_ns ps

-- The frames verify and were packed at these times.
abbrev pub PackedAt : List (List ℕ) → List ℕ → Type 0
PackedAt [] [] = Unit
PackedAt [] (t ∷ ts) = ⊥
PackedAt (f ∷ fs) [] = ⊥
PackedAt (f ∷ fs) (t ∷ ts) =
    (verify_frame (of_bytes f) ≡ true) × ((of_bytes f).timestamp_lo ≡ t % 2 ^ 32) × PackedAt fs ts

-- The times go on, and by at most a second each.
abbrev pub Steady : ℕ → List ℕ → Type 0
Steady t [] = Unit
Steady t (u ∷ ts) = (t ≤ u) × (u ≤ t + 1000000000) × Steady u ts

abbrev pub last_of : ℕ → List ℕ → ℕ
last_of t [] = t
last_of t (u ∷ ts) = last_of u ts

slept-pause_between :
    (rate : Rate) (f g : List ℕ) (later : List Pause)
    → slept_ns (pause_between true rate f g later)
      ≡ delta_ns (of_bytes f).timestamp_lo (of_bytes g).timestamp_lo + slept_ns later
slept-pause_between rate f g later =
    let dns = delta_ns (of_bytes f).timestamp_lo (of_bytes g).timestamp_lo in
    elim (Bool-cases (ltb 0 dns)) [
      | inl some_time ↦ rw some_time refl
      | inr no_time ↦ rw no_time (omega (arith, ltb→le 0 dns no_time))
    ]

slept-pauses :
    (rate : Rate) (f : List ℕ) (fs : List (List ℕ)) (t : ℕ) (ts : List ℕ)
    → PackedAt (f ∷ fs) (t ∷ ts)
    → Steady t ts
    → slept_ns (pauses true rate (f ∷ fs)) + t ≡ last_of t ts
unfolding pauses
slept-pauses rate f [] t [] packed steady = omega arith
slept-pauses rate f [] t (u ∷ ts) packed steady = absurd packed.2
slept-pauses rate f (g ∷ fs) t [] packed steady = absurd packed.2
slept-pauses rate f (g ∷ fs) t (u ∷ ts) packed steady =
    let d = u - t in
    let exact : delta_ns (of_bytes f).timestamp_lo (of_bytes g).timestamp_lo ≡ min d 1000000000 =
      ap₂ delta_ns packed.1 (packed.2.1 ∙ omega (arith, steady.0))
      ∙ delta_ns_lem t d (omega (arith, steady.1)) in
    let rest = slept-pauses rate g fs u ts packed.2 steady.2 in
    rw packed.0 (
      omega (
        arith,
        slept-pause_between rate f g (pauses true rate (g ∷ fs)),
        exact,
        rest,
        steady.0,
        steady.1,
      ))

-- One pause of the period behind each frame but the last.
abbrev pub IsPeriod : Rate → Pause → Type 0
IsPeriod rate p = p ≡ sleep_period rate

periods :
    (rate : Rate) (f : List ℕ) (fs : List (List ℕ)) (ts : List ℕ)
    → PackedAt (f ∷ fs) ts
    → All (IsPeriod rate) (pauses false rate (f ∷ fs))
      × (length (pauses false rate (f ∷ fs)) ≡ length fs)
unfolding pauses
periods rate f fs [] packed = absurd packed
periods rate f [] (t ∷ ts) packed = (tt, refl)
periods rate f (g ∷ fs) (t ∷ ts) packed =
    let (all, many) = periods rate g fs ts packed.2 in rw packed.0 ((refl, all), ap suc many)

-- Of frames that verify, packed at times that go on by at most a second each, the pauses at the
-- pace of the capture take together the time from the first frame to the last, also across the
-- rollover of their 32-bit times; at a fixed pace there is one period behind each frame but the
-- last.
pub pauses_lem :
    (rate : Rate) (f : List ℕ) (fs : List (List ℕ)) (t : ℕ) (ts : List ℕ)
    → PackedAt (f ∷ fs) (t ∷ ts)
    → Steady t ts
    → (slept_ns (pauses true rate (f ∷ fs)) + t ≡ last_of t ts)
      × All (IsPeriod rate) (pauses false rate (f ∷ fs))
      × (length (pauses false rate (f ∷ fs)) ≡ length fs)
pauses_lem rate f fs t ts packed steady =
    let (all, many) = periods rate f fs (t ∷ ts) packed in
    (slept-pauses rate f fs t ts packed steady, all, many)
