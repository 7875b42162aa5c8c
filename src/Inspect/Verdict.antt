-- ===== src/Inspect/Verdict.antt =====
-- The exit code of core-engine/src/inspect.cpp against what the file and the expectations say.
use zcmesh.Base.{
  ℕ, ◌*◌, ◌^◌, ◌≤◌, ◌<◌, ◌≡◌, ◌≢◌, ◌↔◌, refl, sym, ◌∙◌, ap, arith, false, Option, none, some, List,
  [], ◌∷◌, All, length, length-take, take, get_or, Bool-cases, inl, inr, ltb, ltb→lt, ltb→le,
}
use zcmesh.Capture.Accounting.{IsGood}
use zcmesh.Analyze.{ZcmAnalyze, new_analyze, total_gaps}
use zcmesh.Analyze.Gaps.{observe_all}
use zcmesh.Zcm.{ZcmHeader, open_capture}
use zcmesh.Inspect.{
  Expect, too_few, too_many, hop_wrong, raws_differ, raws_wrong, check_report, read_frames, verdict,
  inspect_opened, inspect,
}
use zcmesh.Inspect.Reading.{
  frames_at, length-frames_at, raws_of, fails_of, read_frames-good, read_frames-truncated,
  read_frames-bad, observe_all-counts,
}

abbrev pub AtLeast : Option ℕ → ℕ → Type 0
AtLeast none x = Unit
AtLeast (some n) x = n ≤ x

abbrev pub AtMost : Option ℕ → ℕ → Type 0
AtMost none x = Unit
AtMost (some n) x = x ≤ n

-- Every frame has this hop index, and there is one.
abbrev pub OnlyHop : Option ℕ → ZcmAnalyze → Type 0
OnlyHop none z = Unit
OnlyHop (some k) z = (k < 16) × (get_or z.hop.hop_hist k 0 ≡ z.ok) × (z.ok ≢ 0)

-- The statistics and raw values are as expected.
abbrev pub Meets : Expect → ZcmAnalyze → List ℕ → Type 0
Meets e z seen =
    AtLeast e.gaps_min (total_gaps z)
    × AtMost e.gaps_max (total_gaps z)
    × OnlyHop e.hop_idx z
    × (e.last_hop_short z.hop.last_hop z.ok ≡ false)
    × AtLeast e.frames_min z.ok
    × (take (length e.raws) seen ≡ e.raws)

too_few_iff : (o : Option ℕ) (x : ℕ) → x < 2 ^ 63 → (too_few o x ≡ false) ↔ AtLeast o x
unfolding too_few
too_few_iff none x h = (λ e. tt, λ u. refl)
too_few_iff (some n) x h = ground arith

too_many_iff : (o : Option ℕ) (x : ℕ) → x < 2 ^ 63 → (too_many o x ≡ false) ↔ AtMost o x
unfolding too_many
too_many_iff none x h = (λ e. tt, λ u. refl)
too_many_iff (some n) x h = ground arith

hop_wrong_iff : (o : Option ℕ) (z : ZcmAnalyze) → (hop_wrong o z ≡ false) ↔ OnlyHop o z
unfolding hop_wrong
hop_wrong_iff none z = (λ e. tt, λ u. refl)
hop_wrong_iff (some k) z = ground arith

raws_differ_iff : (xs ys : List ℕ) → (raws_differ xs ys ≡ false) ↔ (take (length xs) ys ≡ xs)
raws_differ_iff [] ys = (λ e. refl, λ e. refl)
raws_differ_iff (x ∷ xs) [] = ground arith
raws_differ_iff (x ∷ xs) (y ∷ ys) = ground (arith, raws_differ_iff xs ys)

raws_wrong_iff : (xs ys : List ℕ) → (raws_wrong xs ys ≡ false) ↔ (take (length xs) ys ≡ xs)
unfolding raws_wrong
raws_wrong_iff xs ys = ground (arith, raws_differ_iff xs ys, length-take (length xs) ys)

check_report_iff :
    (e : Expect) (n : ℕ) (z : ZcmAnalyze) (seen : List ℕ)
    → z.crc_fail ≡ 0
    → z.ok ≡ n
    → total_gaps z < 2 ^ 63
    → z.ok < 2 ^ 63
    → (check_report e n z seen ≡ 0) ↔ Meets e z seen
unfolding check_report
check_report_iff e n z seen good all fits few = ground (
  arith,
  too_few_iff e.gaps_min (total_gaps z) fits,
  too_many_iff e.gaps_max (total_gaps z) fits,
  hop_wrong_iff e.hop_idx z,
  too_few_iff e.frames_min z.ok few,
  raws_wrong_iff e.raws seen,
)

-- A verdict that passes has counted no failure and passes the checks.
verdict_passes :
    (e : Expect) (n : ℕ) (o : Option (ZcmAnalyze × List ℕ)) → verdict e n o ≡ 0 → fails_of o ≡ 0
unfolding check_report
verdict_passes e n none h = refl
verdict_passes e n (some (z, seen)) h = ground (arith, h)

good_verdict :
    (e : Expect) (n : ℕ) (left : List ℕ)
    → n < 2 ^ 63
    → total_gaps (observe_all new_analyze (frames_at n left)) < 2 ^ 63
    → 24 * n ≤ length left
    → All IsGood (frames_at n left)
    → (verdict e n (read_frames n left new_analyze []) ≡ 0)
      ↔ Meets e (observe_all new_analyze (frames_at n left)) (raws_of (frames_at n left))
good_verdict e n left fits gaps long good =
    let z = observe_all new_analyze (frames_at n left) in
    let (ok, fails) = observe_all-counts new_analyze (frames_at n left) (omega arith) in
    let all : z.ok ≡ n = omega (arith, ok, length-frames_at n left) in
    rw (read_frames-good n left new_analyze [] long good)
      (check_report_iff e n z (raws_of (frames_at n left)) fails all gaps (omega (arith, all)))

-- Of a file that opens with fewer than 2^63 frames and gaps, inspect exits with 0 exactly if the
-- file holds all the frames of its header, each of them verifies, and the statistics and raw
-- values meet every expectation given.
pub inspect_iff :
    (e : Expect) (text left : List ℕ) (hdr : ZcmHeader)
    → open_capture text ≡ some (hdr, left)
    → hdr.frame_count < 2 ^ 63
    → let fs = frames_at hdr.frame_count left in
      let z = observe_all new_analyze fs in
      total_gaps z < 2 ^ 63
      → (inspect e text ≡ 0)
        ↔ ((24 * hdr.frame_count ≤ length left) × All IsGood fs × Meets e z (raws_of fs))
unfolding inspect
inspect_iff e text left hdr opens fits gaps =
    let n = hdr.frame_count in
    let code = ap (inspect_opened e) opens in
    elim (Bool-cases (ltb (length left) (24 * n))) [
      | inl short ↦
          let fails =
            code
            ∙ ap (verdict e n) (read_frames-truncated n left new_analyze [] (ltb→lt _ _ short)) in
          (
            λ passes. absurd (omega (arith, fails, passes)),
            λ r. absurd (omega (arith, r.0, ltb→lt _ _ short)),
          )
      | inr enough ↦
          let long = ltb→le _ _ enough in
          let bad = read_frames-bad n left new_analyze [] (omega arith) long in
          (
            λ passes.
                let good =
                  bad.1
                    (verdict_passes e n (read_frames n left new_analyze []) (sym code ∙ passes)) in
                (long, good, (good_verdict e n left fits gaps long good).0 (sym code ∙ passes)),
            λ r. code ∙ (good_verdict e n left fits gaps long r.1).1 r.2,
          )
    ]
