-- ===== src/Inspect/Reading.antt =====
-- What the loop of core-engine/src/inspect.cpp reads.
use zcmesh.Base.{
  ℕ, zero, suc, ◌+◌, ◌*◌, ◌%◌, ◌^◌, ◌≤◌, ◌<◌, ◌≡◌, refl, sym, ◌∙◌, ap, arith, Option, none, some,
  List, [], ◌∷◌, ◌++◌, append_assoc, append-nil, All, length, take, drop, length-take, length-drop,
  Bool-cases, inl, inr, ◌==◌, inc64, ==_iff,
}
use zcmesh.Wire.Frame.{Frame, of_bytes}
use zcmesh.Wire.Pack.{verify_frame}
use zcmesh.Capture.Accounting.{IsGood}
use zcmesh.Analyze.{ZcmAnalyze, observe}
use zcmesh.Analyze.Gaps.{observe_all}
use zcmesh.Inspect.{read_frames}

-- The first `n` frames of some bytes.
abbrev pub frames_at : ℕ → List ℕ → List Frame
frames_at zero left = []
frames_at (suc n) left = of_bytes (take 24 left) ∷ frames_at n (drop 24 left)

abbrev pub raws_of : List Frame → List ℕ
raws_of [] = []
raws_of (f ∷ fs) = f.raw_value ∷ raws_of fs

pub length-frames_at : (n : ℕ) (left : List ℕ) → length (frames_at n left) ≡ n
length-frames_at zero left = refl
length-frames_at (suc n) left = ap suc (length-frames_at n (drop 24 left))

head_whole : (left : List ℕ) → 24 ≤ length left → length (take 24 left) ≡ 24
head_whole left h = omega (arith, length-take 24 left)

-- Frames that all verify are all observed.
pub read_frames-good :
    (n : ℕ) (left : List ℕ) (z : ZcmAnalyze) (seen : List ℕ)
    → 24 * n ≤ length left
    → All IsGood (frames_at n left)
    → read_frames n left z seen
      ≡ some (observe_all z (frames_at n left), seen ++ raws_of (frames_at n left))
unfolding read_frames
read_frames-good zero left z seen h good = ap (λ l. some (z, l)) (sym (append-nil seen))
read_frames-good (suc n) left z seen h good =
    let f = of_bytes (take 24 left) in
    let ih =
      read_frames-good n (drop 24 left) (observe z f) (seen ++ f.raw_value ∷ [])
        (omega (arith, length-drop 24 left)) good.1 in
    let whole = head_whole left (omega arith) in
    rw (whole, good.0)
      (ih
        ∙ ap (λ l. some (observe_all z (frames_at (suc n) left), l))
            (append_assoc seen (f.raw_value ∷ []) (raws_of (frames_at n (drop 24 left)))))

-- A file with fewer bytes than that is truncated.
pub read_frames-truncated :
    (n : ℕ) (left : List ℕ) (z : ZcmAnalyze) (seen : List ℕ)
    → length left < 24 * n
    → read_frames n left z seen ≡ none
unfolding read_frames
read_frames-truncated zero left z seen h = absurd (omega arith)
read_frames-truncated (suc n) left z seen h =
    let f = of_bytes (take 24 left) in
    elim (Bool-cases (length (take 24 left) == 24)) [
      | inr short ↦ rw short refl
      | inl whole ↦
          let long : 24 ≤ length left = omega (arith, (==_iff _ 24).0 whole, length-take 24 left) in
          let less : length (drop 24 left) < 24 * n = omega (arith, length-drop 24 left) in
          elim (Bool-cases (verify_frame f)) [
            | inl good ↦
                rw (whole, good)
                  (read_frames-truncated n (drop 24 left) (observe z f) (seen ++ f.raw_value ∷ [])
                    less)
            | inr bad ↦
                rw (whole, bad)
                  (read_frames-truncated n (drop 24 left) (record z { crc_fail = inc64 z.crc_fail })
                    seen less)
          ]
    ]

observe-crc_fail : (z : ZcmAnalyze) (f : Frame) → (observe z f).crc_fail ≡ z.crc_fail
unfolding observe
observe-crc_fail z f = refl

abbrev pub fails_of : Option (ZcmAnalyze × List ℕ) → ℕ
fails_of none = 0
fails_of (some (z, seen)) = z.crc_fail

observe-ok : (z : ZcmAnalyze) (f : Frame) → (observe z f).ok ≡ inc64 z.ok
unfolding observe
observe-ok z f = refl

-- Each frame that does not verify is counted.
pub read_frames-bad :
    (n : ℕ) (left : List ℕ) (z : ZcmAnalyze) (seen : List ℕ)
    → z.crc_fail + n < 2 ^ 64
    → 24 * n ≤ length left
    → let fails = fails_of (read_frames n left z seen) in
      (z.crc_fail ≤ fails) × (fails ≡ z.crc_fail → All IsGood (frames_at n left))
unfolding read_frames
read_frames-bad zero left z seen h long = (omega arith, λ e. tt)
read_frames-bad (suc n) left z seen h long =
    let f = of_bytes (take 24 left) in
    let counted : ZcmAnalyze = record z { crc_fail = inc64 z.crc_fail } in
    let left' = drop 24 left in
    let long' : 24 * n ≤ length left' = omega (arith, length-drop 24 left) in
    let whole = head_whole left (omega arith) in
    let same = observe-crc_fail z f in
    elim (Bool-cases (verify_frame f)) [
      | inl good ↦
          let (ge, all) =
            read_frames-bad n left' (observe z f) (seen ++ f.raw_value ∷ []) (omega (arith, same))
              long' in
          rw (whole, good) (omega (arith, ge, same), λ e. (refl, all (e ∙ sym same)))
      | inr bad ↦
          let (ge, all) = read_frames-bad n left' counted seen (omega arith) long' in
          rw (whole, bad) (omega (arith, ge), λ e. absurd (omega (arith, ge, e)))
    ]

pub observe_all-counts :
    (z : ZcmAnalyze) (fs : List Frame)
    → z.ok < 2 ^ 64
    → ((observe_all z fs).ok ≡ (z.ok + length fs) % 2 ^ 64)
      × ((observe_all z fs).crc_fail ≡ z.crc_fail)
observe_all-counts z [] h = (omega arith, refl)
observe_all-counts z (f ∷ fs) h =
    let one = observe-ok z f in
    let (ok, fails) = observe_all-counts (observe z f) fs (omega (arith, one)) in
    (omega (arith, ok, one), fails ∙ observe-crc_fail z f)
