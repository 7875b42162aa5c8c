-- ===== src/Inspect/OfCapture.antt =====
-- core-engine/src/inspect.cpp on a file that core-engine/src/capture.cpp has written.
use zcmesh.Base.{
  ℕ, ◌*◌, ◌^◌, ◌≤◌, ◌<◌, ◌≡◌, ◌↔◌, refl, sym, ◌∙◌, ap, ap₂, arith, subst, some, List, [], ◌∷◌, ◌++◌,
  append_assoc, append-nil, All, length, length-append, take, take-append, drop, drop-append_left,
  drop-all,
}
use zcmesh.Wire.Frame.{Frame, IsFrame, of_bytes, frame_bytes}
use zcmesh.Wire.Layout.{of_bytes-frame_bytes}
use zcmesh.Batch.{frames_bytes}
use zcmesh.Batch.Contents.{length-frame_bytes, length-frames_bytes}
use zcmesh.Capture.{Decoder}
use zcmesh.Capture.Accounting.{IsGood}
use zcmesh.Capture.Select.Written.{Captured}
use zcmesh.Zcm.{File, header_for, open_capture}
use zcmesh.Zcm.Opening.{open_capture-header_bytes}
use zcmesh.Analyze.{new_analyze, total_gaps}
use zcmesh.Analyze.Gaps.{observe_all}
use zcmesh.Inspect.{Expect, inspect}
use zcmesh.Inspect.Reading.{frames_at, raws_of}
use zcmesh.Inspect.Verdict.{Meets, inspect_iff}

frames_at-frames_bytes :
    (fs : List Frame) (tail : List ℕ)
    → All IsFrame fs
    → frames_at (length fs) (frames_bytes fs ++ tail) ≡ fs
frames_at-frames_bytes [] tail fit = refl
frames_at-frames_bytes (f ∷ fs) tail fit =
    let rest = frames_bytes fs ++ tail in
    let apart : frames_bytes (f ∷ fs) ++ tail ≡ frame_bytes f ++ rest =
      append_assoc (frame_bytes f) (frames_bytes fs) tail in
    let size = length-frame_bytes f in
    let head : of_bytes (take 24 (frames_bytes (f ∷ fs) ++ tail)) ≡ f =
      ap (λ l. of_bytes (take 24 l)) apart
      ∙ ap of_bytes (take-append 24 (frame_bytes f) rest size ∙ sym (append-nil (frame_bytes f)))
      ∙ of_bytes-frame_bytes f [] fit.0 in
    let behind : drop 24 (frames_bytes (f ∷ fs) ++ tail) ≡ rest =
      ap (drop 24) apart
      ∙ drop-append_left 24 (frame_bytes f) rest (omega arith)
      ∙ ap (λ l. l ++ rest) (drop-all 24 (frame_bytes f) (omega arith)) in
    ap₂ (◌∷◌) head (ap (frames_at (length fs)) behind ∙ frames_at-frames_bytes fs tail fit.1)

-- A captured file opens with its frames.
pub open_capture-Captured :
    (limit code : ℕ) (d : Decoder File) (c : Captured limit code d)
    → length c.frames < 2 ^ 63
    → open_capture d.out.text ≡ some (header_for (length c.frames), frames_bytes c.frames ++ c.part)
open_capture-Captured limit code d c few =
    let all : d.ok ≡ length c.frames = omega (arith, c.counted) in
    ap open_capture c.text
    ∙ open_capture-header_bytes d.ok (frames_bytes c.frames ++ c.part) (omega (arith, all))
    ∙ ap (λ n. some (header_for n, frames_bytes c.frames ++ c.part)) all

-- Of a captured file with fewer than 2^63 frames and gaps, inspect exits with 0 exactly if the
-- captured frames meet the expectations.
pub inspect-Captured :
    (limit code : ℕ) (d : Decoder File) (c : Captured limit code d) (e : Expect)
    → length c.frames < 2 ^ 63
    → total_gaps (observe_all new_analyze c.frames) < 2 ^ 63
    → (inspect e d.out.text ≡ 0) ↔ Meets e (observe_all new_analyze c.frames) (raws_of c.frames)
inspect-Captured limit code d c e few gaps =
    let n = length c.frames in
    let left = frames_bytes c.frames ++ c.part in
    let same : frames_at n left ≡ c.frames = frames_at-frames_bytes c.frames c.part c.fit in
    let size : 24 * n ≤ length left =
      omega (arith, length-append (frames_bytes c.frames) c.part, length-frames_bytes c.frames) in
    let both =
      inspect_iff e d.out.text left (header_for n) (open_capture-Captured limit code d c few) few
        (subst (λ fs. total_gaps (observe_all new_analyze fs) < 2 ^ 63) (sym same) gaps) in
    (
      λ passes.
          subst (λ fs. Meets e (observe_all new_analyze fs) (raws_of fs)) same (both.0 passes).2,
      λ meets. both.1 (
        size,
        subst (All IsGood) (sym same) c.good,
        subst (λ fs. Meets e (observe_all new_analyze fs) (raws_of fs)) (sym same) meets,
      ),
    )
