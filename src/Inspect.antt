-- ===== src/Inspect.antt =====
-- core-engine/src/inspect.cpp: the report of a capture file and its exit code, without the printing.
-- An expectation that is not given is `none`; the code has -1 there.
pub mod Arguments
pub mod Reading
pub mod Verdict
pub mod OfCapture
use zcmesh.Base.{
  ℕ, zero, suc, ◌^◌, not, ◌||◌, Bool, true, false, Option, none, some, List, [], ◌∷◌, ◌++◌, ltb,
  leb, ◌==◌, if◌then◌else◌, length, get_or, inc64,
}
use zcmesh.Wire.Frame.{of_bytes, wire_frame_size}
use zcmesh.Wire.Pack.{verify_frame}
use zcmesh.Analyze.{ZcmAnalyze, new_analyze, observe, total_gaps}
use zcmesh.Zcm.{ZcmHeader, open_capture, read}

-- The loop over `frame_count` frames, with the statistics and the raw values seen; none where the file
-- is truncated.
pub read_frames : ℕ → List ℕ → ZcmAnalyze → List ℕ → Option (ZcmAnalyze × List ℕ)
read_frames zero left stats seen_raws = some (stats, seen_raws)
read_frames (suc n) left stats seen_raws =
    let (bytes, left') = read wire_frame_size left in
    let frame = of_bytes bytes in
    let failed = read_frames n left' (record stats { crc_fail = inc64 stats.crc_fail }) seen_raws in
    let observed = read_frames n left' (observe stats frame) (seen_raws ++ frame.raw_value ∷ []) in
    if not (length bytes == wire_frame_size)
    then none
    else if not (verify_frame frame)
    then failed
    else observed

-- What the command line asks for. `last_hop_short` says of the frames with LAST_HOP and of all that their
-- percentage, a double, is below the one asked for.
pub record Expect : Type 0 where
  pub gaps_min : Option ℕ
  pub gaps_max : Option ℕ
  pub hop_idx : Option ℕ
  pub last_hop_short : ℕ → ℕ → Bool
  pub frames_min : Option ℕ
  pub raws : List ℕ

-- `static_cast<int64_t>(x) < n` and `> n`, of an `n` that is not negative
abbrev pub signed_below : ℕ → ℕ → Bool
signed_below x n = leb (2 ^ 63) x || ltb x n

abbrev pub signed_above : ℕ → ℕ → Bool
signed_above x n = if leb (2 ^ 63) x then false else ltb n x

unfoldable pub too_few : Option ℕ → ℕ → Bool
too_few none x = false
too_few (some n) x = signed_below x n

unfoldable pub too_many : Option ℕ → ℕ → Bool
too_many none x = false
too_many (some n) x = signed_above x n

unfoldable pub hop_wrong : Option ℕ → ZcmAnalyze → Bool
hop_wrong none z = false
hop_wrong (some k) z =
    if ltb 15 k then true else not (get_or z.hop.hop_hist k 0 == z.ok) || (z.ok == 0)

-- The loop over the raw values expected; the seen ones are at least as many.
abbrev pub raws_differ : List ℕ → List ℕ → Bool
raws_differ [] seen = false
raws_differ (x ∷ xs) [] = true
raws_differ (x ∷ xs) (y ∷ ys) = if not (y == x) then true else raws_differ xs ys

unfoldable pub raws_wrong : List ℕ → List ℕ → Bool
raws_wrong raws seen = if ltb (length seen) (length raws) then true else raws_differ raws seen

unfoldable pub check_report : Expect → ℕ → ZcmAnalyze → List ℕ → ℕ
check_report e frame_count z seen_raws =
    if not (z.crc_fail == 0) || not (z.ok == frame_count)
    then 1
    else if too_few e.gaps_min (total_gaps z)
    then 1
    else if too_many e.gaps_max (total_gaps z)
    then 1
    else if hop_wrong e.hop_idx z
    then 1
    else if e.last_hop_short z.hop.last_hop z.ok
    then 1
    else if too_few e.frames_min z.ok
    then 1
    else if raws_wrong e.raws seen_raws
    then 1
    else 0

-- The exit code: 1 for a truncated file, then for a header that is short or wrong.
abbrev pub verdict : Expect → ℕ → Option (ZcmAnalyze × List ℕ) → ℕ
verdict e frame_count none = 1
verdict e frame_count (some (stats, seen_raws)) = check_report e frame_count stats seen_raws

abbrev pub inspect_opened : Expect → Option (ZcmHeader × List ℕ) → ℕ
inspect_opened e none = 1
inspect_opened e (some (hdr, left)) =
    verdict e hdr.frame_count (read_frames hdr.frame_count left new_analyze [])

-- The exit code, of the bytes of the file.
unfoldable pub inspect : Expect → List ℕ → ℕ
inspect e text = inspect_opened e (open_capture text)
