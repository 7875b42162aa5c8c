-- ===== src/Analyze/Gaps.antt =====
-- What the statistics of core-engine/include/zcm_analyze.hpp say of the frames observed.
use zcmesh.Base.{
  ℕ, suc, ◌+◌, ◌-◌, ◌^◌, ◌≤◌, ◌<◌, ◌≡◌, refl, ◌∙◌, ap, arith, true, List, [], ◌∷◌, ◌==◌,
  if◌then◌else◌, length, Bool-cases, inl, inr,
}
use zcmesh.Wire.Frame.{Frame}
use zcmesh.Analyze.{
  NodeGapStats, ZcmAnalyze, new_stats, new_analyze, lookup, insert, note_seq, observe,
}

lookup-insert {ℓ} :
    {A : Type ℓ} (default : A) (m : List (ℕ × A)) (k k' : ℕ) (v : A)
    → lookup default (insert m k v) k' ≡ (if k == k' then v else lookup default m k')
lookup-insert default [] k k' v = refl
lookup-insert default ((a, w) ∷ m) k k' v = elim (Bool-cases (a == k)) [
  | inl same ↦ ground (arith, same)
  | inr other ↦ ground (arith, other, lookup-insert default m k k' v)
]

abbrev pub observe_all : ZcmAnalyze → List Frame → ZcmAnalyze
observe_all z [] = z
observe_all z (f ∷ fs) = observe_all (observe z f) fs

-- The sequence numbers of a node's frames.
abbrev pub seqs_of : ℕ → List Frame → List ℕ
seqs_of k [] = []
seqs_of k (f ∷ fs) = if f.node_id == k then f.seq ∷ seqs_of k fs else seqs_of k fs

abbrev pub note_all : NodeGapStats → List ℕ → NodeGapStats
note_all n [] = n
note_all n (s ∷ ss) = note_all (note_seq n s) ss

observe-node :
    (z : ZcmAnalyze) (f : Frame) (k : ℕ)
    → lookup new_stats (observe z f).by_node k ≡ (
        if f.node_id == k
        then note_seq (lookup new_stats z.by_node f.node_id) f.seq
        else lookup new_stats z.by_node k)
unfolding observe
observe-node z f k = lookup-insert new_stats z.by_node f.node_id k _

-- Each node's statistics depend on its own frames only.
observe_all-node :
    (z : ZcmAnalyze) (fs : List Frame) (k : ℕ)
    → lookup new_stats (observe_all z fs).by_node k
      ≡ note_all (lookup new_stats z.by_node k) (seqs_of k fs)
observe_all-node z [] k = refl
observe_all-node z (f ∷ fs) k =
    observe_all-node (observe z f) fs k
    ∙ ap (λ n. note_all n (seqs_of k fs)) (observe-node z f k)
    ∙ elim (Bool-cases (f.node_id == k)) [
      | inl own ↦ let e : f.node_id ≡ k = ground (arith, own) in rw (own, e) refl
      | inr other ↦ rw other refl
    ]

-- Each is a uint32_t, and above the one before it.
abbrev pub IsRising : ℕ → List ℕ → Type 0
IsRising low [] = Unit
IsRising low (s ∷ ss) = (low < s) × (s < 2 ^ 32) × IsRising s ss

abbrev pub last_of : ℕ → List ℕ → ℕ
last_of s [] = s
last_of s (s' ∷ ss) = last_of s' ss

last_of_le : (low : ℕ) (ss : List ℕ) → IsRising low ss → low ≤ last_of low ss
last_of_le low [] r = omega arith
last_of_le low (s ∷ ss) (lt, fits, r) = omega (arith, last_of_le s ss r)

-- A run of a node's frames from `first` to `last` with nothing twice.
abbrev pub IsRun : ℕ → ℕ → NodeGapStats → Type 0
IsRun first last n =
    (n.seen ≡ true)
    × (n.last_seq ≡ last)
    × (n.gaps + n.frames + first ≡ last + 1)
    × (last < 2 ^ 32)
    × (n.dups ≡ 0)

note_seq-IsRun :
    (first last seq : ℕ) (n : NodeGapStats)
    → IsRun first last n
    → last < seq
    → seq < 2 ^ 32
    → IsRun first seq (note_seq n seq) × ((note_seq n seq).frames ≡ suc n.frames)
unfolding note_seq
note_seq-IsRun first last seq n (seen, at_last, sum, fits, none_twice) lt fits' =
    ground (arith, seen, at_last, sum, none_twice)

note_all-IsRun :
    (first last : ℕ) (n : NodeGapStats) (ss : List ℕ)
    → IsRun first last n
    → IsRising last ss
    → IsRun first (last_of last ss) (note_all n ss)
      × ((note_all n ss).frames ≡ n.frames + length ss)
note_all-IsRun first last n [] run rising = (run, omega arith)
note_all-IsRun first last n (s ∷ ss) run (lt, fits, rising) =
    let (run1, one) = note_seq-IsRun first last s n run lt fits in
    let (run2, more) = note_all-IsRun first s (note_seq n s) ss run1 rising in (run2, omega arith)

first_seq :
    (s : ℕ) → s < 2 ^ 32 → IsRun s s (note_seq new_stats s) × ((note_seq new_stats s).frames ≡ 1)
unfolding note_seq
first_seq s fits = ((refl, refl, omega arith, fits, refl), refl)

-- Of any frames observed from the start, for a node whose own 32-bit sequence numbers rise
-- strictly, frames counts them, dups is 0, last_seq is the last, and gaps and frames together are
-- the numbers from first to last.
pub observe_all-IsRising :
    (fs : List Frame) (k s : ℕ) (ss : List ℕ)
    → seqs_of k fs ≡ s ∷ ss
    → s < 2 ^ 32
    → IsRising s ss
    → let n = lookup new_stats (observe_all new_analyze fs).by_node k in
      (n.frames ≡ suc (length ss))
      × (n.dups ≡ 0)
      × (n.last_seq ≡ last_of s ss)
      × (n.gaps + n.frames ≡ last_of s ss - s + 1)
observe_all-IsRising fs k s ss own fits rising =
    let start = note_seq new_stats s in
    let run0 : IsRun s s start × (start.frames ≡ 1) = first_seq s fits in
    let (run, count) = note_all-IsRun s s start ss run0.0 rising in
    let (seen, at_last, sum, in_range, none_twice) = run in
    let same : lookup new_stats (observe_all new_analyze fs).by_node k ≡ note_all start ss =
      observe_all-node new_analyze fs k ∙ ap (note_all new_stats) own in
    rw same (omega arith, none_twice, at_last, omega (arith, last_of_le s ss rising))
