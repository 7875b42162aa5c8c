-- ===== src/Analyze.antt =====
-- The gap statistics of core-engine/include/zcm_analyze.hpp. A map from keys is an association list;
-- its `operator[]` adds a missing key with the default value.
pub mod Gaps
use zcmesh.Base.{
  ℕ, zero, suc, ◌+◌, ◌-◌, ◌*◌, ◌/◌, ◌%◌, ◌^◌, min, max, bit_and, not, Bool, true, false, List, [],
  ◌∷◌, ltb, leb, ◌==◌, if◌then◌else◌, get_or, set, replicate, inc64, add64,
}
use zcmesh.Wire.Frame.{Frame, flag_last_hop}

pub record NodeGapStats : Type 0 where
  pub seen : Bool
  pub last_seq : ℕ
  pub frames : ℕ
  pub gaps : ℕ
  pub gap_events : ℕ
  pub dups : ℕ
  pub max_hole : ℕ

pub record HopStats : Type 0 where
  pub last_hop : ℕ
  pub hop_hist : List ℕ

pub record ZcmAnalyze : Type 0 where
  pub ok : ℕ
  pub crc_fail : ℕ
  pub min_seq : ℕ
  pub max_seq : ℕ
  pub any : Bool
  pub by_node : List (ℕ × NodeGapStats)
  pub by_sensor : List (ℕ × ℕ)
  pub hop : HopStats

abbrev pub new_stats : NodeGapStats
new_stats = record {
  seen = false;
  last_seq = 0;
  frames = 0;
  gaps = 0;
  gap_events = 0;
  dups = 0;
  max_hole = 0;
}

abbrev pub new_analyze : ZcmAnalyze
new_analyze = record {
  ok = 0;
  crc_fail = 0;
  min_seq = 0xFFFFFFFF;
  max_seq = 0;
  any = false;
  by_node = [];
  by_sensor = [];
  hop = record { last_hop = 0; hop_hist = replicate 16 0 };
}

-- `m[k]`, read and written
module _ {ℓ} {A : Type ℓ} (default : A) where
  abbrev pub lookup : List (ℕ × A) → ℕ → A
  lookup [] k = default
  lookup ((k', v) ∷ m) k = if k' == k then v else lookup m k

abbrev pub insert {ℓ} : {A : Type ℓ} → List (ℕ × A) → ℕ → A → List (ℕ × A)
insert [] k v = (k, v) ∷ []
insert ((k', v') ∷ m) k v = if k' == k then (k', v) ∷ m else (k', v') ∷ insert m k v

-- The part of `observe` that works on the node's entry; `seq` and `last_seq` are uint32_t.
unfoldable pub note_seq : NodeGapStats → ℕ → NodeGapStats
note_seq n seq =
    let counted = record n { frames = inc64 n.frames } in
    let hole = seq - n.last_seq - 1 in
    if not n.seen
    then record n { seen = true; last_seq = seq; frames = 1 }
    else if leb seq n.last_seq
    then record counted { dups = inc64 n.dups; last_seq = seq }
    else if ltb ((n.last_seq + 1) % 2 ^ 32) seq
    then record counted {
      gaps = add64 n.gaps hole;
      gap_events = inc64 n.gap_events;
      max_hole = if ltb n.max_hole hole then hole else n.max_hole;
      last_seq = seq;
    }
    else record counted { last_seq = seq }

unfoldable pub observe : ZcmAnalyze → Frame → ZcmAnalyze
observe z f =
    let hi = if ltb f.reserved 16 then f.reserved else 15 in
    let last = bit_and f.flags flag_last_hop in
    let hop : HopStats = record {
      last_hop = if last == 0 then z.hop.last_hop else inc64 z.hop.last_hop;
      hop_hist = set z.hop.hop_hist hi (inc64 (get_or z.hop.hop_hist hi 0));
    } in
    record z {
      ok = inc64 z.ok;
      by_sensor = insert z.by_sensor f.sensor_type (inc64 (lookup 0 z.by_sensor f.sensor_type));
      min_seq = if not z.any then f.seq else if ltb f.seq z.min_seq then f.seq else z.min_seq;
      max_seq = if not z.any then f.seq else if ltb z.max_seq f.seq then f.seq else z.max_seq;
      any = true;
      hop = hop;
      by_node = insert z.by_node f.node_id (note_seq (lookup new_stats z.by_node f.node_id) f.seq);
    }

-- the sum of the loop of `total_gaps`, of `g`
abbrev pub add_gaps : List (ℕ × NodeGapStats) → ℕ → ℕ
add_gaps [] g = g
add_gaps ((k, n) ∷ m) g = add_gaps m (add64 g n.gaps)

unfoldable pub total_gaps : ZcmAnalyze → ℕ
total_gaps z = add_gaps z.by_node 0

abbrev pub add_dups : List (ℕ × NodeGapStats) → ℕ → ℕ
add_dups [] d = d
add_dups ((k, n) ∷ m) d = add_dups m (add64 d n.dups)

unfoldable pub total_dups : ZcmAnalyze → ℕ
total_dups z = add_dups z.by_node 0
