-- ===== src/Edge/Loop/Delivery.antt =====
-- A run of the loop of `main` in core-engine/src/main.cpp over TCP: which frames the stream gets.
use zcmesh.Base.{ℕ, suc, ◌^◌, ◌≤◌, ◌<◌, ◌≡◌, arith, true, false, List, [], ◌∷◌, ◌++◌}
use zcmesh.Wire.Frame.{Frame}
use zcmesh.Net.Api.{Endpoint, IsTcp}
use zcmesh.Batch.{full}
use zcmesh.Batch.Validity.{IsValid}
use zcmesh.Edge.{EdgeApi, tcp_mode, taped}
use zcmesh.Edge.Loop.Flushing.{flush_batch-IsDone}
use zcmesh.Edge.Loop.{Options, LoopState, drain, after_push}
use zcmesh.Edge.Loop.Owed.{Keeps, flush-Keeps}

-- the bit patterns of a uint8_t and an int32_t
abbrev pub IsReading : ℕ → ℕ → Type 0
IsReading sensor raw = (sensor < 2 ^ 8) × (raw < 2 ^ 32)

-- The frames of a node with numbers from `low` on that rise and end below `high`.
abbrev pub Numbered : ℕ → ℕ → List Frame → ℕ → Type 0
Numbered node_id low [] high = low ≤ high
Numbered node_id low (f ∷ fs) high =
    (low ≤ f.seq) × (f.node_id ≡ node_id) × Numbered node_id (suc f.seq) fs high

pub Numbered-append :
    (node_id low : ℕ) (fs gs : List Frame) (mid high : ℕ)
    → Numbered node_id low fs mid
    → Numbered node_id mid gs high
    → Numbered node_id low (fs ++ gs) high
Numbered-append node_id low [] [] mid high p q = omega arith
Numbered-append node_id low [] (g ∷ gs) mid high p (lower, own, q) = (omega arith, own, q)
Numbered-append node_id low (f ∷ fs) gs mid high (lower, own, p) q =
    (lower, own, Numbered-append node_id (suc f.seq) fs gs mid high p q)

-- the options of an edge that sends over TCP
abbrev pub over_tcp : Endpoint → ℕ → ℕ → Options
over_tcp op node_id drop_pct = record {
  transport = tcp_mode;
  operator = op;
  node_id = node_id;
  drop_pct = drop_pct;
}

module _ {W : Type 0} (api : EdgeApi W) (laws : IsTcp api.tcp) where
  module _ (op : Endpoint) (node_id drop_pct : ℕ) where
    pub drain-Keeps :
        (s : LoopState (taped api) (over_tcp op node_id drop_pct))
        → IsValid s.edge.batch
        → let (go, s') = drain (taped api) (over_tcp op node_id drop_pct) s in
          Keeps api laws s.edge s'.edge
          × (s'.seq ≡ s.seq)
          × (s'.dropped_count ≡ s.dropped_count)
          × (go ≡ true → full s'.edge.batch ≡ false)
    unfolding drain
    drain-Keeps s v =
        let k = flush-Keeps api laws op node_id s.edge v in
        let done = (flush_batch-IsDone api laws tcp_mode op node_id s.edge v).1 in
        ground (arith, k, done, k.1.flush_pos, k.1.flush_le)

    pub after_push-Keeps :
        (s : LoopState (taped api) (over_tcp op node_id drop_pct))
        → IsValid s.edge.batch
        → let s' = after_push (taped api) (over_tcp op node_id drop_pct) s in
          Keeps api laws s.edge s'.edge × (s'.seq ≡ s.seq) × (s'.dropped_count ≡ s.dropped_count)
    unfolding after_push
    after_push-Keeps s v = let k = flush-Keeps api laws op node_id s.edge v in ground (arith, k)
