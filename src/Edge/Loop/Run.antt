-- ===== src/Edge/Loop/Run.antt =====
-- A whole run of the loop of `main` in core-engine/src/main.cpp over TCP.
use zcmesh.Base.{
  All, ℕ, ◌+◌, ◌^◌, ◌<◌, ◌≤◌, ◌≡◌, refl, arith, true, false, List, [], ◌∷◌, length, inl, inr,
  Bool-cases, Option, some, Option-cases, subst, sym, ap, ◌∙◌,
}
use zcmesh.Net.Api.{Endpoint, IsTcp}
use zcmesh.Batch.{empty, full}
use zcmesh.Batch.Validity.{IsValid}
use zcmesh.Edge.{EdgeApi, taped}
use zcmesh.Edge.Loop.Owed.{flush-Keeps, Keeps}
use zcmesh.Edge.Loop.Delivery.{IsReading, over_tcp, drain-Keeps}
use zcmesh.Edge.Loop.Sampled.{Ran, Ran-still, Ran-Ran, take_sample-Ran, take_sample-seq}
use zcmesh.Edge.Loop.{
  Options, Reading, LoopState, Polled, poll, read_skip_file, drain, finish, iterate, run,
}

-- The readings have the numbers from `n` on.
abbrev pub Feeds : (ℕ → Option Reading) → ℕ → List Reading → Type 0
Feeds source n [] = Unit
Feeds source n (r ∷ rs) = (source n ≡ some r) × Feeds source (n + 1) rs

module _ {W : Type 0} (api : EdgeApi W) (laws : IsTcp api.tcp) (op : Endpoint)
    (node_id drop_pct : ℕ) (source : ℕ → Option Reading) where
  abbrev opts : Options
  opts = over_tcp op node_id drop_pct

  abbrev Looped : Type 0
  Looped = LoopState (taped api) opts

  abbrev Done : Looped → Looped → Type 0
  Done = Ran api laws op node_id drop_pct source

  poll-Keeps :
      (p : Polled (taped api) opts) (s : Looped)
      → IsValid s.edge.batch
      → let s' = poll (taped api) opts p s in
        Keeps api laws s.edge s'.edge × (s'.seq ≡ s.seq) × (s'.dropped_count ≡ s.dropped_count)
  unfolding poll read_skip_file
  poll-Keeps p s v = elim (Option-cases p.skip_file) [
    | inl off ↦ rw (off, read_skip_file) ((refl, v), refl, refl)
    | inr (n, on) ↦ rw (on, read_skip_file) ((refl, v), refl, refl)
  ]

  finish-Ran :
      (s : Looped)
      → IsValid s.edge.batch
      → s.dropped_count < 2 ^ 64
      → Done s (finish (taped api) opts s)
  unfolding finish
  finish-Ran s v fits64 =
      let k = flush-Keeps api laws op node_id s.edge v in
      elim (Bool-cases (empty s.edge.batch)) [
        | inl none_left ↦
            rw (none_left, finish)
              (Ran-still api laws op node_id drop_pct source s _ fits64 (refl, v) refl refl)
        | inr some_left ↦
            rw (some_left, finish)
              (Ran-still api laws op node_id drop_pct source s _ fits64 k refl refl)
      ]

  -- The part of a turn before a sample is read.
  abbrev Before : Polled (taped api) opts → Looped → Type 0
  Before p s =
      let (go, s') = drain (taped api) opts (poll (taped api) opts p s) in
      Done s s' × (s'.seq ≡ s.seq) × (go ≡ true → full s'.edge.batch ≡ false)

  drain_polled_lem :
      (p : Polled (taped api) opts) (s : Looped)
      → IsValid s.edge.batch
      → s.dropped_count < 2 ^ 64
      → Before p s
  drain_polled_lem p s v fits64 =
      let s1 = poll (taped api) opts p s in
      let (k1, seq1, count1) = poll-Keeps p s v in
      let (k2, seq2, count2, room) = drain-Keeps api laws op node_id drop_pct s1 k1.1 in
      let still =
        Ran-still api laws op node_id drop_pct source s (drain (taped api) opts s1).1 fits64
          (k2.0 ∙ k1.0, k2.1) (seq2 ∙ seq1) (count2 ∙ count1) in
      (still, seq2 ∙ seq1, room)

  iterate-Ran :
      (p : Polled (taped api) opts) (readings : List Reading) (s : Looped)
      → IsValid s.edge.batch
      → node_id < 2 ^ 16
      → All (λ r. IsReading r.sensor r.raw) readings
      → s.seq + length readings < 2 ^ 32
      → s.dropped_count < 2 ^ 64
      → Feeds source s.seq readings
      → let (on, rest, s') = iterate (taped api) opts p readings s in
        Done s s'
        × (s'.seq + length rest ≤ s.seq + length readings)
        × All (λ r. IsReading r.sensor r.raw) rest
        × Feeds source s'.seq rest
  unfolding iterate
  iterate-Ran p [] s v node fit fits fits64 feeds =
      let (go, s2) = drain (taped api) opts (poll (taped api) opts p s) in
      let (still, seq, room) = drain_polled_lem p s v fits64 in
      elim (Bool-cases go) [
        | inr back ↦
            rw (back, iterate)
              (still, omega arith, fit, subst (λ n. Feeds source n []) (sym seq) feeds)
        | inl on ↦ rw (on, iterate) (still, omega arith, fit, tt)
      ]
  iterate-Ran p (r ∷ rs) s v node fit fits fits64 feeds =
      let (go, s2) = drain (taped api) opts (poll (taped api) opts p s) in
      let (still, seq, room) = drain_polled_lem p s v fits64 in
      elim (Bool-cases go) [
        | inr back ↦
            rw (back, iterate)
              (still, omega arith, fit, subst (λ n. Feeds source n (r ∷ rs)) (sym seq) feeds)
        | inl on ↦
            let taken =
              take_sample-Ran api laws op node_id drop_pct source r.sensor r.raw s2 still.valid
                (room on) node fit.0 (omega arith) (omega (arith, still.counted))
                (ap source seq ∙ feeds.0) in
            let next =
              take_sample-seq api laws op node_id drop_pct source r.sensor r.raw s2 still.valid
                (room on) in
            rw (on, iterate)
              (
                Ran-Ran api laws op node_id drop_pct source s s2 _ still taken,
                omega (arith, next, seq),
                fit.1,
                subst (λ n. Feeds source n rs) (omega (arith, next, seq)) feeds.1,
              )
      ]

  pub run-Ran :
      (ps : List (Polled (taped api) opts)) (readings : List Reading) (s : Looped)
      → IsValid s.edge.batch
      → node_id < 2 ^ 16
      → All (λ r. IsReading r.sensor r.raw) readings
      → s.seq + length readings < 2 ^ 32
      → s.dropped_count < 2 ^ 64
      → Feeds source s.seq readings
      → Done s (run (taped api) opts ps readings s)
  unfolding run
  run-Ran [] readings s v node fit fits fits64 feeds = finish-Ran s v fits64
  run-Ran (p ∷ []) readings s v node fit fits fits64 feeds =
      let s1 = poll (taped api) opts p s in
      let (k, seq, count) = poll-Keeps p s v in
      Ran-Ran api laws op node_id drop_pct source s s1 _
        (Ran-still api laws op node_id drop_pct source s s1 fits64 k seq count)
        (finish-Ran s1 k.1 (omega (arith, count)))
  run-Ran (p ∷ q ∷ ps) readings s v node fit fits fits64 feeds =
      let (on, rest, s1) = iterate (taped api) opts p readings s in
      let (r1, left, fit1, feeds1) = iterate-Ran p readings s v node fit fits fits64 feeds in
      let later =
        run-Ran (q ∷ ps) rest s1 r1.valid node fit1 (omega arith) (omega (arith, r1.counted))
          feeds1 in
      let ended = finish-Ran s1 r1.valid (omega (arith, r1.counted)) in
      elim (Bool-cases on) [
        | inl goes ↦ rw (goes, run) (Ran-Ran api laws op node_id drop_pct source s s1 _ r1 later)
        | inr stops ↦ rw (stops, run) (Ran-Ran api laws op node_id drop_pct source s s1 _ r1 ended)
      ]
