-- ===== src/Edge/Loop/ToCapture.antt =====
-- The edge of core-engine/src/main.cpp over TCP and the receiver of core-engine/src/capture.cpp behind
-- it: what the decoder makes of the bytes that the edge has sent.
use zcmesh.Base.{
  Bool, false, ◌==◌, ℕ, zero, suc, ◌+◌, ◌⊎◌, ◌%◌, ◌^◌, ◌<◌, ◌≡◌, refl, sym, ◌∙◌, ap, arith, true,
  List, [], ◌∷◌, ◌++◌, append_assoc, length, take, drop, All, All-take, take-append,
  take-append-drop, drop-append_left, drop-all, length-append, length-take, inl, inr, Bool-cases,
  ltb, ltb→lt, ltb→le,
}
use zcmesh.Wire.Frame.{Frame, IsFrame, frame_bytes}
use zcmesh.Wire.Pack.{verify_frame}
use zcmesh.Net.Api.{Endpoint, IsTcp, accepted}
use zcmesh.Batch.{frames_bytes}
use zcmesh.Batch.Validity.{IsValid}
use zcmesh.Batch.Contents.{pending, length-frame_bytes}
use zcmesh.Capture.{FileApi, Decoder, decode_tcp_stream}
use zcmesh.Capture.Accounting.{append_all, decode_tcp_stream-frames_bytes}
use zcmesh.Edge.{EdgeApi, taped, Link, relink, linked, linked-IsTcp}
use zcmesh.Edge.Loop.Worlds.{IsKept, run-Holds}
use zcmesh.Edge.Loop.{Reading, LoopState, Polled, run}
use zcmesh.Edge.Loop.Delivery.{IsReading, Numbered, over_tcp}
use zcmesh.Edge.Loop.Sampled.{Carries}
use zcmesh.Edge.Loop.Run.{run-Ran}
use zcmesh.Edge.Loop.Carried.{reading_at, raws_read, Feeds-reading_at, raws_of-in_order}
use zcmesh.Inspect.Reading.{raws_of}

by_loss : {P : Type 0} (drop_pct : ℕ) → (drop_pct ≡ 0 → P) → (0 < drop_pct) ⊎ P
by_loss zero in_order = inr (in_order refl)
by_loss (suc n) in_order = inl (omega arith)

-- The bytes of a first part of some frames are whole frames and less than one more.
abbrev Cut : List Frame → List ℕ → List ℕ → Type 0
Cut fs sent rest =
    (k : ℕ) × (tail : List ℕ) × (sent ≡ frames_bytes (take k fs) ++ tail)
    × (tail ++ rest ≡ frames_bytes (drop k fs))
    × (length tail < 24)

head_sent :
    (xs ys sent rest : List ℕ)
    → sent ++ rest ≡ xs ++ ys
    → length xs ≡ 24
    → 24 < suc (length sent)
    → (sent ≡ xs ++ drop 24 sent) × (drop 24 sent ++ rest ≡ ys)
head_sent xs ys sent rest e size long =
    let front : take 24 sent ≡ xs =
      sym
        (take-append 24 (take 24 sent) (drop 24 sent ++ rest) (omega (arith, length-take 24 sent)))
      ∙ ap (take 24) (sym (append_assoc (take 24 sent) (drop 24 sent) rest))
      ∙ ap (λ l. take 24 (l ++ rest)) (take-append-drop 24 sent)
      ∙ ap (take 24) e
      ∙ take-append 24 xs ys size in
    (
      sym (take-append-drop 24 sent) ∙ ap (λ l. l ++ drop 24 sent) front,
      sym (drop-append_left 24 sent rest (omega arith))
          ∙ ap (drop 24) e
          ∙ drop-append_left 24 xs ys (omega arith)
          ∙ ap (λ l. l ++ ys) (drop-all 24 xs (omega arith)),
    )

cut : (fs : List Frame) (sent rest : List ℕ) → sent ++ rest ≡ frames_bytes fs → Cut fs sent rest
cut [] sent rest e = (0, sent, refl, e, omega (arith, ap length e, length-append sent rest))
cut (f ∷ fs) sent rest e = elim (Bool-cases (ltb (length sent) 24)) [
  | inl few ↦ (0, sent, refl, e, ltb→lt (length sent) 24 few)
  | inr many ↦
      let (whole, behind) =
        head_sent (frame_bytes f) (frames_bytes fs) sent rest e (length-frame_bytes f)
          (omega (arith, ltb→le (length sent) 24 many)) in
      let (k, tail, front, back, short) = cut fs (drop 24 sent) rest behind in
      (
        suc k,
        tail,
        whole
            ∙ ap (◌++◌ (frame_bytes f)) front
            ∙ sym (append_assoc (frame_bytes f) (frames_bytes (take k fs)) tail),
        back,
        short,
      )
]

module _ {W V : Type 0} (api : EdgeApi W) (laws : IsTcp api.tcp) (file : FileApi V) (op : Endpoint)
    (node_id drop_pct : ℕ) where
  -- What a run has sent, as the receiver reads it from one stream.
  -- With one connection, its bytes are all that TCP has accepted.
  abbrev InStep : (W × Link) × List ℕ → Type 0
  InStep s = (1 < s.0.1.connections) ⊎ (s.0.1.stream ≡ s.1)

  relink-InStep :
      (ok : Bool) (w w' : W) (l : Link) (tape : List ℕ)
      → InStep ((w, l), tape)
      → InStep ((w', relink ok l), tape)
  relink-InStep false w w' l tape h = h
  relink-InStep true w w' l tape (inl more) = inl (omega (arith, more))
  relink-InStep true w w' l tape (inr same) = elim (Bool-cases (l.connections == 0)) [
    | inl first ↦ rw first (inr same)
    | inr again ↦ inl (ground (arith, again))
  ]

  linked-IsKept : IsKept (taped (linked api)) InStep
  linked-IsKept = record {
    send_keeps = λ bs s h. elim h [
      | inl more ↦ inl more
      | inr same ↦ inr (ap (λ l. l ++ accepted bs (api.tcp.send_nb bs s.0.0).0) same)
    ];
    connect_keeps = λ ep s h.
        relink-InStep (api.tcp.connect ep s.0.0).0 s.0.0 (api.tcp.connect ep s.0.0).1 s.0.1 s.1 h;
    clock_keeps = λ s h. h;
  }

  abbrev pub Collected :
      List Reading
      → LoopState (taped (linked api)) (over_tcp op node_id drop_pct)
      → LoopState (taped (linked api)) (over_tcp op node_id drop_pct)
      → Decoder V
      → Type 0
  Collected readings s s' d =
      (frames : List Frame) × (k : ℕ) × (tail : List ℕ) × (drops : ℕ) × (s'.edge.world.1
        ≡ frames_bytes (take k frames) ++ tail)
      × ((1 < s'.edge.world.0.1.connections)
          ⊎ (decode_tcp_stream file s'.edge.world.0.1.stream d
              ≡ (tail, append_all file (take k frames) d)))
      × (tail ++ pending s'.edge.batch ≡ frames_bytes (drop k frames))
      × Numbered node_id s.seq frames s'.seq
      × (s'.seq ≡ s.seq + length frames + drops)
      × (s'.dropped_count ≡ (s.dropped_count + drops) % 2 ^ 64)
      × All (Carries (reading_at readings s.seq)) frames
      × ((0 < drop_pct) ⊎ (raws_of frames ≡ raws_read (take (length frames) readings)))

  -- Over TCP with the client laws, from a valid empty batch with nothing sent yet, with a 16-bit
  -- node, readings that fit their types and numbers that stay below 2^32, a whole run of the edge
  -- sends the bytes of the first k of its frames and a cut-off tail; with at most one connection
  -- counted, a receiver decodes from its stream exactly these frames, in order, with nothing
  -- dropped or skipped and the tail left; the tail and what the batch still owes are the frames
  -- behind them; the numbers of the frames rise, each frame carries the reading of its number,
  -- each number used is that of a frame or of a sample dropped on purpose, and at a drop
  -- percentage of 0 the frames carry the first readings in order.
  pub run-Collected :
      (ps : List (Polled (taped (linked api)) (over_tcp op node_id drop_pct)))
      (readings : List Reading) (s : LoopState (taped (linked api)) (over_tcp op node_id drop_pct))
      (d : Decoder V)
      → IsValid s.edge.batch
      → s.edge.batch.count ≡ 0
      → s.edge.world.1 ≡ []
      → s.edge.world.0.1.stream ≡ []
      → node_id < 2 ^ 16
      → All (λ r. IsReading r.sensor r.raw) readings
      → s.seq + length readings < 2 ^ 32
      → s.dropped_count < 2 ^ 64
      → Collected readings s
          (run (taped (linked api)) (over_tcp op node_id drop_pct) ps readings s)
          d
  run-Collected ps readings s d v none_held fresh new_link node fit fits fits64 =
      let s' = run (taped (linked api)) (over_tcp op node_id drop_pct) ps readings s in
      let r =
        run-Ran (linked api) (linked-IsTcp api laws) op node_id drop_pct (reading_at readings s.seq)
          ps readings s v node fit fits fits64 (Feeds-reading_at s.seq readings) in
      let one_link =
        run-Holds (taped (linked api)) InStep linked-IsKept op node_id drop_pct ps readings s
          (inr (new_link ∙ sym fresh)) in
      let nothing : pending s.edge.batch ≡ [] =
        ap (λ n. drop s.edge.batch.send_offset (frames_bytes (take n s.edge.batch.frames)))
          none_held
        ∙ drop-all s.edge.batch.send_offset [] (omega arith) in
      let all : s'.edge.world.1 ++ pending s'.edge.batch ≡ frames_bytes r.frames =
        r.owes
        ∙ ap (λ l. (l ++ pending s.edge.batch) ++ frames_bytes r.frames) fresh
        ∙ ap (λ l. l ++ frames_bytes r.frames) nothing in
      let (k, tail, front, back, short) =
        cut r.frames s'.edge.world.1 (pending s'.edge.batch) all in
      (
        r.frames,
        k,
        tail,
        r.drops,
        front,
        elim one_link [
          | inl more ↦ inl more
          | inr same ↦ inr (
              ap (λ l. decode_tcp_stream file l d) (same ∙ front)
              ∙ decode_tcp_stream-frames_bytes file (take k r.frames) tail d
                  (All-take IsFrame k r.frames r.fit)
                  (All-take (λ f. verify_frame f ≡ true) k r.frames r.good) short)
        ],
        back,
        r.numbered,
        r.used,
        r.counted,
        r.carried,
        by_loss drop_pct (λ none_lost.
            raws_of-in_order node_id s.seq r.frames s'.seq readings r.numbered
              (omega (arith, r.used, r.no_loss none_lost)) r.carried),
      )
