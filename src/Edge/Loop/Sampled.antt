-- ===== src/Edge/Loop/Sampled.antt =====
-- A part of the run of core-engine/src/main.cpp over TCP: the frames that it puts behind what is owed, and
-- the samples that they carry.
use zcmesh.Base.{
  ℕ, ◌+◌, ◌%◌, ◌^◌, ◌<◌, ◌≡◌, ◌≢◌, Option, some, refl, sym, ◌∙◌, ap, arith, true, false, List, [],
  ◌∷◌, ◌++◌, append-nil, append_assoc, length, All, All-append, inl, inr, Bool-cases, length-append,
}
use zcmesh.Wire.Frame.{Frame, IsFrame, SensorSample, frame_bytes}
use zcmesh.Wire.Pack.{pack_frame_into, verify_frame}
use zcmesh.Wire.Pack.Fits.{pack_frame_into-IsFrame}
use zcmesh.Wire.Pack.Verify.{verify_frame-pack_frame_into}
use zcmesh.Net.Api.{Endpoint, IsTcp}
use zcmesh.Batch.{push, full, frames_bytes}
use zcmesh.Batch.Validity.{IsValid, push-IsValid}
use zcmesh.Batch.Contents.{pending, frames_bytes-append}
use zcmesh.Edge.{EdgeApi, tcp_mode, taped, should_drop}
use zcmesh.Edge.Loop.Flushing.{push-room}
use zcmesh.Edge.Loop.{Reading, LoopState, take_sample, first_flags}
use zcmesh.Edge.Loop.Delivery.{IsReading, Numbered, Numbered-append, over_tcp, after_push-Keeps}
use zcmesh.Edge.Loop.Owed.{pending-push, owed, Keeps}

-- The frame is that of the sample with its number.
abbrev pub Carries : (ℕ → Option Reading) → Frame → Type 0
Carries source f =
    (r : Reading) × (source f.seq ≡ some r) × (f.raw_value ≡ r.raw) × (f.sensor_type ≡ r.sensor)

kept_all : (seq drop_pct : ℕ) → drop_pct ≡ 0 → should_drop seq drop_pct ≢ true
unfolding should_drop
kept_all seq drop_pct none_lost = ground arith

module _ {W : Type 0} (api : EdgeApi W) (laws : IsTcp api.tcp) (op : Endpoint)
    (node_id drop_pct : ℕ) (source : ℕ → Option Reading) where
  -- What a part of the run from `s` to `s'` has done: `frames` are owed behind all that was owed, and
  -- each number used is that of a frame or of a sample dropped on purpose.
  pub record Ran (s s' : LoopState (taped api) (over_tcp op node_id drop_pct)) : Type 0 where
    pub frames : List Frame
    pub drops : ℕ
    pub owes : owed api laws s'.edge ≡ owed api laws s.edge ++ frames_bytes frames
    pub good : All (λ f. verify_frame f ≡ true) frames
    pub fit : All IsFrame frames
    pub numbered : Numbered node_id s.seq frames s'.seq
    pub used : s'.seq ≡ s.seq + length frames + drops
    pub counted : s'.dropped_count ≡ (s.dropped_count + drops) % 2 ^ 64
    pub carried : All (Carries source) frames
    pub no_loss : drop_pct ≡ 0 → drops ≡ 0
    pub valid : IsValid s'.edge.batch

  pub Ran-still :
      (s s' : LoopState (taped api) (over_tcp op node_id drop_pct))
      → s.dropped_count < 2 ^ 64
      → Keeps api laws s.edge s'.edge
      → s'.seq ≡ s.seq
      → s'.dropped_count ≡ s.dropped_count
      → Ran s s'
  Ran-still s s' fits (same, v) seq count = record {
    frames = [];
    drops = 0;
    owes = same ∙ sym (append-nil (owed api laws s.edge));
    good = tt;
    fit = tt;
    numbered = omega arith;
    used = omega arith;
    counted = omega arith;
    carried = tt;
    no_loss = λ e. refl;
    valid = v;
  }

  pub Ran-Ran :
      (s1 s2 s3 : LoopState (taped api) (over_tcp op node_id drop_pct))
      → Ran s1 s2
      → Ran s2 s3
      → Ran s1 s3
  Ran-Ran s1 s2 s3 p q = record {
    frames = p.frames ++ q.frames;
    drops = p.drops + q.drops;
    owes =
        q.owes
        ∙ ap (λ l. l ++ frames_bytes q.frames) p.owes
        ∙ append_assoc (owed api laws s1.edge) (frames_bytes p.frames) (frames_bytes q.frames)
        ∙ ap (◌++◌ (owed api laws s1.edge)) (sym (frames_bytes-append p.frames q.frames));
    good = All-append (λ f. verify_frame f ≡ true) p.frames q.frames p.good q.good;
    fit = All-append IsFrame p.frames q.frames p.fit q.fit;
    numbered = Numbered-append node_id s1.seq p.frames q.frames s2.seq s3.seq p.numbered q.numbered;
    used = omega (arith, p.used, q.used, length-append p.frames q.frames);
    counted = omega (arith, p.counted, q.counted);
    carried = All-append (Carries source) p.frames q.frames p.carried q.carried;
    no_loss = λ e. omega (arith, p.no_loss e, q.no_loss e);
    valid = q.valid;
  }

  pub take_sample-Ran :
      (sensor raw : ℕ) (s : LoopState (taped api) (over_tcp op node_id drop_pct))
      → IsValid s.edge.batch
      → full s.edge.batch ≡ false
      → node_id < 2 ^ 16
      → IsReading sensor raw
      → s.seq + 1 < 2 ^ 32
      → s.dropped_count < 2 ^ 64
      → source s.seq ≡ some (record { sensor = sensor; raw = raw })
      → Ran s (take_sample (taped api) (over_tcp op node_id drop_pct) sensor raw s).1
  unfolding take_sample
  take_sample-Ran sensor raw s v room node reading fits fits64 read =
      let (now, w) = (taped api).monotonic_ns s.edge.world in
      let sample : SensorSample = record {
        seq = s.seq;
        timestamp_ns = now;
        node_id = node_id;
        sensor_type = sensor;
        flags = first_flags tcp_mode;
        reserved = 0;
        raw_value = raw;
      } in
      let b = (push s.edge.batch sample).1 in
      let pushed : LoopState (taped api) (over_tcp op node_id drop_pct) = record s {
        edge = record (s.edge) { batch = b; world = w };
        seq = (s.seq + 1) % 2 ^ 32;
      } in
      elim (Bool-cases (should_drop s.seq drop_pct)) [
        | inl lost ↦ rw lost (record {
          frames = [];
          drops = 1;
          owes = sym (append-nil (owed api laws s.edge));
          good = tt;
          fit = tt;
          numbered = omega arith;
          used = omega arith;
          counted = refl;
          carried = tt;
          no_loss = λ e. absurd (kept_all s.seq drop_pct e lost);
          valid = v;
        })
        | inr kept ↦
            rw (kept, push-room s.edge.batch sample room)
              (let ((same, v'), seq, count) =
                  after_push-Keeps api laws op node_id drop_pct pushed
                    (push-IsValid s.edge.batch sample v) in
                let f = pack_frame_into sample in
                let packed = verify_frame-pack_frame_into sample in
                record {
                  frames = f ∷ [];
                  drops = 0;
                  owes =
                      same
                      ∙ ap (◌++◌ w.1) (pending-push s.edge.batch sample v room)
                      ∙ sym (append_assoc w.1 (pending s.edge.batch) (frame_bytes f))
                      ∙ ap (◌++◌ (owed api laws s.edge)) (sym (append-nil (frame_bytes f)));
                  good = (packed.0, tt);
                  fit = (
                    pack_frame_into-IsFrame sample (omega arith) node reading.0 (omega arith)
                        (omega arith) reading.1,
                    tt,
                  );
                  numbered = (omega (arith, packed.1), packed.3, omega (arith, packed.1, seq));
                  used = omega (arith, seq);
                  counted = omega (arith, count);
                  carried = ((_, ap source packed.1 ∙ read, packed.7, packed.4), tt);
                  no_loss = λ e. refl;
                  valid = v';
                })
      ]

  -- A sample takes one number, whatever becomes of it.
  pub take_sample-seq :
      (sensor raw : ℕ) (s : LoopState (taped api) (over_tcp op node_id drop_pct))
      → IsValid s.edge.batch
      → full s.edge.batch ≡ false
      → (take_sample (taped api) (over_tcp op node_id drop_pct) sensor raw s).1.seq
        ≡ (s.seq + 1) % 2 ^ 32
  unfolding take_sample
  take_sample-seq sensor raw s v room =
      let (now, w) = (taped api).monotonic_ns s.edge.world in
      let sample : SensorSample = record {
        seq = s.seq;
        timestamp_ns = now;
        node_id = node_id;
        sensor_type = sensor;
        flags = first_flags tcp_mode;
        reserved = 0;
        raw_value = raw;
      } in
      elim (Bool-cases (should_drop s.seq drop_pct)) [
        | inl lost ↦ rw lost refl
        | inr kept ↦
            rw (kept, push-room s.edge.batch sample room)
              (after_push-Keeps api laws op node_id drop_pct _
                (push-IsValid s.edge.batch sample v)).1
      ]
