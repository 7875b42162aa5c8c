-- ===== src/Batch/Contents.antt =====
-- What the batch holds after each operation on the slab, and which of its bytes are pending.
use zcmesh.Base.{
  ℕ, zero, suc, ◌-◌, ◌*◌, ◌/◌, ◌≡◌, refl, sym, ◌∙◌, ap, arith, true, false, List, [], ◌∷◌, ◌++◌,
  length, take, drop, none, some, append_assoc, length-append, length-take, length-drop,
  take-suc-set, take-append, drop-take, drop-all, take-nil, take-append_past, ltb, if◌then◌else◌,
  ◌⊎◌,
}
use native.Mathlib.Numerals.{add-one}
use zcmesh.Wire.Frame.{Frame, SensorSample, frame_bytes}
use zcmesh.Wire.Pack.{pack_frame_into}
use zcmesh.Batch.{
  FrameBatch, contents, frames_bytes, push, clear, full, unsent_count, unsent_frames,
  discard_fully_sent,
}
use zcmesh.Batch.Validity.{IsValid}

-- Of a valid batch, push refuses exactly when it is full and then changes nothing; otherwise the
-- packed sample goes behind the frames held and the send cursor stays.
pub push_lem :
    (b : FrameBatch) (s : SensorSample)
    → IsValid b
    → let (slot, b') = push b s in
      ((full b ≡ true) × (slot ≡ none) × (b' ≡ b))
      ⊎ ((full b ≡ false)
          × (slot ≡ some (pack_frame_into s))
          × (contents b' ≡ contents b ++ pack_frame_into s ∷ [])
          × (b'.send_offset ≡ b.send_offset))
unfolding push
push_lem b s v = ground (arith, take-suc-set b.count b.frames (pack_frame_into s), add-one b.count)

pub length-frame_bytes : (f : Frame) → length (frame_bytes f) ≡ 24
unfolding frame_bytes
length-frame_bytes f = refl

pub length-frames_bytes : (fs : List Frame) → length (frames_bytes fs) ≡ 24 * length fs
length-frames_bytes [] = refl
length-frames_bytes (f ∷ fs) = omega (
  arith,
  length-append (frame_bytes f) (frames_bytes fs),
  length-frame_bytes f,
  length-frames_bytes fs,
)

pub frames_bytes-append :
    (fs gs : List Frame) → frames_bytes (fs ++ gs) ≡ frames_bytes fs ++ frames_bytes gs
frames_bytes-append [] gs = refl
frames_bytes-append (f ∷ fs) gs =
    ap (◌++◌ (frame_bytes f)) (frames_bytes-append fs gs)
    ∙ sym (append_assoc (frame_bytes f) (frames_bytes fs) (frames_bytes gs))

-- The bytes that TCP has not yet taken.
abbrev pub pending : FrameBatch → List ℕ
pending b = drop b.send_offset (frames_bytes (contents b))

-- The frames of which TCP has not yet taken every byte.
abbrev pub unsent : FrameBatch → List Frame
unsent b = drop (b.send_offset / 24) (contents b)

-- Of a valid batch, unsent_frames and unsent_count give exactly the frames not fully sent.
pub unsent_frames_lem :
    (b : FrameBatch)
    → IsValid b
    → (take (unsent_count b) (unsent_frames b) ≡ unsent b) × (unsent_count b ≡ length (unsent b))
unfolding unsent_count unsent_frames
unsent_frames_lem b v =
    let k : ℕ = b.send_offset / 24 in
    let cut = drop-take k b.count b.frames in
    let sizes = length-drop k (take b.count b.frames) in
    (ground (arith, cut), ground (arith, sizes, length-take b.count b.frames))

-- Of a valid batch, discard_fully_sent leaves exactly the frames not fully sent; the offset
-- becomes 0, but stays where less than a frame has been sent.
pub discard_fully_sent_lem :
    (b : FrameBatch)
    → IsValid b
    → let b' = discard_fully_sent b in
      (contents b' ≡ unsent b)
      × (b'.send_offset ≡ (if ltb b.send_offset 24 then b.send_offset else 0))
unfolding discard_fully_sent clear
discard_fully_sent_lem b v = ground (
  arith,
  drop-take k b.count b.frames,
  drop-all k (contents b),
  length-take b.count b.frames,
  length-take (b.count - k) (drop k b.frames),
  length-drop k b.frames,
  take-append (b.count - k) (take (b.count - k) (drop k b.frames)) (drop (b.count - k) b.frames),
)
  where
    k : ℕ
    k = b.send_offset / 24

-- The bytes of the first `n` frames of a slab.
frames_bytes-take :
    (n : ℕ) (fs : List Frame) → frames_bytes (take n fs) ≡ take (n * 24) (frames_bytes fs)
frames_bytes-take zero fs = refl
frames_bytes-take (suc n) [] = sym (take-nil (suc n * 24))
frames_bytes-take (suc n) (f ∷ fs) =
    ap (◌++◌ (frame_bytes f)) (frames_bytes-take n fs)
    ∙ sym (take-append_past (n * 24) (frame_bytes f) (frames_bytes fs))
    ∙ ap (λ k. take k (frame_bytes f ++ frames_bytes fs)) (omega (arith, length-frame_bytes f))

-- The pending bytes in the slab: from the send cursor to the end of the frames held.
pub pending-slab :
    (b : FrameBatch)
    → pending b ≡ take (b.count * 24 - b.send_offset) (drop b.send_offset (frames_bytes b.frames))
pending-slab b =
    ap (drop b.send_offset) (frames_bytes-take b.count b.frames)
    ∙ drop-take b.send_offset (b.count * 24) (frames_bytes b.frames)
