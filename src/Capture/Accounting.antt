-- ===== src/Capture/Accounting.antt =====
-- The file that core-engine/src/capture.cpp writes, and the bytes of the stream behind it.
use zcmesh.Base.{
  ℕ, suc, ◌+◌, ◌*◌, ◌%◌, ◌^◌, ◌≤◌, ◌<◌, ◌≡◌, refl, sym, ◌∙◌, ap, ap₂, arith, true, List, [], ◌∷◌,
  ◌++◌, append_assoc, append-nil, All, length, drop, drop-append_left, length-append, length-drop,
  drop-all, inl, inr, Bool-cases, ◌==◌,
}
use zcmesh.Wire.Frame.{Frame, of_bytes, frame_bytes, IsFrame, wire_magic}
use zcmesh.Wire.Layout.{of_bytes-frame_bytes}
use zcmesh.Wire.Pack.{verify_frame}
use zcmesh.Batch.{frames_bytes}
use zcmesh.Capture.{FileApi, Decoder, at_magic, append_frame, decode_tcp_stream}
use zcmesh.Capture.Resync.{Decodes}
use zcmesh.Capture.Resync.Decodes.{stop, skip, reject, accept}
use zcmesh.Capture.Stream.{decode_tcp_stream-Decodes}
use zcmesh.Capture.Chunks.{Decodes-unique, over, over_state}

-- The same file, with what it is asked to write recorded.
abbrev pub taped_file : {W : Type 0} → FileApi W → FileApi (W × List ℕ)
taped_file file = record {
  fwrite = λ bytes s. let (n, w) = file.fwrite bytes s.0 in (n, (w, s.1 ++ bytes));
}

abbrev pub IsGood : Frame → Type 0
IsGood f = verify_frame f ≡ true

length-frame_bytes : (f : Frame) → length (frame_bytes f) ≡ 24
unfolding frame_bytes
length-frame_bytes f = refl

at_magic-frame_bytes :
    (f : Frame) (rest : List ℕ) → IsGood f → at_magic (frame_bytes f ++ rest) ≡ true
unfolding verify_frame frame_bytes
at_magic-frame_bytes f rest good = elim (Bool-cases (f.magic == wire_magic)) [
  | inl magic ↦ ground (arith, magic)
  | inr other ↦ absurd (ground (arith, other, good))
]

-- How the bytes are made of skipped bytes, of frames of 24 bytes each, in order, and of `rest` behind them.
pub data Parted (rest : List ℕ) : List ℕ → List Frame → ℕ → Type 0 where
  left : Parted rest rest [] 0
  skipped :
      {bs : List ℕ} {fs : List Frame} {n : ℕ}
      → 1 ≤ length bs
      → Parted rest (drop 1 bs) fs n
      → Parted rest bs fs (suc n)
  framed :
      {bs : List ℕ} {fs : List Frame} {n : ℕ}
      → 24 ≤ length bs
      → Parted rest (drop 24 bs) fs n
      → Parted rest bs (of_bytes bs ∷ fs) n

module _ {W : Type 0} (file : FileApi W) where
  -- Frames that verify were written, in their order, each read where it stands in the bytes; every
  -- other byte was skipped or is left, and the skipped ones are counted.
  abbrev pub Accounted : List ℕ → Decoder (W × List ℕ) → List ℕ → Decoder (W × List ℕ) → Type 0
  Accounted bs d rest d' =
      (frames : List Frame) × (lost : ℕ) × All IsGood frames
      × Parted rest bs frames lost
      × (d'.out.1 ≡ d.out.1 ++ frames_bytes frames)
      × (length bs ≡ 24 * length frames + lost + length rest)
      × (d'.resync ≡ (d.resync + lost) % 2 ^ 64)
      × (length rest < 24)

  append_frame-tape :
      (f : Frame) (d : Decoder (W × List ℕ))
      → ((append_frame (taped_file file) f d).out.1 ≡ d.out.1 ++ frame_bytes f)
        × ((append_frame (taped_file file) f d).resync ≡ d.resync)
  unfolding append_frame
  append_frame-tape f d = elim (Bool-cases ((file.fwrite (frame_bytes f) d.out.0).0 == 24)) [
    | inl whole ↦ rw whole (refl, refl)
    | inr part ↦ rw part (refl, refl)
  ]

  Decodes-Accounted :
      {rest : List ℕ} {d' : Decoder (W × List ℕ)} {bs : List ℕ} {d : Decoder (W × List ℕ)}
      → d.resync < 2 ^ 64
      → Decodes (taped_file file) rest d' bs d
      → Accounted bs d rest d'
  Decodes-Accounted fits (stop few) =
      ([], 0, tt, left, sym (append-nil _), omega arith, omega arith, few)
  Decodes-Accounted {bs = bs} fits (skip h m t) =
      let (frames, lost, good, parts, tape, size, count, few) = Decodes-Accounted (omega arith) t in
      (
        frames,
        suc lost,
        good,
        skipped (omega arith) parts,
        tape,
        omega (arith, length-drop 1 bs),
        omega arith,
        few,
      )
  Decodes-Accounted {bs = bs} fits (reject h m v t) =
      let (frames, lost, good, parts, tape, size, count, few) = Decodes-Accounted (omega arith) t in
      (
        frames,
        suc lost,
        good,
        skipped (omega arith) parts,
        tape,
        omega (arith, length-drop 1 bs),
        omega arith,
        few,
      )
  Decodes-Accounted {bs = bs} {d = d} fits (accept h m v t) =
      let f = of_bytes bs in
      let (tape1, same) = append_frame-tape f d in
      let (frames, lost, good, parts, tape, size, count, few) = Decodes-Accounted (omega arith) t in
      (
        f ∷ frames,
        lost,
        (v, good),
        framed h parts,
        tape
            ∙ ap (λ l. l ++ frames_bytes frames) tape1
            ∙ append_assoc d.out.1 (frame_bytes f) (frames_bytes frames),
        omega (arith, length-drop 24 bs),
        omega arith,
        few,
      )

  -- Of every stream and a resync counter below 2^64, the stream is made of frames, of skipped
  -- bytes between them, and of at most 23 bytes behind them, which are left; the decoder writes
  -- exactly the bytes of these frames, in order, each of them verifies, and resync counts the
  -- skipped bytes.
  pub decode_tcp_stream-Accounted :
      (stream : List ℕ) (d : Decoder (W × List ℕ))
      → d.resync < 2 ^ 64
      → let (rest, d') = decode_tcp_stream (taped_file file) stream d in Accounted stream d rest d'
  decode_tcp_stream-Accounted stream d fits =
      Decodes-Accounted fits (decode_tcp_stream-Decodes (taped_file file) stream d)

  abbrev pub append_all : List Frame → Decoder W → Decoder W
  append_all [] d = d
  append_all (f ∷ fs) d = append_all fs (append_frame file f d)

  clean-Decodes :
      (frames : List Frame) (tail : List ℕ) (d : Decoder W)
      → All IsFrame frames
      → All IsGood frames
      → length tail < 24
      → Decodes file tail (append_all frames d) (frames_bytes frames ++ tail) d
  clean-Decodes [] tail d fits good few = stop few
  clean-Decodes (f ∷ fs) tail d fits good few =
      let rest = frames_bytes fs ++ tail in
      let same = of_bytes-frame_bytes f rest fits.0 in
      let size : length (frame_bytes f) ≡ 24 = length-frame_bytes f in
      let long : 24 ≤ length (frame_bytes f ++ rest) =
        omega (arith, length-append (frame_bytes f) rest) in
      let next : drop 24 (frame_bytes f ++ rest) ≡ rest =
        drop-append_left 24 (frame_bytes f) rest (omega arith)
        ∙ ap (λ l. l ++ rest) (drop-all 24 (frame_bytes f) (omega arith)) in
      over file (sym (append_assoc (frame_bytes f) (frames_bytes fs) tail)) (
        accept long (at_magic-frame_bytes f rest good.0) (ap verify_frame same ∙ good.0) (
          over file (sym next) (
            over_state file (ap (λ g. append_frame file g d) (sym same))
              (clean-Decodes fs tail (append_frame file f d) fits.1 good.1 few))))

  -- Of the bytes of frames that fit their types and verify, followed by fewer than 24 bytes, the
  -- decoder writes each frame in order, leaves the bytes after them and drops or skips nothing.
  pub decode_tcp_stream-frames_bytes :
      (frames : List Frame) (tail : List ℕ) (d : Decoder W)
      → All IsFrame frames
      → All IsGood frames
      → length tail < 24
      → decode_tcp_stream file (frames_bytes frames ++ tail) d ≡ (tail, append_all frames d)
  decode_tcp_stream-frames_bytes frames tail d fits good few =
      let (e1, e2) =
        Decodes-unique file (decode_tcp_stream-Decodes file (frames_bytes frames ++ tail) d)
          (clean-Decodes frames tail d fits good few) in
      ap₂ (λ x y. (x, y)) e1 e2
