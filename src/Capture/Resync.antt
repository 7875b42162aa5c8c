-- ===== src/Capture/Resync.antt =====
-- An independent description of the decoding of a stream in core-engine/src/capture.cpp: one rule for
-- each thing that can be done with the front of the bytes.
use zcmesh.Base.{ℕ, ◌≤◌, ◌<◌, ◌≡◌, true, false, List, length, drop, inc64, add64}
use zcmesh.Wire.Frame.{of_bytes}
use zcmesh.Wire.Pack.{verify_frame}
use zcmesh.Capture.{FileApi, Decoder, at_magic, append_frame}

-- What is counted for `n` skipped bytes.
abbrev pub skipped : {W : Type 0} → ℕ → Decoder W → Decoder W
skipped n d = record d { resync = add64 d.resync n }

-- Decoding the bytes `bs` with the counters `d` ends with the bytes `rest` and the counters `d'`.
pub data Decodes {W : Type 0} (file : FileApi W) (rest : List ℕ) (d' : Decoder W)
    : List ℕ → Decoder W → Type 0 where
  -- fewer bytes than a frame wait for more
  stop : length rest < 24 → Decodes file rest d' rest d'
  -- no magic: a byte is skipped
  skip :
      {bs : List ℕ} {d : Decoder W}
      → 24 ≤ length bs
      → at_magic bs ≡ false
      → Decodes file rest d' (drop 1 bs) (skipped 1 d)
      → Decodes file rest d' bs d
  -- a magic, but no frame: a drop, and a byte is skipped
  reject :
      {bs : List ℕ} {d : Decoder W}
      → 24 ≤ length bs
      → at_magic bs ≡ true
      → verify_frame (of_bytes bs) ≡ false
      → Decodes file rest d' (drop 1 bs) (record (skipped 1 d) { drop = inc64 d.drop })
      → Decodes file rest d' bs d
  -- a frame, which is written
  accept :
      {bs : List ℕ} {d : Decoder W}
      → 24 ≤ length bs
      → at_magic bs ≡ true
      → verify_frame (of_bytes bs) ≡ true
      → Decodes file rest d' (drop 24 bs) (append_frame file (of_bytes bs) d)
      → Decodes file rest d' bs d
