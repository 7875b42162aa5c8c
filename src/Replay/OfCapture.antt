-- ===== src/Replay/OfCapture.antt =====
-- core-engine/src/replay.cpp on a file of core-engine/src/capture.cpp, and a receiver behind it.
use zcmesh.Base.{
  ℕ, suc, ◌*◌, ◌%◌, ◌^◌, ◌≤◌, ◌<◌, ◌≡◌, refl, sym, ◌∙◌, ap, ap₂, arith, true, Bool-cases, inl, inr,
  List, [], ◌∷◌, ◌++◌, some, append-nil, All, length, take, take-append, drop-append_left, drop-all,
  ltb, ◌==◌, ==_iff,
}
use zcmesh.Wire.Frame.{Frame, IsFrame, frame_bytes, of_bytes}
use zcmesh.Batch.{frames_bytes}
use zcmesh.Batch.Contents.{length-frame_bytes, length-frames_bytes}
use zcmesh.Wire.Layout.{of_bytes-frame_bytes}
use zcmesh.Wire.Pack.{verify_frame}
use zcmesh.Net.Api.{Endpoint, TcpApi, UdpApi, IsTcp, recorded}
use zcmesh.Capture.{FileApi, Decoder, decode_tcp_stream}
use zcmesh.Capture.Accounting.{IsGood, append_all, decode_tcp_stream-frames_bytes}
use zcmesh.Capture.Select.Written.{Captured}
use zcmesh.Zcm.{File, header_for}
use zcmesh.Inspect.OfCapture.{open_capture-Captured}
use zcmesh.Replay.{
  Counts, load, load_opened, read_blob, blob_frames, replay_all, replay_loaded, replay,
}
use zcmesh.Replay.Stream.{joined, replay_all-Streamed}
use zcmesh.Replay.Success.{Accepts, replay_all-whole}

abbrev pub frame_list : List Frame → List (List ℕ)
frame_list [] = []
frame_list (f ∷ fs) = frame_bytes f ∷ frame_list fs

blob_frames-frames_bytes :
    (fs : List Frame) → blob_frames (length fs) (frames_bytes fs) ≡ frame_list fs
blob_frames-frames_bytes [] = refl
blob_frames-frames_bytes (f ∷ fs) =
    let size = length-frame_bytes f in
    ap₂ (◌∷◌) (take-append 24 (frame_bytes f) (frames_bytes fs) size) (
      ap (blob_frames (length fs)) (
        drop-append_left 24 (frame_bytes f) (frames_bytes fs) (omega arith)
        ∙ ap (λ l. l ++ frames_bytes fs) (drop-all 24 (frame_bytes f) (omega arith)))
      ∙ blob_frames-frames_bytes fs)

joined-frame_list : (fs : List Frame) → joined (frame_list fs) ≡ frames_bytes fs
joined-frame_list [] = refl
joined-frame_list (f ∷ fs) = ap (◌++◌ (frame_bytes f)) (joined-frame_list fs)

length-frame_list : (fs : List Frame) → length (frame_list fs) ≡ length fs
length-frame_list [] = refl
length-frame_list (f ∷ fs) = ap suc (length-frame_list fs)

frame_list-sizes : (fs : List Frame) → All (λ f. length f ≡ 24) (frame_list fs)
frame_list-sizes [] = tt
frame_list-sizes (f ∷ fs) = (length-frame_bytes f, frame_list-sizes fs)

load_opened-frames :
    (fs : List Frame) (part : List ℕ)
    → 24 * length fs < 2 ^ 64
    → load_opened (some (header_for (length fs), frames_bytes fs ++ part))
      ≡ some (length fs, frames_bytes fs)
load_opened-frames [] part few = refl
load_opened-frames (f ∷ fs) part few =
    let bytes = frames_bytes (f ∷ fs) in
    let want : length (f ∷ fs) * 24 % 2 ^ 64 ≡ length bytes =
      omega (arith, length-frames_bytes (f ∷ fs)) in
    let blob : take (length bytes) (bytes ++ part) ≡ bytes =
      take-append (length bytes) bytes part refl in
    let equal : (length bytes == length bytes) ≡ true = (==_iff _ _).1 refl in
    let positive : ltb 0 (length (f ∷ fs)) ≡ true = ground arith in
    ap (λ n. read_blob (length (f ∷ fs)) n (bytes ++ part)) want ∙ rw (blob, equal, positive) refl

frame_list-good :
    (fs : List Frame)
    → All IsFrame fs
    → All IsGood fs
    → All (λ f. verify_frame (of_bytes f) ≡ true) (frame_list fs)
frame_list-good [] fit good = tt
frame_list-good (f ∷ fs) fit good = (
  ap verify_frame (ap of_bytes (sym (append-nil (frame_bytes f))) ∙ of_bytes-frame_bytes f [] fit.0)
      ∙ good.0,
  frame_list-good fs fit.1 good.1,
)

-- A captured file loads as its frames.
pub load-Captured :
    (limit code : ℕ) (d : Decoder File) (c : Captured limit code d)
    → 24 * length c.frames < 2 ^ 64
    → load d.out.text ≡ some (length c.frames, frames_bytes c.frames)
load-Captured limit code d c few =
    ap load_opened (open_capture-Captured limit code d c (omega arith))
    ∙ load_opened-frames c.frames c.part few

module _ {W : Type 0} (tcp : TcpApi W) (laws : IsTcp tcp) (udp : UdpApi (W × List ℕ))
    (ep : Endpoint) (fuel : ℕ) where
  replay_loaded-Streamed :
      (fs : List Frame) (w : W) (stream : List ℕ)
      → length fs < 2 ^ 64
      → (replay_loaded
          (recorded tcp)
          udp
          ep
          fuel
          true
          (some (length fs, frames_bytes fs))
          (w, stream)).0
        ≡ 0
      → let (code, c, s) =
          replay_loaded
            (recorded tcp)
            udp
            ep
            fuel
            true
            (some (length fs, frames_bytes fs))
            (w, stream) in
        (s.1 ≡ stream ++ frames_bytes fs) × (c.sent ≡ length fs)
  unfolding replay_loaded
  replay_loaded-Streamed fs w stream few passes =
      let (on, w1) = tcp.connect ep w in
      let none_yet : Counts = record { sent = 0; fail = 0 } in
      let same = blob_frames-frames_bytes fs in
      let (c, s) =
        replay_all (recorded tcp) udp ep fuel true (blob_frames (length fs) (frames_bytes fs))
          none_yet (w1, stream) in
      let streamed =
        replay_all-Streamed tcp laws udp ep fuel (frame_list fs) none_yet w1 stream
          (frame_list-sizes fs) (omega (arith, length-frame_list fs)) in
      elim (Bool-cases on) [
        | inr off ↦ absurd (ground (arith, off, passes))
        | inl up ↦
            let no_fail : c.fail ≡ 0 = ground (arith, up, passes) in
            let (tape, sent, good) = streamed.1 (
              ap (λ l. (replay_all (recorded tcp) udp ep fuel true l none_yet (w1, stream)).0.fail)
                (sym same)
              ∙ no_fail) in
            rw (up, same, replay_loaded)
              (
                tape ∙ ap (◌++◌ stream) (joined-frame_list fs),
                omega (arith, sent, length-frame_list fs),
              )
      ]

  -- Of a captured file with fewer than 2^64 bytes of frames, over TCP with the client laws, a
  -- replay that exits with 0 counts every frame as sent, and the decoder gets from its stream
  -- exactly the frames of the file, in order, with nothing left.
  pub replay-Captured :
      {V : Type 0} (limit code : ℕ) (d : Decoder File) (c : Captured limit code d) (w : W)
      (file : FileApi V) (d0 : Decoder V)
      → 24 * length c.frames < 2 ^ 64
      → (replay (recorded tcp) udp ep fuel true d.out.text (w, [])).0 ≡ 0
      → let (code', counts, s) = replay (recorded tcp) udp ep fuel true d.out.text (w, []) in
        (counts.sent ≡ length c.frames)
        × (decode_tcp_stream file s.1 d0 ≡ ([], append_all file c.frames d0))
  replay-Captured limit code d c w file d0 few passes =
      let same = load-Captured limit code d c few in
      let done = replay_loaded-Streamed c.frames w [] (omega arith) (
        ap (λ o. (replay_loaded (recorded tcp) udp ep fuel true o (w, [])).0) (sym same)
        ∙ passes) in
      rw same (
        done.1,
        ap (λ l. decode_tcp_stream file l d0) (done.0 ∙ sym (append-nil (frames_bytes c.frames)))
            ∙ decode_tcp_stream-frames_bytes file c.frames [] d0 c.fit c.good (omega arith),
      )

  -- Of a captured file with fewer than 2^64 bytes of frames, over a TCP client with the client
  -- laws that connects and takes at least a byte of each send, a replay exits with 0, with 24
  -- rounds for each frame.
  pub replay-Accepts :
      (up : W → Type 0) (limit code : ℕ) (d : Decoder File) (c : Captured limit code d) (w : W)
      → 24 * length c.frames < 2 ^ 64
      → 24 ≤ fuel
      → (tcp.connect ep w).0 ≡ true
      → Accepts tcp laws udp ep up
      → up (tcp.connect ep w).1
      → (replay (recorded tcp) udp ep fuel true d.out.text (w, [])).0 ≡ 0
  unfolding replay_loaded
  replay-Accepts up limit code d c w few enough on accepts ready =
      let none_yet : Counts = record { sent = 0; fail = 0 } in
      let no_fail =
        replay_all-whole tcp laws udp ep up fuel (frame_list c.frames) none_yet (tcp.connect ep w).1
          [] accepts ready enough (frame_list-sizes c.frames)
          (frame_list-good c.frames c.fit c.good) in
      rw (load-Captured limit code d c few, blob_frames-frames_bytes c.frames, on, no_fail) refl
