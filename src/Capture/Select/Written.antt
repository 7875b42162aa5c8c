-- ===== src/Capture/Select/Written.antt =====
-- The file that a session of core-engine/src/capture.cpp leaves on a disk with limited room.
use zcmesh.Base.{
  ℕ, ◌+◌, ◌-◌, ◌%◌, ◌^◌, ◌≤◌, ◌<◌, ◌≡◌, ◌⊎◌, inl, inr, refl, sym, ◌∙◌, ap, arith, List, [], ◌∷◌,
  ◌++◌, append-nil, append_assoc, All, All-append, length, take, take-all, drop, drop-append_left,
  drop-all, length-append, length-take, length-drop, Bool-cases, ◌==◌, ltb, if◌then◌else◌, inc64,
  ==_iff,
}
use zcmesh.Wire.Frame.{Frame, IsFrame, frame_bytes}
use zcmesh.Batch.{frames_bytes}
use zcmesh.Batch.Contents.{frames_bytes-append, length-frame_bytes}
use zcmesh.Zcm.{File, new_file, write, rewrite_header, disk_file, header_bytes, header_for}
use zcmesh.Zcm.Opening.{length-header_bytes}
use zcmesh.Zcm.Writing.{AtEnd, write-AtEnd, rewrite_header-text}
use zcmesh.Capture.{Decoder, append_frame}
use zcmesh.Capture.Accounting.{IsGood}
use zcmesh.Capture.Select.{Turn, select_loop, new_session, capture}
use zcmesh.Capture.Select.Kept.{TurnBytes, KeptByFrame, select_loop-Kept}

-- Behind 16 bytes of header the file holds the frames counted, and where the disk is full, perhaps a
-- part of one more.
pub record Written (limit ok : ℕ) (f : File) : Type 0 where
  pub frames : List Frame
  pub part : List ℕ
  pub body : drop 16 f.text ≡ frames_bytes frames ++ part
  pub long : 16 ≤ length f.text
  pub ends : AtEnd f
  pub disk : f.limit ≡ limit
  pub counted : ok ≡ length frames % 2 ^ 64
  pub good : All IsGood frames
  pub fit : All IsFrame frames
  pub whole : (part ≡ []) ⊎ (length f.text ≡ limit)
  pub short : length part < 24

-- A frame that fits is one more of the frames.
grows_by_frame :
    (limit : ℕ) (g : Frame) (ok : ℕ) (f : File)
    → IsGood g
    → IsFrame g
    → Written limit ok f
    → (write (frame_bytes g) f).0 ≡ 24
    → Written limit (inc64 ok) (write (frame_bytes g) f).1
grows_by_frame limit g ok f good fit h all =
    let (n, f') = write (frame_bytes g) f in
    let (size, text, same, ends) = write-AtEnd (frame_bytes g) f h.ends in
    let room : 24 + length f.text ≤ limit =
      omega (arith, size, all, h.disk, h.ends.room, length-frame_bytes g) in
    let nothing : h.part ≡ [] = elim h.whole [ inl e ↦ e | inr at_limit ↦ absurd (omega arith) ] in
    let added : take n (frame_bytes g) ≡ frame_bytes g =
      take-all n (frame_bytes g) (omega (arith, length-frame_bytes g)) in
    record {
      frames = h.frames ++ g ∷ [];
      part = [];
      body =
          ap (drop 16) (text ∙ ap (◌++◌ f.text) added)
          ∙ drop-append_left 16 f.text (frame_bytes g) h.long
          ∙ ap (λ l. l ++ frame_bytes g)
              (h.body
                ∙ ap (◌++◌ (frames_bytes h.frames)) nothing
                ∙ append-nil (frames_bytes h.frames))
          ∙ ap (◌++◌ (frames_bytes h.frames)) (sym (append-nil (frame_bytes g)))
          ∙ sym (frames_bytes-append h.frames (g ∷ []))
          ∙ sym (append-nil (frames_bytes (h.frames ++ g ∷ [])));
      long = omega (arith, ap length text, length-append f.text (take n (frame_bytes g)), h.long);
      ends = ends;
      disk = same ∙ h.disk;
      counted = omega (arith, h.counted, length-append h.frames (g ∷ []));
      good = All-append IsGood h.frames (g ∷ []) h.good (good, tt);
      fit = All-append IsFrame h.frames (g ∷ []) h.fit (fit, tt);
      whole = inl refl;
      short = omega arith;
    }

-- A frame that does not fit leaves the disk full.
keeps_frames :
    (limit : ℕ) (g : Frame) (ok : ℕ) (f : File)
    → Written limit ok f
    → (write (frame_bytes g) f).0 < 24
    → Written limit ok (write (frame_bytes g) f).1
keeps_frames limit g ok f h few =
    let (n, f') = write (frame_bytes g) f in
    let (size, text, same, ends) = write-AtEnd (frame_bytes g) f h.ends in
    let left : n ≡ limit - length f.text = omega (arith, size, few, h.disk, length-frame_bytes g) in
    let cut : length (take n (frame_bytes g)) ≡ n =
      omega (arith, length-take n (frame_bytes g), length-frame_bytes g) in
    let total : length f'.text ≡ limit =
      omega (
        arith,
        ap length text,
        length-append f.text (take n (frame_bytes g)),
        h.ends.room,
        h.disk,
      ) in
    record {
      frames = h.frames;
      part = h.part ++ take n (frame_bytes g);
      body =
          ap (drop 16) text
          ∙ drop-append_left 16 f.text (take n (frame_bytes g)) h.long
          ∙ ap (λ l. l ++ take n (frame_bytes g)) h.body
          ∙ append_assoc (frames_bytes h.frames) h.part (take n (frame_bytes g));
      long = omega (arith, ap length text, length-append f.text (take n (frame_bytes g)), h.long);
      ends = ends;
      disk = same ∙ h.disk;
      counted = h.counted;
      good = h.good;
      fit = h.fit;
      whole = inr total;
      short = elim h.whole [
        | inl e ↦ omega (arith, ap length e, length-append h.part (take n (frame_bytes g)))
        | inr at_limit ↦ omega (arith, h.short, length-append h.part (take n (frame_bytes g)))
      ];
    }

append_frame-Written : (limit : ℕ) → KeptByFrame disk_file.file (Written limit)
unfolding append_frame
append_frame-Written limit g d good fit h =
    elim (Bool-cases ((write (frame_bytes g) d.out).0 == 24)) [
      | inl all ↦ rw all (grows_by_frame limit g d.ok d.out good fit h ((==_iff _ 24).0 all))
      | inr few ↦ rw few (
          keeps_frames limit g d.ok d.out h (
            ground
              (arith, few, (write-AtEnd (frame_bytes g) d.out h.ends).0, length-frame_bytes g)))
    ]

-- What is on the disk at the end, with the exit code.
pub record Captured (limit code : ℕ) (d : Decoder File) : Type 0 where
  pub frames : List Frame
  pub part : List ℕ
  pub text : d.out.text ≡ header_bytes (header_for d.ok) ++ (frames_bytes frames ++ part)
  pub counted : d.ok ≡ length frames % 2 ^ 64
  pub good : All IsGood frames
  pub fit : All IsFrame frames
  pub whole : (part ≡ []) ⊎ (length d.out.text ≡ limit)
  pub short : length part < 24
  pub exits : code ≡ (if ltb 0 d.ok then 0 else 1)

fresh-Written :
    (limit : ℕ) → 16 ≤ limit → Written limit 0 (rewrite_header disk_file 0 (new_file limit)).1
fresh-Written limit h =
    let (ok, text, position, same) = rewrite_header-text 0 (new_file limit) h in
    let size : length (header_bytes (header_for 0)) ≡ 16 = length-header_bytes (header_for 0) in
    let f = (rewrite_header disk_file 0 (new_file limit)).1 in
    let whole_text : f.text ≡ header_bytes (header_for 0) =
      text ∙ append-nil (header_bytes (header_for 0)) in
    record {
      frames = [];
      part = [];
      body = ap (drop 16) whole_text ∙ drop-all 16 (header_bytes (header_for 0)) (omega arith);
      long = omega (arith, ap length whole_text);
      ends = record {
        at_end = omega (arith, position, ap length whole_text);
        room = omega (arith, same, ap length whole_text);
      };
      disk = same;
      counted = refl;
      good = tt;
      fit = tt;
      whole = inl refl;
      short = omega arith;
    }

-- The file of this disk, which takes each write at once, also where it is full.
captured_in :
    (ts : List Turn) (limit : ℕ)
    → All TurnBytes ts
    → 16 ≤ limit
    → let (code, d) = capture disk_file ts (new_file limit) in Captured limit code d
unfolding capture
captured_in ts limit bytes h =
    let (opened, w1) = rewrite_header disk_file 0 (new_file limit) in
    let start = rewrite_header-text 0 (new_file limit) h in
    let s = select_loop disk_file ts (new_session disk_file w1) in
    let kept =
      select_loop-Kept disk_file (Written limit) (append_frame-Written limit) ts
        (new_session disk_file w1) bytes (fresh-Written limit h, tt) in
    let w = kept.0 in
    let end = rewrite_header-text s.decoder.ok s.decoder.out (omega (arith, w.disk)) in
    rw (start.0, end.0)
      (record {
        frames = w.frames;
        part = w.part;
        text = end.1 ∙ ap (◌++◌ (header_bytes (header_for s.decoder.ok))) w.body;
        counted = w.counted;
        good = w.good;
        fit = w.fit;
        whole = elim w.whole [
          | inl e ↦ inl e
          | inr at_limit ↦ inr (
              omega (
                arith,
                ap length end.1,
                length-header_bytes (header_for s.decoder.ok),
                length-append (header_bytes (header_for s.decoder.ok)) (drop 16 s.decoder.out.text),
                length-drop 16 s.decoder.out.text,
                w.long,
              ))
        ];
        short = w.short;
        exits = refl;
      })

-- What a capture leaves where no write was refused.
abbrev pub Whole : ℕ → ℕ → Decoder File → Type 0
Whole limit code d = (c : Captured limit code d) × (c.part ≡ [])

-- Of any turns that give bytes, on a disk with room for the header, a capture fills the disk, or
-- it leaves a header with the number of frames counted and behind it exactly that many frames
-- (modulo 2^64), which fit and verify, and exits with 0 exactly if it counted a frame.
pub capture-Captured :
    (ts : List Turn) (limit : ℕ)
    → All TurnBytes ts
    → 16 ≤ limit
    → let (code, d) = capture disk_file ts (new_file limit) in
      (length d.out.text ≡ limit) ⊎ Whole limit code d
capture-Captured ts limit bytes h =
    let c = captured_in ts limit bytes h in
    let size = length (capture disk_file ts (new_file limit)).1.out.text in
    elim (Bool-cases (size == limit)) [
      | inl full ↦ inl ((==_iff size limit).0 full)
      | inr room ↦ inr (
        c,
        elim c.whole [ inl none_cut ↦ none_cut | inr full ↦ absurd (ground (arith, room, full)) ],
      )
    ]
