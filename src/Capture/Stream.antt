-- ===== src/Capture/Stream.antt =====
-- `decode_tcp_stream` of core-engine/src/capture.cpp against the rules of Capture/Resync.
use zcmesh.Base.{
  ℕ, zero, suc, ◌+◌, ◌-◌, ◌≤◌, ◌<◌, ◌≡◌, refl, sym, ◌∙◌, ap, subst, arith, true, List, length, drop,
  length-drop, Bool-cases, inl, inr, Option, none, some, ltb, if◌then◌else◌, drop-drop,
}
use zcmesh.Wire.Frame.{of_bytes}
use zcmesh.Wire.Pack.{verify_frame}
use zcmesh.Capture.{
  FileApi, Decoder, at_magic, find_magic, decode_at, give_up, decode_loop, decode_tcp_stream,
}
use zcmesh.Capture.Resync.{Decodes, skipped}
use zcmesh.Capture.Resync.Decodes.{stop}
use zcmesh.Capture.Searching.{skip_to, decode_at-good, decode_at-bad, find-none, find-some, turn}

module _ {W : Type 0} (file : FileApi W) where
  loop_short :
      (fuel : ℕ) (stream : List ℕ) (pos : ℕ) (d : Decoder W)
      → length stream - pos < 24
      → decode_loop file fuel stream pos d ≡ (pos, d)
  unfolding decode_loop
  loop_short zero stream pos d h = refl
  loop_short (suc fuel) stream pos d h = ground arith

  loop_none :
      (fuel : ℕ) (stream : List ℕ) (pos : ℕ) (d : Decoder W)
      → 24 ≤ length stream - pos
      → find_magic stream pos ≡ none
      → decode_loop file (suc fuel) stream pos d
        ≡ (length stream - 23, skipped (length stream - pos - 23) d)
  unfolding decode_loop give_up
  loop_none fuel stream pos d h e = rw (e, decode_loop) (ground arith)

  loop_some :
      (fuel : ℕ) (stream : List ℕ) (pos magic : ℕ) (d : Decoder W)
      → 24 ≤ length stream - pos
      → find_magic stream pos ≡ some magic
      → decode_loop file (suc fuel) stream pos d ≡ (
          let (next, d1) = decode_at file stream pos magic d in
          decode_loop file fuel stream next d1)
  unfolding decode_loop
  loop_some fuel stream pos magic d h e = rw (e, decode_loop) (ground arith)

  -- What `decode_at` leaves is past the magic.
  decode_at_next :
      (stream : List ℕ) (pos magic : ℕ) (d : Decoder W)
      → magic + 24 ≤ length stream
      → (magic < (decode_at file stream pos magic d).0)
        × ((decode_at file stream pos magic d).0 ≤ length stream)
  decode_at_next stream pos magic d h =
      elim (Bool-cases (verify_frame (of_bytes (drop magic stream)))) [
        | inl good ↦ rw (decode_at-good file stream pos magic d good) (omega arith, h)
        | inr bad ↦ rw (decode_at-bad file stream pos magic d bad) (omega arith, omega arith)
      ]

  abbrev Done : List ℕ → ℕ → Decoder W → ℕ × Decoder W → Type 0
  Done stream pos d s = Decodes file (drop s.0 stream) s.1 (drop pos stream) d

  abbrev Onward : ℕ → List ℕ → ℕ → Type 0
  Onward fuel stream pos =
      (next : ℕ) (d : Decoder W)
      → pos < next
      → next ≤ length stream
      → Done stream next d (decode_loop file fuel stream next d)

  one_turn :
      (fuel : ℕ) (stream : List ℕ) (pos : ℕ) (d : Decoder W)
      → 24 ≤ length stream - pos
      → Onward fuel stream pos
      → (o : Option ℕ) → find_magic stream pos ≡ o
      → Done stream pos d (decode_loop file (suc fuel) stream pos d)
  unfolding find_magic
  one_turn fuel stream pos d h onward none e =
      let left : length (drop pos stream) ≡ length stream - pos = length-drop pos stream in
      let end : pos + (length stream - pos - 23) ≡ length stream - 23 = omega arith in
      let rest = drop (length stream - 23) stream in
      let kept : drop (length (drop pos stream) - 23) (drop pos stream) ≡ rest =
        rw left (drop-drop (length stream - pos - 23) pos stream ∙ ap (λ n. drop n stream) end) in
      let final = skipped (length stream - pos - 23) d in
      let few : length rest < 24 = omega (arith, length-drop (length stream - 23) stream) in
      let at_end : Decodes file rest final rest (skipped (length (drop pos stream) - 23) d) =
        subst (λ n. Decodes file rest final rest (skipped (n - 23) d)) (sym left) (stop few) in
      subst (Done stream pos d) (sym (loop_none fuel stream pos d h e)) (
        find-none file rest final (drop pos stream) pos d e (omega arith) (
          subst (λ bs. Decodes file rest final bs (skipped (length (drop pos stream) - 23) d))
            (sym kept) at_end))
  one_turn fuel stream pos d h onward (some magic) e =
      let (next, d1) = decode_at file stream pos magic d in
      let (last, final) = decode_loop file fuel stream next d1 in
      let rest = drop last stream in
      let (j, at_j, fits, here, skips) = find-some file rest final (drop pos stream) pos magic e in
      let same : drop j (drop pos stream) ≡ drop magic stream =
        drop-drop j pos stream ∙ ap (λ n. drop n stream) (sym at_j) in
      let in_stream : magic + 24 ≤ length stream = omega (arith, length-drop pos stream) in
      let here' : at_magic (drop magic stream) ≡ true =
        subst (λ bs. at_magic bs ≡ true) same here in
      let (past, within) = decode_at_next stream pos magic d in_stream in
      subst (Done stream pos d) (sym (loop_some fuel stream pos magic d h e)) (
        skips d (
          subst (λ bs. Decodes file rest final bs (skip_to pos magic d)) (sym same)
            (turn file rest final stream pos magic d in_stream here'
              (onward next d1 (omega arith) within))))

  loop-Decodes :
      (fuel : ℕ) (stream : List ℕ) (pos : ℕ) (d : Decoder W)
      → pos ≤ length stream
      → length stream - pos ≤ fuel
      → Done stream pos d (decode_loop file fuel stream pos d)
  loop-Decodes zero stream pos d le enough =
      subst (Done stream pos d) (sym (loop_short zero stream pos d (omega arith)))
        (stop (omega (arith, length-drop pos stream)))
  loop-Decodes (suc fuel) stream pos d le enough =
      elim (Bool-cases (ltb (length stream - pos) 24)) [
        | inl short ↦
            subst (Done stream pos d) (sym (loop_short (suc fuel) stream pos d (ground arith)))
              (stop (ground (arith, length-drop pos stream)))
        | inr long ↦
            one_turn fuel stream pos d (ground arith)
              (λ next d1 lt le1. loop-Decodes fuel stream next d1 le1 (omega arith))
              (find_magic stream pos) refl
      ]

  -- The decoder does to every stream and counters what the rules of Decodes say, which describe
  -- it byte by byte.
  pub decode_tcp_stream-Decodes :
      (stream : List ℕ) (d : Decoder W)
      → let (rest, d') = decode_tcp_stream file stream d in Decodes file rest d' stream d
  unfolding decode_tcp_stream
  decode_tcp_stream-Decodes stream d =
      let (pos, d') = decode_loop file (length stream) stream 0 d in
      let left : drop pos stream ≡ (if ltb 0 pos then drop pos stream else stream) = ground arith in
      subst (λ bs. Decodes file bs d' stream d) left
        (loop-Decodes (length stream) stream 0 d (omega arith) (omega arith))
