-- ===== src/Capture/Searching.antt =====
-- The search for a magic in core-engine/src/capture.cpp, by the rules of Capture.Resync.
use zcmesh.Base.{
  ℕ, suc, ◌+◌, ◌-◌, ◌≤◌, ◌<◌, ◌≡◌, refl, sym, ◌∙◌, ap, subst, arith, true, false, List, [], ◌∷◌,
  length, drop, inc64, add64, length-drop, Bool-cases, inl, inr, none, some, ltb, if◌then◌else◌,
  drop-drop,
}
use zcmesh.Wire.Frame.{of_bytes}
use zcmesh.Wire.Pack.{verify_frame}
use zcmesh.Capture.{FileApi, Decoder, at_magic, append_frame, find_from, decode_at}
use zcmesh.Capture.Resync.{Decodes, skipped}
use zcmesh.Capture.Resync.Decodes.{skip, reject, accept}

abbrev pub skip_to : {W : Type 0} → ℕ → ℕ → Decoder W → Decoder W
skip_to pos magic d =
    if ltb pos magic then record d { resync = add64 d.resync (magic - pos) } else d

-- One byte less to look at.
find_from-step :
    (b : ℕ) (bs : List ℕ) (i : ℕ)
    → 24 ≤ length (b ∷ bs)
    → at_magic (b ∷ bs) ≡ false
    → find_from (b ∷ bs) i ≡ find_from bs (i + 1)
unfolding find_from
find_from-step b bs i h m = ground (arith, m)

find_from-here :
    (b : ℕ) (bs : List ℕ) (i : ℕ)
    → 24 ≤ length (b ∷ bs)
    → at_magic (b ∷ bs) ≡ true
    → find_from (b ∷ bs) i ≡ some i
unfolding find_from
find_from-here b bs i h m = ground (arith, m)

find_from-short : (bs : List ℕ) (i : ℕ) → length bs < 24 → find_from bs i ≡ none
unfolding find_from
find_from-short [] i h = refl
find_from-short (b ∷ bs) i h = ground arith

module _ {W : Type 0} (file : FileApi W) (stream : List ℕ) (pos magic : ℕ) (d : Decoder W) where
  pub decode_at-good :
      verify_frame (of_bytes (drop magic stream)) ≡ true
      → decode_at file stream pos magic d
        ≡ (magic + 24, append_frame file (of_bytes (drop magic stream)) (skip_to pos magic d))
  unfolding decode_at
  decode_at-good good = rw good refl

  pub decode_at-bad :
      verify_frame (of_bytes (drop magic stream)) ≡ false
      → decode_at file stream pos magic d ≡ (
        magic + 1,
        record (skipped 1 (skip_to pos magic d)) { drop = inc64 (skip_to pos magic d).drop },
      )
  unfolding decode_at
  decode_at-bad bad = rw bad refl

module _ {W : Type 0} (file : FileApi W) (rest : List ℕ) (d' : Decoder W) where
  skipped-skipped : (n : ℕ) (d : Decoder W) → skipped n (skipped 1 d) ≡ skipped (suc n) d
  skipped-skipped n d = ground arith

  pub find-none :
      (bs : List ℕ) (i : ℕ) (d : Decoder W)
      → find_from bs i ≡ none
      → 24 ≤ length bs
      → Decodes file rest d' (drop (length bs - 23) bs) (skipped (length bs - 23) d)
      → Decodes file rest d' bs d
  find-none [] i d e h r = absurd (omega arith)
  find-none (b ∷ bs) i d e h r = elim (Bool-cases (at_magic (b ∷ bs))) [
    | inl m ↦ absurd (ground (arith, e, find_from-here b bs i h m))
    | inr m ↦ elim (Bool-cases (ltb (length bs) 24)) [
      | inl short ↦
          let one : suc (length bs) - 23 ≡ 1 = ground arith in
          skip h m (subst (λ n. Decodes file rest d' (drop n (b ∷ bs)) (skipped n d)) one r)
      | inr long ↦
          let next : suc (length bs) - 23 ≡ suc (length bs - 23) = ground arith in
          let r' : Decodes file rest d' (drop (length bs - 23) bs)
              (skipped (suc (length bs - 23)) d) =
            subst (λ n. Decodes file rest d' (drop n (b ∷ bs)) (skipped n d)) next r in
          skip h m (
            find-none bs (i + 1) (skipped 1 d) (sym (find_from-step b bs i h m) ∙ e) (ground arith)
              (subst (λ s. Decodes file rest d' (drop (length bs - 23) bs) s)
                (sym (skipped-skipped (length bs - 23) d)) r'))
    ]
  ]

  -- What `find_magic` finds: a magic `j` bytes on, up to which all is skipped.
  abbrev Found : List ℕ → ℕ → ℕ → Type 0
  Found bs i m =
      (j : ℕ) × (m ≡ i + j)
      × (j + 24 ≤ length bs)
      × (at_magic (drop j bs) ≡ true)
      × ((d : Decoder W)
          → Decodes file rest d' (drop j bs) (skip_to i m d)
          → Decodes file rest d' bs d)

  skip_to_self : (i : ℕ) (d : Decoder W) → skip_to i i d ≡ d
  skip_to_self i d = ground arith

  skip_to-skipped :
      (i j : ℕ) (d : Decoder W)
      → skip_to (i + 1) (i + suc j) (skipped 1 d) ≡ skip_to i (i + suc j) d
  skip_to-skipped i j d = ground arith

  pub find-some : (bs : List ℕ) (i m : ℕ) → find_from bs i ≡ some m → Found bs i m
  find-some [] i m e = absurd (ground (arith, e, find_from-short [] i))
  find-some (b ∷ bs) i m e = elim (Bool-cases (ltb (length (b ∷ bs)) 24)) [
    | inl short ↦ absurd (ground (arith, e, find_from-short (b ∷ bs) i))
    | inr long ↦
        let h : 24 ≤ length (b ∷ bs) = ground arith in
        elim (Bool-cases (at_magic (b ∷ bs))) [
          | inl magic ↦
              let same : some i ≡ some m = sym (find_from-here b bs i h magic) ∙ e in
              let same' : i ≡ m = ground (arith, same) in
              (
                0,
                omega arith,
                h,
                magic,
                λ d r.
                    subst (Decodes file rest d' (b ∷ bs))
                      (ap (λ k. skip_to i k d) (sym same') ∙ skip_to_self i d) r,
              )
          | inr other ↦
              let (j, at_j, fits, magic, skips) =
                find-some bs (i + 1) m (sym (find_from-step b bs i h other) ∙ e) in
              let at_m : i + suc j ≡ m = omega arith in
              (
                suc j,
                omega arith,
                omega arith,
                magic,
                λ d r. skip h other (
                    skips (skipped 1 d) (
                      subst (Decodes file rest d' (drop j bs))
                        (sym (
                          subst (λ k. skip_to (i + 1) k (skipped 1 d) ≡ skip_to i k d) at_m
                            (skip_to-skipped i j d)))
                        r)),
              )
        ]
  ]

  -- One turn of the loop with a magic at `magic`.
  pub turn :
      (stream : List ℕ) (pos magic : ℕ) (d : Decoder W)
      → magic + 24 ≤ length stream
      → at_magic (drop magic stream) ≡ true
      → (let (next, d1) = decode_at file stream pos magic d in
          Decodes file rest d' (drop next stream) d1)
      → Decodes file rest d' (drop magic stream) (skip_to pos magic d)
  turn stream pos magic d fits m r =
      let enough : 24 ≤ length (drop magic stream) = omega (arith, length-drop magic stream) in
      let Rest : ℕ × Decoder W → Type 0 = λ s. Decodes file rest d' (drop s.0 stream) s.1 in
      elim (Bool-cases (verify_frame (of_bytes (drop magic stream)))) [
        | inl good ↦ accept enough m good (
            subst
              (λ s.
                Decodes file rest d' s
                  (append_frame file (of_bytes (drop magic stream)) (skip_to pos magic d)))
              (sym (drop-drop 24 magic stream))
              (subst Rest (decode_at-good file stream pos magic d good) r))
        | inr bad ↦ reject enough m bad (
            subst
              (λ s. Decodes file rest d' s (record (skipped 1 (skip_to pos magic d)) {
                drop = inc64 (skip_to pos magic d).drop;
              }))
              (sym (drop-drop 1 magic stream))
              (subst Rest (decode_at-bad file stream pos magic d bad) r))
      ]
