-- ===== src/Capture/Chunks.antt =====
-- A TCP stream in core-engine/src/capture.cpp and the pieces into which `recv` cuts it.
use zcmesh.Base.{
  ℕ, zero, suc, ◌+◌, ◌-◌, ◌≤◌, ◌<◌, ◌≡◌, refl, sym, ◌∙◌, ap, ap₂, subst, arith, Bool, true, false,
  List, [], ◌∷◌, ◌++◌, append_assoc, length, drop, get_or, inc64, drop-append_left,
}
use zcmesh.Wire.Frame.{of_bytes}
use zcmesh.Wire.Pack.{verify_frame}
use zcmesh.Capture.{FileApi, Decoder, Session, at_magic, append_frame, decode_tcp_stream, on_client}
use zcmesh.Capture.Received.{got}
use zcmesh.Capture.Resync.{Decodes}
use zcmesh.Capture.Resync.Decodes.{stop, skip, reject, accept}
use zcmesh.Capture.Stream.{decode_tcp_stream-Decodes}

get_or-append : (xs ys : List ℕ) (i d : ℕ) → i < length xs → get_or (xs ++ ys) i d ≡ get_or xs i d
get_or-append [] ys i d h = absurd (omega arith)
get_or-append (x ∷ xs) ys zero d h = refl
get_or-append (x ∷ xs) ys (suc i) d h = get_or-append xs ys i d (omega arith)

-- The first 24 bytes decide.
of_bytes-append : (xs ys : List ℕ) → 24 ≤ length xs → of_bytes (xs ++ ys) ≡ of_bytes xs
unfolding of_bytes
of_bytes-append xs ys h =
    rw
      (
        at 0 (omega arith),
        at 1 (omega arith),
        at 2 (omega arith),
        at 3 (omega arith),
        at 4 (omega arith),
        at 5 (omega arith),
        at 6 (omega arith),
        at 7 (omega arith),
        at 8 (omega arith),
        at 9 (omega arith),
        at 10 (omega arith),
        at 11 (omega arith),
        at 12 (omega arith),
        at 13 (omega arith),
        at 14 (omega arith),
        at 15 (omega arith),
        at 16 (omega arith),
        at 17 (omega arith),
        at 18 (omega arith),
        at 19 (omega arith),
        at 20 (omega arith),
        at 21 (omega arith),
        at 22 (omega arith),
        at 23 (omega arith),
      )
      refl
  where
    at : (i : ℕ) → i < length xs → get_or (xs ++ ys) i 0 ≡ get_or xs i 0
    at i lt = get_or-append xs ys i 0 lt

at_magic-append : (xs ys : List ℕ) → 24 ≤ length xs → at_magic (xs ++ ys) ≡ at_magic xs
at_magic-append xs ys h =
    rw (get_or-append xs ys 0 0 (omega arith), get_or-append xs ys 1 0 (omega arith)) refl

length_append_le : (xs ys : List ℕ) → 24 ≤ length xs → 24 ≤ length (xs ++ ys)
length_append_le xs ys h = omega (arith, zcmesh.Base.length-append xs ys)

module _ {W : Type 0} (file : FileApi W) where
  -- The rules leave no choice.
  pub Decodes-unique :
      {rest rest' : List ℕ} {d' d'' : Decoder W} {ys : List ℕ} {d : Decoder W}
      → Decodes file rest d' ys d
      → Decodes file rest' d'' ys d
      → (rest ≡ rest') × (d' ≡ d'')
  Decodes-unique (stop few) (stop few') = (refl, refl)
  Decodes-unique (stop few) (skip h m t) = absurd (omega arith)
  Decodes-unique (stop few) (reject h m v t) = absurd (omega arith)
  Decodes-unique (stop few) (accept h m v t) = absurd (omega arith)
  Decodes-unique (skip h m t) (stop few) = absurd (omega arith)
  Decodes-unique (reject h m v t) (stop few) = absurd (omega arith)
  Decodes-unique (accept h m v t) (stop few) = absurd (omega arith)
  Decodes-unique (skip h m t) (skip h' m' t') = Decodes-unique t t'
  Decodes-unique (reject h m v t) (reject h' m' v' t') = Decodes-unique t t'
  Decodes-unique (accept h m v t) (accept h' m' v' t') = Decodes-unique t t'
  Decodes-unique (skip h m t) (reject h' m' v' t') = absurd (ground (arith, m, m'))
  Decodes-unique (skip h m t) (accept h' m' v' t') = absurd (ground (arith, m, m'))
  Decodes-unique (reject h m v t) (skip h' m' t') = absurd (ground (arith, m, m'))
  Decodes-unique (accept h m v t) (skip h' m' t') = absurd (ground (arith, m, m'))
  Decodes-unique (reject h m v t) (accept h' m' v' t') = absurd (ground (arith, v, v'))
  Decodes-unique (accept h m v t) (reject h' m' v' t') = absurd (ground (arith, v, v'))

  pub over :
      {rest : List ℕ} {d' d : Decoder W} {xs ys : List ℕ}
      → xs ≡ ys
      → Decodes file rest d' xs d
      → Decodes file rest d' ys d
  over {rest} {d'} {d} e t = subst (λ zs. Decodes file rest d' zs d) e t

  pub over_state :
      {rest : List ℕ} {d' : Decoder W} {xs : List ℕ} {d1 d2 : Decoder W}
      → d1 ≡ d2
      → Decodes file rest d' xs d1
      → Decodes file rest d' xs d2
  over_state {rest} {d'} {xs} e t = subst (λ d. Decodes file rest d' xs d) e t

  -- Bytes that come later do not change what was done before them.
  Decodes-append :
      {rest rest' : List ℕ} {d' d'' : Decoder W} (ys : List ℕ) {xs : List ℕ} {d : Decoder W}
      → Decodes file rest d' xs d
      → Decodes file rest' d'' (rest ++ ys) d'
      → Decodes file rest' d'' (xs ++ ys) d
  Decodes-append ys (stop few) later = later
  Decodes-append ys {xs = xs} (skip h m t) later =
      skip (length_append_le xs ys h) (at_magic-append xs ys h ∙ m)
        (over (sym (drop-append_left 1 xs ys (omega arith))) (Decodes-append ys t later))
  Decodes-append ys {xs = xs} (reject h m v t) later =
      reject (length_append_le xs ys h) (at_magic-append xs ys h ∙ m)
        (ap verify_frame (of_bytes-append xs ys h) ∙ v)
        (over (sym (drop-append_left 1 xs ys (omega arith))) (Decodes-append ys t later))
  Decodes-append ys {xs = xs} {d = d} (accept h m v t) later =
      accept (length_append_le xs ys h) (at_magic-append xs ys h ∙ m)
        (ap verify_frame (of_bytes-append xs ys h) ∙ v)
        (over_state (ap (λ f. append_frame file f d) (sym (of_bytes-append xs ys h)))
          (over (sym (drop-append_left 24 xs ys h)) (Decodes-append ys t later)))

  decode-append :
      (xs ys : List ℕ) (d : Decoder W)
      → (let (rest, d') = decode_tcp_stream file xs d in decode_tcp_stream file (rest ++ ys) d')
        ≡ decode_tcp_stream file (xs ++ ys) d
  decode-append xs ys d =
      let (rest, d') = decode_tcp_stream file xs d in
      let (e1, e2) =
        Decodes-unique
          (Decodes-append ys (decode_tcp_stream-Decodes file xs d)
            (decode_tcp_stream-Decodes file (rest ++ ys) d'))
          (decode_tcp_stream-Decodes file (xs ++ ys) d) in
      ap₂ (λ x y. (x, y)) e1 e2

  -- Two receipts on the TCP client, one after the other, leave the session as one receipt of both
  -- would: how recv cuts the stream makes no difference.
  pub on_client-append :
      (s : Session file) (xs ys : List ℕ)
      → on_client file (got ys) (on_client file (got xs) s) ≡ on_client file (got (xs ++ ys)) s
  unfolding on_client
  on_client-append s xs ys =
      let e =
        decode-append (s.stream ++ xs) ys s.decoder
        ∙ ap (λ zs. decode_tcp_stream file zs s.decoder) (append_assoc s.stream xs ys) in
      ap (λ r. record s { stream = r.0; decoder = r.1 }) e
