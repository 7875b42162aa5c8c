-- ===== src/Capture/Select/Kept.antt =====
-- What every part of a session of core-engine/src/capture.cpp keeps, if writing one frame keeps it.
use zcmesh.Base.{
  ℕ, zero, suc, arith, Bool, true, false, Option, none, some, List, [], ◌∷◌, ◌++◌, length, get_or,
  All, All-drop, All-append, IsByte, inl, inr, Bool-cases, ltb, if◌then◌else◌,
}
use zcmesh.Wire.Frame.{Frame, IsFrame, of_bytes, wire_frame_size}
use zcmesh.Wire.Pack.{verify_frame}
use zcmesh.Zcm.{SeekApi}
use zcmesh.Capture.{
  FileApi, Decoder, Session, Received, would_block, closed, got, append_frame, on_accept, on_client,
  on_udp,
}
use zcmesh.Capture.Accounting.{IsGood}
use zcmesh.Capture.Resync.{Decodes}
use zcmesh.Capture.Resync.Decodes.{stop, skip, reject, accept}
use zcmesh.Capture.Stream.{decode_tcp_stream-Decodes}
use zcmesh.Capture.Select.{Turn, Running, read_client, read_udp, select_turn, select_loop}

get_or-IsByte : (bs : List ℕ) (i : ℕ) → All IsByte bs → IsByte (get_or bs i 0)
get_or-IsByte [] i a = omega arith
get_or-IsByte (b ∷ bs) zero a = a.0
get_or-IsByte (b ∷ bs) (suc i) a = get_or-IsByte bs i a.1

-- Whatever bytes are copied into the struct, its fields fit.
of_bytes-IsFrame : (bs : List ℕ) → All IsByte bs → IsFrame (of_bytes bs)
unfolding of_bytes
of_bytes-IsFrame bs a =
    let b : (i : ℕ) → IsByte (get_or bs i 0) = λ i. get_or-IsByte bs i a in
    record {
      magic_fits = omega (arith, b 0, b 1);
      version_fits = b 2;
      flags_fits = b 3;
      seq_fits = omega (arith, b 4, b 5, b 6, b 7);
      timestamp_fits = omega (arith, b 8, b 9, b 10, b 11);
      node_fits = omega (arith, b 12, b 13);
      sensor_fits = b 14;
      reserved_fits = b 15;
      raw_fits = omega (arith, b 16, b 17, b 18, b 19);
      checksum_fits = omega (arith, b 20, b 21, b 22, b 23);
    }

-- the bytes that sockets give
abbrev pub ReceivedBytes : Received → Type 0
ReceivedBytes would_block = Unit
ReceivedBytes closed = Unit
ReceivedBytes (got bytes) = All IsByte bytes

abbrev pub OptionBytes : Option (List ℕ) → Type 0
OptionBytes none = Unit
OptionBytes (some bytes) = All IsByte bytes

abbrev pub ClientBytes : Option Received → Type 0
ClientBytes none = Unit
ClientBytes (some r) = ReceivedBytes r

abbrev pub UdpBytes : Option (Option (List ℕ)) → Type 0
UdpBytes none = Unit
UdpBytes (some r) = OptionBytes r

abbrev pub TurnBytes : Turn → Type 0
TurnBytes t = ClientBytes t.from_client × UdpBytes t.from_udp

module _ {W : Type 0} (file : FileApi W) (P : ℕ → W → Type 0) where
  -- a property of the number of frames written and of the file
  abbrev pub Has : Decoder W → Type 0
  Has d = P d.ok d.out

  abbrev pub KeptByFrame : Type 0
  KeptByFrame =
      (f : Frame) (d : Decoder W) → IsGood f → IsFrame f → Has d → Has (append_frame file f d)

  module _ (keep : KeptByFrame) where
    Decodes-Has :
        {rest : List ℕ} {d' : Decoder W} {bs : List ℕ} {d : Decoder W}
        → All IsByte bs
        → Has d
        → Decodes file rest d' bs d
        → Has d' × All IsByte rest
    Decodes-Has a p (stop few) = (p, a)
    Decodes-Has {bs = bs} a p (skip h m t) = Decodes-Has (All-drop IsByte 1 bs a) p t
    Decodes-Has {bs = bs} a p (reject h m v t) = Decodes-Has (All-drop IsByte 1 bs a) p t
    Decodes-Has {bs = bs} {d = d} a p (accept h m v t) =
        Decodes-Has (All-drop IsByte 24 bs a) (keep (of_bytes bs) d v (of_bytes-IsFrame bs a) p) t

    -- the session keeps it, and holds bytes
    abbrev pub Kept : Session file → Type 0
    Kept s = Has s.decoder × All IsByte s.stream

    on_client-Kept :
        (r : Received) (s : Session file) → ReceivedBytes r → Kept s → Kept (on_client file r s)
    unfolding on_client
    on_client-Kept would_block s a k = k
    on_client-Kept closed s a k = (k.0, tt)
    on_client-Kept (got bytes) s a k =
        let bs = s.stream ++ bytes in
        Decodes-Has (All-append IsByte s.stream bytes k.1 a) k.0
          (decode_tcp_stream-Decodes file bs s.decoder)

    on_udp-Has :
        (r : Option (List ℕ)) (d : Decoder W) → OptionBytes r → Has d → Has (on_udp file r d)
    unfolding on_udp
    on_udp-Has none d a p = p
    on_udp-Has (some bytes) d a p = elim (Bool-cases (ltb (length bytes) wire_frame_size)) [
      | inl short ↦ elim (Bool-cases (ltb 0 (length bytes))) [
        | inl some_bytes ↦ rw (short, some_bytes) p
        | inr no_bytes ↦ rw (short, no_bytes) p
      ]
      | inr long ↦ elim (Bool-cases (verify_frame (of_bytes bytes))) [
        | inl good ↦ rw (long, good) (keep (of_bytes bytes) d good (of_bytes-IsFrame bytes a) p)
        | inr bad ↦ rw (long, bad) p
      ]
    ]

module _ {W : Type 0} (api : SeekApi W) (P : ℕ → W → Type 0) (keep : KeptByFrame (api.file) P) where
  abbrev Holding : Running api → Type 0
  Holding = Kept (api.file) P keep

  if_Kept : (b : Bool) (x y : Running api) → Holding x → Holding y → Holding (if b then x else y)
  if_Kept true x y p q = p
  if_Kept false x y p q = q

  on_accept-Kept : (s : Running api) → Holding s → Holding (on_accept (api.file) s)
  unfolding on_accept
  on_accept-Kept s k = elim (Bool-cases s.client) [
    | inl old ↦ rw old (k.0, tt)
    | inr new ↦ rw new k
  ]

  read_client-Kept :
      (r : Option Received) (s : Running api)
      → ClientBytes r
      → Holding s
      → Holding (read_client api r s)
  read_client-Kept none s a k = k
  read_client-Kept (some r) s a k =
      if_Kept s.client (on_client (api.file) r s) s (on_client-Kept (api.file) P keep r s a k) k

  read_udp-Kept :
      (r : Option (Option (List ℕ))) (s : Running api)
      → UdpBytes r
      → Holding s
      → Holding (read_udp api r s)
  read_udp-Kept none s a k = k
  read_udp-Kept (some r) s a k = (on_udp-Has (api.file) P keep r s.decoder a k.0, k.1)

  -- A session of bytes keeps what every written frame keeps.
  pub select_loop-Kept :
      (ts : List Turn) (s : Running api)
      → All TurnBytes ts
      → Holding s
      → Holding (select_loop api ts s)
  unfolding select_turn select_loop
  select_loop-Kept [] s a k = k
  select_loop-Kept (t ∷ ts) s a k =
      let k1 = if_Kept t.accepted (on_accept (api.file) s) s (on_accept-Kept s k) k in
      let k2 = read_client-Kept t.from_client _ a.0.0 k1 in
      select_loop-Kept ts (select_turn api t s) a.1 (read_udp-Kept t.from_udp _ a.0.1 k2)
