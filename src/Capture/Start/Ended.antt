-- ===== src/Capture/Start/Ended.antt =====
-- What the receiver of core-engine/src/capture.cpp has done with the system when it ends.
use zcmesh.Base.{
  [], ◌∷◌, ap, ℕ, ◌+◌, ◌≡◌, refl, ◌⊎◌, inl, inr, arith, true, false, Bool-cases, Option, none, some,
  List, map,
}
use zcmesh.Net.Endpoints.{parse_endpoint}
use zcmesh.Net.Host.{HostApi}
use zcmesh.Net.Host.Ledger.{Held, ledger, closes, starts, both_fds, closes_both}
use zcmesh.Capture.Start.Sockets.{Listens, listen_udp-ListensUdp, listen_tcp-Listens}
use zcmesh.Capture.Start.Client.{client_descriptor-HasClient, client_closed}
use zcmesh.Zcm.{SeekApi, rewrite_header}
use zcmesh.Capture.Select.{Turn, capture}
use zcmesh.Options.{codes}
use zcmesh.Capture.Arguments.{
  Mode, udp_only, tcp_only, both, mode_of, CaptureOptions, parse_capture,
}
use zcmesh.Capture.Start.{
  client_descriptor, Ports, Listening, ready, refused, seen_in, listen_udp, listen_tcp, End,
  on_file, on_listening, start_capture, capture_checked, capture_parsed, capture_main,
}

module _ {W : Type 0} (host : HostApi W) where
  -- No descriptor is left over. The network is shut down, but where the endpoint cannot be read.
  abbrev pub Left : CaptureOptions → Held → Held → Type 0
  Left o h h' =
      (h'.fds ≡ h.fds)
      × ((h'.started ≡ h.started)
          ⊎ ((h'.started ≡ h.started + 1) × ((parse_endpoint o.listen).0 ≡ false)))

  -- What the sockets of each mode report: no connection without the stream socket, no datagram without
  -- the datagram socket.
  abbrev pub sees : Mode → Turn → Turn
  sees udp_only t = record t { accepted = false }
  sees tcp_only t = record t { from_udp = none }
  sees both t = t

  abbrev pub mode_name : Mode → List ℕ
  mode_name udp_only = codes "udp"
  mode_name tcp_only = codes "tcp"
  mode_name both = codes "both"

  mode_of-mode_name : (m : Mode) → mode_of (mode_name m) ≡ some m
  unfolding mode_of
  mode_of-mode_name udp_only = refl
  mode_of-mode_name tcp_only = refl
  mode_of-mode_name both = refl

  seen_in-sees : (m : Mode) (ts : List Turn) → map (seen_in m) ts ≡ map (sees m) ts
  seen_in-sees m [] = refl
  seen_in-sees udp_only (t ∷ ts) = ap (◌∷◌ (sees udp_only t)) (seen_in-sees udp_only ts)
  seen_in-sees tcp_only (t ∷ ts) = ap (◌∷◌ (sees tcp_only t)) (seen_in-sees tcp_only ts)
  seen_in-sees both (t ∷ ts) = ap (◌∷◌ t) (seen_in-sees both ts)

  module _ {F : Type 0} (api : SeekApi F) (turns : List Turn) where
    -- It ends with 1 before there is a file, or it has captured what the sockets of its mode reported.
    abbrev EndedWith : CaptureOptions → Option F → Held → End (ledger host) api turns → Type 0
    EndedWith o file h (code, none, (w, h')) = (code ≡ 1) × Left o h h'
    EndedWith o file h (code, some d, (w, h')) =
        (h'.fds ≡ h.fds)
        × (h'.started ≡ h.started)
        × ((f : F) × (file ≡ some f) × ((code, d) ≡ capture api (map (sees o.mode) turns) f))

    on_file-EndedWith :
        (o : CaptureOptions) (p : Ports) (file : Option F) (w : W) (h h1 : Held)
        → h1.fds ≡ both_fds p.udp_fd p.tcp_fd h.fds
        → h1.started ≡ h.started + 1
        → EndedWith o file h (on_file (ledger host) api turns o p file (w, h1))
    on_file-EndedWith o p none w h h1 fds up =
        let shut = closes_both p.udp_fd p.tcp_fd h1 h.fds fds in
        (refl, (shut.0, inl (omega (arith, shut.2, up))))
    on_file-EndedWith o p (some f) w h h1 fds up =
        let ts = map (seen_in o.mode) turns in
        let s = client_descriptor (ledger host) ts (none, (w, h1)) in
        let (rest, still) =
          client_closed host (both_fds p.udp_fd p.tcp_fd h.fds) (h.started + 1) s (
            client_descriptor-HasClient host (both_fds p.udp_fd p.tcp_fd h.fds) (h.started + 1) ts
              (none, (w, h1)) (fds, up)) in
        let served = closes_both p.udp_fd p.tcp_fd (closes s.0 s.1.1) h.fds rest in
        let shut = closes_both p.udp_fd p.tcp_fd h1 h.fds fds in
        let ran = ap (λ ts. capture api ts f) (seen_in-sees o.mode turns) in
        elim (Bool-cases (rewrite_header api 0 f).0) [
          | inl opened ↦ rw opened (served.1, omega (arith, served.3, still), (f, refl, ran))
          | inr full ↦ rw full (shut.0, omega (arith, shut.2, up), (f, refl, ran))
        ]

    on_listening-EndedWith :
        (o : CaptureOptions) (file : Option F) (h : Held) (l : Listening (W × Held))
        → Listens host h l
        → EndedWith o file h (on_listening (ledger host) api turns o file l)
    on_listening-EndedWith o file h (refused (w, h')) same = (refl, (same.0, inl same.1))
    on_listening-EndedWith o file h (ready p (w, h')) (fds, up) =
        on_file-EndedWith o p file w h h' fds up

    start_capture-EndedWith :
        (o : CaptureOptions) (file : Option F) (w : W) (h : Held)
        → EndedWith o file h (start_capture (ledger host) api turns o file (w, h))
    start_capture-EndedWith o file w h =
        let (up, w1) = host.net_init w in
        let ep = (parse_endpoint o.listen).1 in
        let (known, w2) = host.udp.resolve ep w1 in
        elim (Bool-cases up) [
          | inr down ↦ rw (down, starts) (refl, (refl, inl refl))
          | inl started ↦ elim (Bool-cases (parse_endpoint o.listen).0) [
            | inr bad ↦ rw (started, bad) (refl, (refl, inr (refl, bad)))
            | inl good ↦ elim (Bool-cases known) [
              | inr strange ↦ rw (started, good, strange) (refl, (refl, inl (omega arith)))
              | inl found ↦
                  let udp = listen_udp-ListensUdp host ep h o.mode w2 (starts true h) refl refl in
                  let l = listen_udp (ledger host) o.mode ep (w2, starts true h) in
                  rw (started, good, found)
                    (on_listening-EndedWith o file h (listen_tcp (ledger host) o.mode ep l)
                      (listen_tcp-Listens host ep h o.mode l udp))
            ]
          ]
        ]

    abbrev pub Ended :
        List (List ℕ) → (List ℕ → Option F) → Held → End (ledger host) api turns → Type 0
    Ended args open_file h (code, none, (w, h')) =
        (code ≡ 1)
        × (h'.fds ≡ h.fds)
        × ((h'.started ≡ h.started)
            ⊎ ((o : CaptureOptions) × (parse_capture args ≡ some o)
                × (h'.started ≡ h.started + 1)
                × ((parse_endpoint o.listen).0 ≡ false)))
    Ended args open_file h (code, some d, (w, h')) =
        (h'.fds ≡ h.fds)
        × (h'.started ≡ h.started)
        × ((o : CaptureOptions) × (path : List ℕ) × (f : F) × (parse_capture args ≡ some o)
            × (o.out_path ≡ some path)
            × (mode_of (mode_name o.mode) ≡ some o.mode)
            × (open_file path ≡ some f)
            × ((code, d) ≡ capture api (map (sees o.mode) turns) f))

    of_options :
        (args : List (List ℕ)) (open_file : List ℕ → Option F) (h : Held) (o : CaptureOptions)
        (path : List ℕ)
        → parse_capture args ≡ some o
        → o.out_path ≡ some path
        → (e : End (ledger host) api turns) → EndedWith o (open_file path) h e
        → Ended args open_file h e
    of_options args open_file h o path parsed given (code, none, (w, h')) (one, (fds, inl same)) =
        (one, fds, inl same)
    of_options args open_file h o path parsed given (code, none, (w, h'))
          (one, (fds, inr (up, bad))) =
        (one, fds, inr (o, parsed, up, bad))
    of_options args open_file h o path parsed given (code, some d, (w, h'))
          (fds, same, (f, opened, ran)) =
        (fds, same, (o, path, f, parsed, given, mode_of-mode_name o.mode, opened, ran))

    -- Whatever its command line, zcmesh_capture ends with the descriptors it held before, that of
    -- its client included; it ends with 1 and the network as it was, or still started if the
    -- endpoint of --listen is malformed, or it runs its loop over the file of --out and shuts the
    -- network down, and the loop sees no connection if the mode is udp, no datagram if it is tcp,
    -- and all if it is both.
    pub capture_main-Ended :
        (args : List (List ℕ)) (open_file : List ℕ → Option F) (w : W) (h : Held)
        → Ended args open_file h (capture_main (ledger host) api turns args open_file (w, h))
    unfolding capture_main
    capture_main-Ended args open_file w h = by_options (parse_capture args) refl
      where
        by_path :
            (o : CaptureOptions)
            → parse_capture args ≡ some o
            → (path : Option (List ℕ)) → o.out_path ≡ path
            → Ended args open_file h
                (capture_checked (ledger host) api turns o path open_file (w, h))
        by_path o parsed none missing = (refl, refl, inl refl)
        by_path o parsed (some path) given =
            of_options args open_file h o path parsed given
              (start_capture (ledger host) api turns o (open_file path) (w, h))
              (start_capture-EndedWith o (open_file path) w h)

        by_options :
            (p : Option CaptureOptions)
            → parse_capture args ≡ p
            → Ended args open_file h (capture_parsed (ledger host) api turns p open_file (w, h))
        by_options none bad = (refl, refl, inl refl)
        by_options (some o) parsed = by_path o parsed o.out_path refl
