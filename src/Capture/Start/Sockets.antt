-- ===== src/Capture/Start/Sockets.antt =====
-- What the receiver of core-engine/src/capture.cpp holds of the system once its sockets listen.
use zcmesh.Base.{
  ℕ, ◌+◌, ◌≡◌, refl, ◌∙◌, ap, inl, inr, arith, true, Bool-cases, Option, none, some, List, ◌∷◌,
}
use zcmesh.Net.Api.{Endpoint}
use zcmesh.Net.Host.{HostApi}
use zcmesh.Net.Host.Ledger.{Held, ledger, opens, binds, erase_self, both_fds, closes_both}
use zcmesh.Capture.Arguments.{Mode, has_udp, has_tcp}
use zcmesh.Capture.Start.{
  Ports, Listening, ready, refused, on_udp_socket, listen_udp, on_tcp_socket, listen_tcp,
}

stream_first :
    (udp : Option ℕ) (fd : ℕ) (xs : List ℕ) → fd ∷ both_fds udp none xs ≡ both_fds udp (some fd) xs
stream_first none fd xs = refl
stream_first (some u) fd xs = refl

module _ {W : Type 0} (host : HostApi W) where
  -- The network is started and the ports are the only descriptors more, or nothing is held.
  abbrev pub Listens : Held → Listening (W × Held) → Type 0
  Listens h (ready p (w, h')) =
      (h'.fds ≡ both_fds p.udp_fd p.tcp_fd h.fds) × (h'.started ≡ h.started + 1)
  Listens h (refused (w, h')) = (h'.fds ≡ h.fds) × (h'.started ≡ h.started)

  -- The same before there is a stream socket.
  abbrev pub ListensUdp : Held → Listening (W × Held) → Type 0
  ListensUdp h (ready p (w, h')) =
      (p.tcp_fd ≡ none) × (h'.fds ≡ both_fds p.udp_fd none h.fds) × (h'.started ≡ h.started + 1)
  ListensUdp h (refused (w, h')) = (h'.fds ≡ h.fds) × (h'.started ≡ h.started)

  module _ (ep : Endpoint) (h : Held) where
    on_udp_socket-ListensUdp :
        (r : Option ℕ) (w : W) (h1 : Held)
        → h1.fds ≡ h.fds
        → h1.started ≡ h.started + 1
        → ListensUdp h (on_udp_socket (ledger host) ep (r, (w, opens r h1)))
    on_udp_socket-ListensUdp none w h1 fds up = (fds, omega (arith, up))
    on_udp_socket-ListensUdp (some fd) w h1 fds up =
        elim (Bool-cases (host.udp.bind fd ep (host.udp.reuse_address fd w)).0) [
          | inl bound ↦ rw bound (refl, ap (◌∷◌ fd) fds, up)
          | inr busy ↦ rw busy (erase_self fd (h1.fds) ∙ fds, omega (arith, up))
        ]

    pub listen_udp-ListensUdp :
        (mode : Mode) (w : W) (h1 : Held)
        → h1.fds ≡ h.fds
        → h1.started ≡ h.started + 1
        → ListensUdp h (listen_udp (ledger host) mode ep (w, h1))
    listen_udp-ListensUdp mode w h1 fds up = elim (Bool-cases (has_udp mode)) [
      | inl on ↦ let (r, w1) = host.udp.socket w in rw on (on_udp_socket-ListensUdp r w1 h1 fds up)
      | inr off ↦ rw off (refl, fds, up)
    ]

    on_tcp_socket-Listens :
        (p : Ports) (r : Option ℕ) (w : W) (h1 : Held)
        → h1.fds ≡ both_fds p.udp_fd none h.fds
        → h1.started ≡ h.started + 1
        → Listens h (on_tcp_socket (ledger host) ep p (r, (w, opens r h1)))
    on_tcp_socket-Listens p none w h1 fds up =
        let shut = closes_both p.udp_fd none h1 h.fds fds in (shut.0, omega (arith, shut.2, up))
    on_tcp_socket-Listens p (some fd) w h1 fds up =
        let (bound, w1) = host.udp.bind fd ep (host.udp.reuse_address fd w) in
        let (listening, w2) = host.listen fd w1 in
        let all : fd ∷ h1.fds ≡ both_fds p.udp_fd (some fd) h.fds =
          ap (◌∷◌ fd) fds ∙ stream_first p.udp_fd fd h.fds in
        let here : Held = opens (some fd) h1 in
        elim (Bool-cases bound) [
          | inr busy ↦
              let shut = closes_both p.udp_fd (some fd) here h.fds all in
              rw busy (shut.0, omega (arith, shut.2, up))
          | inl taken ↦
              let tied : Held = binds true fd ep here in
              elim (Bool-cases listening) [
                | inr deaf ↦
                    let shut = closes_both p.udp_fd (some fd) tied h.fds all in
                    rw (taken, deaf) (shut.0, omega (arith, shut.2, up))
                | inl hears ↦ rw (taken, hears) (all, up)
              ]
        ]

    pub listen_tcp-Listens :
        (mode : Mode) (l : Listening (W × Held))
        → ListensUdp h l
        → Listens h (listen_tcp (ledger host) mode ep l)
    listen_tcp-Listens mode (refused (w, h')) same = same
    listen_tcp-Listens mode (ready p (w, h')) (no_stream, fds, up) =
        elim (Bool-cases (has_tcp mode)) [
          | inl on ↦
              let (r, w1) = host.stream_socket w in rw on (on_tcp_socket-Listens p r w1 h' fds up)
          | inr off ↦ rw (off, no_stream) (fds, up)
        ]
