-- ===== src/Hop/Start/Released.antt =====
-- What the relay of core-engine/src/hop.cpp holds of the system when it ends early or serves.
use zcmesh.Base.{
  ℕ, ◌+◌, ◌≡◌, refl, ◌∙◌, ap, arith, Bool, true, false, Bool-cases, inl, inr, Option, none, some,
  List, ◌∷◌,
}
use zcmesh.Net.Api.{Endpoint}
use zcmesh.Net.Endpoints.{parse_endpoint}
use zcmesh.Net.Udp.{UdpSocket, open_on, open_socket, close}
use zcmesh.Net.Host.{HostApi}
use zcmesh.Net.Host.Ledger.{
  Held, ledger, ledger_udp, erase_self, SameHeld, opens, erase, binds, starts,
}
use zcmesh.Hop.Arguments.{HopOptions, parse_hop}
use zcmesh.Hop.Start.{
  HopStart, serves, exits, percentage, give_up_on, open_out, bind_listen, on_socket, start_network,
  hop_checked, hop_parsed, start_hop,
}

module _ {W : Type 0} (host : HostApi W) where
  abbrev pub Opened : Held → Bool → UdpSocket (W × Held) → Type 0
  Opened h true s =
      (fd : ℕ) × (s.fd ≡ some fd)
      × (s.system.1.fds ≡ fd ∷ h.fds)
      × (s.system.1.started ≡ h.started)
      × (s.system.1.bound ≡ h.bound)
  Opened h false s = (s.fd ≡ none) × SameHeld h (s.system.1)

  open_on-Opened :
      (r : Option ℕ) (w : W) (h : Held)
      → let (ok, s) = open_on (ledger_udp (host.udp)) (r, (w, opens r h)) in Opened h ok s
  unfolding open_on close
  open_on-Opened none w h = (refl, (refl, refl))
  open_on-Opened (some fd) w h = elim (Bool-cases (host.udp.set_nonblocking fd w).0) [
    | inl nonblocking ↦ rw nonblocking (fd, refl, refl, refl, refl)
    | inr blocking ↦ rw blocking (refl, (erase_self fd (h.fds), refl))
  ]

  -- A new `UdpSocket` that is opened.
  pub open_socket-Opened :
      (w : W) (h : Held)
      → let (ok, s) = open_socket (ledger_udp (host.udp)) (record { fd = none; system = (w, h) }) in
        Opened h ok s
  unfolding open_socket close
  open_socket-Opened w h =
      let (r, w1) = host.udp.socket (host.udp.close_socket none w) in open_on-Opened r w1 h

  -- What the relay holds, of what it held at its start.
  abbrev pub HopStarted : List (List ℕ) → Held → HopStart (W × Held) → Type 0
  HopStarted args h (exits code (w, h')) = (code ≡ 1) × SameHeld h h'
  HopStarted args h (serves r) =
      (o : HopOptions) × (listen_ep : List ℕ) × (forward_ep : List ℕ) × (parse_hop args ≡ some o)
      × (o.listen ≡ some listen_ep)
      × (o.forward ≡ some forward_ep)
      × (parse_endpoint forward_ep ≡ (true, r.forward))
      × (r.loss_pct ≡ percentage o.loss_pct)
      × (r.final_hop ≡ o.final_hop)
      × ((listen : Endpoint) × (parse_endpoint listen_ep ≡ (true, listen))
          × (r.out.system.1.bound ≡ (r.fd, listen) ∷ h.bound))
      × ((out_fd : ℕ) × (r.out.fd ≡ some out_fd) × (r.out.system.1.fds ≡ out_fd ∷ r.fd ∷ h.fds))
      × (r.out.system.1.started ≡ h.started + 1)

  give_up_on-SameHeld :
      (args : List (List ℕ)) (fd : ℕ) (w : W) (h h' : Held)
      → h'.fds ≡ fd ∷ h.fds
      → h'.started ≡ h.started + 1
      → HopStarted args h (give_up_on (ledger host) fd (w, h'))
  give_up_on-SameHeld args fd w h h' fds started =
      (refl, (ap (erase fd) fds ∙ erase_self fd (h.fds), omega (arith, started)))

  -- What the stages know of the options and the endpoints.
  abbrev pub Given : List (List ℕ) → HopOptions → List ℕ → List ℕ → Type 0
  Given args o listen_ep forward_ep =
      (parse_hop args ≡ some o)
      × (o.listen ≡ some listen_ep)
      × (o.forward ≡ some forward_ep)
      × ((parse_endpoint listen_ep).0 ≡ true)
      × ((parse_endpoint forward_ep).0 ≡ true)

  module _ (args : List (List ℕ)) (o : HopOptions) (listen_ep forward_ep : List ℕ)
      (given : Given args o listen_ep forward_ep) (h : Held) where
    open_out-Started :
        (fd : ℕ) (w : W) (h1 : Held)
        → h1.fds ≡ fd ∷ h.fds
        → h1.started ≡ h.started + 1
        → h1.bound ≡ (fd, (parse_endpoint listen_ep).1) ∷ h.bound
        → HopStarted args h (open_out (ledger host) o (parse_endpoint forward_ep).1 fd (w, h1))
    unfolding close
    open_out-Started fd w h1 fds started bound =
        by_open (open_socket (ledger_udp (host.udp)) (record { fd = none; system = (w, h1) })) refl
          (open_socket-Opened w h1)
      where
        by_open :
            (r : Bool × UdpSocket (W × Held))
            → open_socket (ledger_udp (host.udp)) (record { fd = none; system = (w, h1) }) ≡ r
            → Opened h1 r.0 r.1
            → HopStarted args h (open_out (ledger host) o (parse_endpoint forward_ep).1 fd (w, h1))
        by_open (true, out) e (out_fd, has, all, same, kept) = rw e (
          o,
          listen_ep,
          forward_ep,
          given.0,
          given.1,
          given.2,
          ap (λ b. (b, (parse_endpoint forward_ep).1)) given.4,
          refl,
          refl,
          (
            (parse_endpoint listen_ep).1,
            ap (λ b. (b, (parse_endpoint listen_ep).1)) given.3,
            kept ∙ bound,
          ),
          (out_fd, has, all ∙ ap (◌∷◌ out_fd) fds),
          omega (arith, same, started),
        )
        by_open (false, out) e (has, (same, up)) =
            rw (e, has)
              (
                refl,
                (ap (erase fd) (same ∙ fds) ∙ erase_self fd (h.fds), omega (arith, up, started)),
              )

    bind_listen-Started :
        (fd : ℕ) (w : W) (h1 : Held)
        → h1.fds ≡ fd ∷ h.fds
        → h1.started ≡ h.started + 1
        → h1.bound ≡ h.bound
        → HopStarted args h (
            bind_listen
              (ledger host)
              o
              (parse_endpoint listen_ep).1
              (parse_endpoint forward_ep).1
              fd
              (w, h1))
    bind_listen-Started fd w h1 fds started bound =
        let listen = (parse_endpoint listen_ep).1 in
        let (known, w1) = host.udp.resolve listen (host.udp.reuse_address fd w) in
        let (bound_ok, w2) = host.udp.bind fd listen w1 in
        elim (Bool-cases known) [
          | inr strange ↦ rw strange (give_up_on-SameHeld args fd w1 h h1 fds started)
          | inl found ↦ elim (Bool-cases bound_ok) [
            | inr refused ↦ rw (found, refused) (give_up_on-SameHeld args fd w2 h h1 fds started)
            | inl taken ↦
                rw (found, taken)
                  (open_out-Started fd w2 (binds true fd listen h1) fds started
                    (ap (◌∷◌ (fd, listen)) bound))
          ]
        ]

    on_socket-Started :
        (r : Option ℕ) (w : W) (h1 : Held)
        → h1.fds ≡ h.fds
        → h1.started ≡ h.started + 1
        → h1.bound ≡ h.bound
        → HopStarted args h (
            on_socket
              (ledger host)
              o
              (parse_endpoint listen_ep).1
              (parse_endpoint forward_ep).1
              (r, (w, opens r h1)))
    on_socket-Started none w h1 fds started bound = (refl, (fds, omega (arith, started)))
    on_socket-Started (some fd) w h1 fds started bound =
        bind_listen-Started fd w (opens (some fd) h1) (ap (◌∷◌ fd) fds) started bound

  start_network-Started :
      (args : List (List ℕ)) (o : HopOptions) (listen_ep forward_ep : List ℕ) (w : W) (h : Held)
      → parse_hop args ≡ some o
      → o.listen ≡ some listen_ep
      → o.forward ≡ some forward_ep
      → HopStarted args h (start_network (ledger host) o listen_ep forward_ep (w, h))
  start_network-Started args o listen_ep forward_ep w h parsed listening forwarding =
      let (up, w1) = host.net_init w in
      elim (Bool-cases up) [
        | inr down ↦ rw (down, starts) (refl, (refl, refl))
        | inl ready ↦ elim (Bool-cases (parse_endpoint listen_ep).0) [
          | inr bad ↦ rw (ready, bad) (refl, (refl, omega arith))
          | inl good ↦ elim (Bool-cases (parse_endpoint forward_ep).0) [
            | inr bad ↦ rw (ready, good, bad) (refl, (refl, omega arith))
            | inl fine ↦
                let (r, w2) = host.udp.socket w1 in
                rw (ready, good, fine)
                  (on_socket-Started args o listen_ep forward_ep
                    (parsed, listening, forwarding, good, fine) h r w2 (starts true h) refl refl
                    refl)
          ]
        ]
      ]

  hop_parsed-Started :
      (args : List (List ℕ)) (w : W) (h : Held) (p : Option HopOptions)
      → parse_hop args ≡ p
      → HopStarted args h (hop_parsed (ledger host) p (w, h))
  hop_parsed-Started args w h none e = (refl, (refl, refl))
  hop_parsed-Started args w h (some o) e = by_endpoints (o.listen) (o.forward) refl refl
    where
      by_endpoints :
          (l f : Option (List ℕ))
          → o.listen ≡ l
          → o.forward ≡ f
          → HopStarted args h (hop_checked (ledger host) o l f (w, h))
      by_endpoints (some l) (some f) p q = start_network-Started args o l f w h e p q
      by_endpoints (some l) none p q = (refl, (refl, refl))
      by_endpoints none f p q = (refl, (refl, refl))

  -- Whatever its command line, the relay exits with 1, holding no descriptor and no network start
  -- that it did not hold before, or it serves with two open descriptors more, of which the first
  -- is bound to the endpoint of --listen, with one network start, the target of --forward, the
  -- loss in percent and the final flag that it was given.
  pub start_hop-HopStarted :
      (args : List (List ℕ)) (w : W) (h : Held)
      → HopStarted args h (start_hop (ledger host) args (w, h))
  unfolding start_hop
  start_hop-HopStarted args w h = hop_parsed-Started args w h (parse_hop args) refl
