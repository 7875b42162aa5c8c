-- ===== src/Net/Client.antt =====
-- `TcpClient` of core-engine/src/net.cpp over the system's sockets, as its users see it.
use zcmesh.Base.{
  ℕ, ◌≤◌, ◌≡◌, refl, arith, not, ◌||◌, Bool, true, false, Option, none, some, List, length, ◌==◌,
  if◌then◌else◌,
}
use zcmesh.Net.Api.{Endpoint, TcpApi, IsTcp}

-- What `connect` answers: done, or under way (EINPROGRESS, WSAEWOULDBLOCK), or refused.
pub data Connecting : Type 0 where
  done under_way refused : Connecting

-- What `send` answers: the bytes taken, or would block, or an error.
pub data Sending : Type 0 where
  taken : ℕ → Sending
  blocked failed : Sending

-- The system calls. A socket is a number; `established` is that `select` finds the socket writable within
-- 50 ms and SO_ERROR is 0; `resolve` is that `fill_sockaddr` knows the address.
pub record SystemApi (W : Type 0) : Type 0 where
  pub socket : W → Option ℕ × W
  pub set_nonblocking : ℕ → W → Bool × W
  pub apply_socket_opts : ℕ → W → W
  pub resolve : Endpoint → W → Bool × W
  pub connect : ℕ → Endpoint → W → Connecting × W
  pub established : ℕ → W → Bool × W
  pub send : ℕ → List ℕ → W → Sending × W
  pub close_socket : Option ℕ → W → W

-- `send` takes no more than it is given.
pub record IsSystem {W : Type 0} (sys : SystemApi W) : Type 0 where
  pub taken_le :
      (fd : ℕ) (bytes : List ℕ) (w : W) (n : ℕ)
      → (sys.send fd bytes w).0 ≡ taken n
      → n ≤ length bytes

-- The client and the system behind it.
pub record TcpClient (W : Type 0) : Type 0 where
  pub fd : Option ℕ
  pub connected : Bool
  pub system : W

module _ {W : Type 0} (sys : SystemApi W) where
  unfoldable pub close : TcpClient W → TcpClient W
  close c = record { fd = none; connected = false; system = sys.close_socket c.fd c.system }

  -- `connect` on the socket `fd`, from the call of the system on
  unfoldable pub dial : Endpoint → ℕ → W → Bool × TcpClient W
  dial ep fd w =
      let (answer, w1) = sys.connect fd ep w in
      let (writable, w2) = sys.established fd w1 in
      let up : W → TcpClient W = λ w. record { fd = some fd; connected = true; system = w } in
      let down : W → TcpClient W = λ w. record { fd = some fd; connected = false; system = w } in
      elim answer [
        | done ↦ (true, up w1)
        | under_way ↦ (if writable then (true, up w2) else (false, close (down w2)))
        | refused ↦ (false, close (down w1))
      ]

  unfoldable pub connect : Endpoint → TcpClient W → Bool × TcpClient W
  connect ep c =
      let (sock, w0) = sys.socket (close c).system in
      elim sock [
        | none ↦ (false, record { fd = none; connected = false; system = w0 })
        | some fd ↦
            let (nonblocking, w1) = sys.set_nonblocking fd w0 in
            let (known, w2) = sys.resolve ep (sys.apply_socket_opts fd w1) in
            let down : W → TcpClient W =
              λ w. record { fd = some fd; connected = false; system = w } in
            if not nonblocking
            then (false, close (down w1))
            else if not known
            then (false, close (down w2))
            else dial ep fd w2
      ]

  unfoldable pub send_on : ℕ → List ℕ → TcpClient W → Option ℕ × TcpClient W
  send_on fd bytes c =
      let (answer, w) = sys.send fd bytes c.system in
      elim answer [
        | taken n ↦ (some n, record c { system = w })
        | blocked ↦ (some 0, record c { system = w })
        | failed ↦ (none, record c { connected = false; system = w })
      ]

  unfoldable pub send_nb : List ℕ → TcpClient W → Option ℕ × TcpClient W
  send_nb bytes c = elim c.fd [
    | none ↦ (none, c)
    | some fd ↦
        let sent = send_on fd bytes c in
        if not c.connected || (length bytes == 0) then (none, c) else sent
  ]

  -- The client as its users see it.
  abbrev pub client : TcpApi (TcpClient W)
  client = record {
    connected = λ c. c.connected;
    send_nb = λ bytes c. send_nb bytes c;
    connect = λ ep c. connect ep c;
    close = λ c. close c;
  }

  send_on_le :
      IsSystem sys
      → (fd : ℕ) (bytes : List ℕ) (c : TcpClient W) (n : ℕ) → (send_on fd bytes c).0 ≡ some n
      → n ≤ length bytes
  unfolding send_on
  send_on_le laws fd bytes c n e = grind (arith, laws.taken_le)

  send_nb_le :
      IsSystem sys
      → (bytes : List ℕ) (c : TcpClient W) (n : ℕ) → (send_nb bytes c).0 ≡ some n
      → n ≤ length bytes
  unfolding send_nb
  send_nb_le laws bytes c n e = grind (arith, send_on_le)

  dial_lem : (ep : Endpoint) (fd : ℕ) (w : W) → (dial ep fd w).1.connected ≡ (dial ep fd w).0
  unfolding dial close
  dial_lem ep fd w = ground arith

  connect_lem : (ep : Endpoint) (c : TcpClient W) → (connect ep c).1.connected ≡ (connect ep c).0
  unfolding connect close
  connect_lem ep c = grind (arith, dial_lem)

  -- Over a system whose send takes no more than it is given, TcpClient has the laws that the
  -- batch and the edge rely on: bounded sends, connect answers whether the client is connected,
  -- close disconnects.
  pub client-IsTcp : IsSystem sys → IsTcp client
  unfolding close
  client-IsTcp laws = record {
    send_le = λ bytes c n e. send_nb_le laws bytes c n e;
    connect_lem = λ ep c. connect_lem ep c;
    close_lem = λ c. refl;
  }
