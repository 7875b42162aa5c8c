-- ===== src/Net/Udp.antt =====
-- `UdpSocket` of core-engine/src/net.cpp over the system's sockets, in its branch for POSIX systems.
pub mod Attempts
use zcmesh.Base.{
  ℕ, not, ◌||◌, Bool, true, false, Option, none, some, List, [], ◌∷◌, length, ◌==◌, if◌then◌else◌,
}
use zcmesh.Net.Api.{Endpoint, UdpApi}

-- What `connect` answers: done, or EISCONN, or another error.
pub data Associating : Type 0 where
  associated is_connected unreachable : Associating

-- What `recvfrom` answers: the bytes that fit the buffer, or would block, or an error.
pub data Receipt : Type 0 where
  received : List ℕ → Receipt
  no_datagram broken : Receipt

abbrev pub receipt_bytes : Receipt → Option (List ℕ)
receipt_bytes (received bytes) = some bytes
receipt_bytes no_datagram = some []
receipt_bytes broken = none

-- The system calls. A socket is a number, -1 of a send is `none`, `resolve` is that `fill_sockaddr` knows
-- the address, and `dissociate` is the `connect` to AF_UNSPEC.
pub record UdpSystem (W : Type 0) : Type 0 where
  pub socket : W → Option ℕ × W
  pub set_nonblocking : ℕ → W → Bool × W
  pub resolve : Endpoint → W → Bool × W
  pub reuse_address : ℕ → W → W
  pub bind : ℕ → Endpoint → W → Bool × W
  pub recvfrom : ℕ → ℕ → W → Receipt × W
  pub connect : ℕ → Endpoint → W → Associating × W
  pub send : ℕ → List ℕ → W → Option ℕ × W
  pub sendto : ℕ → Endpoint → List ℕ → W → Option ℕ × W
  pub dissociate : ℕ → W → W
  pub close_socket : Option ℕ → W → W

-- The socket and the system behind it.
pub record UdpSocket (W : Type 0) : Type 0 where
  pub fd : Option ℕ
  pub system : W

-- `n == len`
abbrev pub took_all : Option ℕ → List ℕ → Bool
took_all none bytes = false
took_all (some n) bytes = n == length bytes

module _ {W : Type 0} (sys : UdpSystem W) where
  unfoldable pub close : UdpSocket W → UdpSocket W
  close s = record { fd = none; system = sys.close_socket s.fd s.system }

  -- what `open` does with the answer of `socket`
  unfoldable pub open_on : Option ℕ × W → Bool × UdpSocket W
  open_on (none, w) = (false, record { fd = none; system = w })
  open_on (some fd, w) =
      let (nonblocking, w') = sys.set_nonblocking fd w in
      let opened : UdpSocket W = record { fd = some fd; system = w' } in
      if not nonblocking then (false, close opened) else (true, opened)

  unfoldable pub open_socket : UdpSocket W → Bool × UdpSocket W
  open_socket s = open_on (sys.socket (close s).system)

  unfoldable pub bind : Endpoint → UdpSocket W → Bool × UdpSocket W
  bind ep s = elim s.fd [
    | none ↦ (false, s)
    | some fd ↦
        let (known, w) = sys.resolve ep s.system in
        let (bound, w') = sys.bind fd ep (sys.reuse_address fd w) in
        if not known then (false, record s { system = w }) else (bound, record s { system = w' })
  ]

  -- The bytes received, none of them for 0, or `none` for -1.
  unfoldable pub recv_nb : ℕ → UdpSocket W → Option (List ℕ) × UdpSocket W
  recv_nb len s = elim s.fd [
    | none ↦ (none, s)
    | some fd ↦
        let (answer, w) = sys.recvfrom fd len s.system in
        if len == 0 then (none, s) else (receipt_bytes answer, record s { system = w })
  ]

  -- `send_to` on the socket `fd`, from the association on
  unfoldable pub deliver_on : ℕ → Endpoint → List ℕ → W → Bool × W
  deliver_on fd ep bytes w =
      let (answer, w1) = sys.connect fd ep w in
      let (direct, w2) = sys.sendto fd ep bytes w1 in
      let (sent, w3) = sys.send fd bytes w1 in
      elim answer [
        | associated ↦ (took_all sent bytes, sys.dissociate fd w3)
        | is_connected ↦ (took_all sent bytes, sys.dissociate fd w3)
        | unreachable ↦ (took_all direct bytes, w2)
      ]

  unfoldable pub send_to : Endpoint → List ℕ → UdpSocket W → Bool × UdpSocket W
  send_to ep bytes s = elim s.fd [
    | none ↦ (false, s)
    | some fd ↦
        let (known, w) = sys.resolve ep s.system in
        let (sent, w') = deliver_on fd ep bytes w in
        if length bytes == 0
        then (false, s)
        else if not known
        then (false, record s { system = w })
        else (sent, record s { system = w' })
  ]

  -- The socket as its users see it.
  abbrev pub socket_api : UdpApi (UdpSocket W)
  socket_api = record { send_to = λ ep bytes s. send_to ep bytes s }
