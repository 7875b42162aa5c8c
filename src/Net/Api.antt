-- ===== src/Net/Api.antt =====
-- What the batch, the router and the edge use of the sockets of core-engine/include/net.hpp: an
-- interface over any state `W` of the sockets and the system behind them.
use zcmesh.Base.{ℕ, ◌≤◌, ◌≡◌, Bool, false, List, ◌++◌, Option, none, some, take, length, [], ◌∷◌}

pub record Endpoint : Type 0 where
  pub host : List ℕ
  pub port : ℕ

-- `TcpClient`. The result of `send_nb` is the number of bytes accepted, 0 where it would block, and
-- `none` for -1.
pub record TcpApi (W : Type 0) : Type 0 where
  pub connected : W → Bool
  pub send_nb : List ℕ → W → Option ℕ × W
  pub connect : Endpoint → W → Bool × W
  pub close : W → W

-- What its clients rely on.
pub record IsTcp {W : Type 0} (tcp : TcpApi W) : Type 0 where
  pub send_le :
      (bytes : List ℕ) (w : W) (n : ℕ) → (tcp.send_nb bytes w).0 ≡ some n → n ≤ length bytes
  pub connect_lem : (e : Endpoint) (w : W) → tcp.connected (tcp.connect e w).1 ≡ (tcp.connect e w).0
  pub close_lem : (w : W) → tcp.connected (tcp.close w) ≡ false

-- `UdpSocket::send_to`
pub record UdpApi (W : Type 0) : Type 0 where
  pub send_to : Endpoint → List ℕ → W → Bool × W

-- The bytes that a send has taken.
abbrev pub accepted : List ℕ → Option ℕ → List ℕ
accepted bytes none = []
accepted bytes (some n) = take n bytes

-- The same socket, with all the bytes that it has accepted recorded in order.
abbrev pub recorded : {W : Type 0} → TcpApi W → TcpApi (W × List ℕ)
recorded tcp = record {
  connected = λ s. tcp.connected s.0;
  send_nb = λ bytes s. let (r, w) = tcp.send_nb bytes s.0 in (r, (w, s.1 ++ accepted bytes r));
  connect = λ e s. let (r, w) = tcp.connect e s.0 in (r, (w, s.1));
  close = λ s. (tcp.close s.0, s.1);
}

-- The same socket, with every datagram that it is asked to send recorded in order, and whether it
-- went out.
pub record Datagram : Type 0 where
  pub to : Endpoint
  pub bytes : List ℕ
  pub sent : Bool

abbrev pub logged : {W : Type 0} → UdpApi W → UdpApi (W × List Datagram)
logged udp = record {
  send_to = λ e bytes s.
      let (r, w) = udp.send_to e bytes s.0 in
      (r, (w, s.1 ++ record { to = e; bytes = bytes; sent = r } ∷ []));
}
