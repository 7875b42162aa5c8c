-- ===== src/Net/Host.antt =====
-- What the programs' set-up asks of the system, behind core-engine/src/net.cpp and in their own `main`: the
-- datagram sockets of Udp, stream sockets, the descriptor of a connection that is accepted, and `net_init` and `net_shutdown`.
pub mod Ledger
use zcmesh.Base.{ℕ, Bool, List, Option}
use zcmesh.Net.Udp.{UdpSystem}

pub record HostApi (W : Type 0) : Type 0 where
  pub udp : UdpSystem W
  pub stream_socket : W → Option ℕ × W
  pub listen : ℕ → W → Bool × W
  pub accept : W → ℕ × W
  pub net_init : W → Bool × W
  pub net_shutdown : W → W
