-- ===== src/Router/Deliver.antt =====
-- `MeshRouter::deliver` of core-engine/src/router.cpp.
pub mod Handed
use zcmesh.Base.{
  ℕ, zero, suc, ◌+◌, Bool, true, ◌&&◌, List, drop, length, ltb, ◌==◌, if◌then◌else◌, none, some,
}
use zcmesh.Net.Api.{TcpApi, UdpApi}
use zcmesh.Router.{MeshRouter, forward_udp}

module _ {W : Type 0} (tcp : TcpApi W) (udp : UdpApi W) where
  -- `while (sent < len)`
  pub deliver_loop : ℕ → List ℕ → ℕ → W → ℕ × W
  deliver_loop zero bytes sent w = (sent, w)
  deliver_loop (suc fuel) bytes sent w =
      let (r, w') = tcp.send_nb (drop sent bytes) w in
      if ltb sent (length bytes)
      then elim r [
        | none ↦ (sent, w')
        | some zero ↦ (sent, w')
        | some (suc n) ↦ deliver_loop fuel bytes (sent + suc n) w'
      ]
      else (sent, w)

  -- Each turn sends a byte or ends.
  pub deliver : MeshRouter → ℕ → List ℕ → Bool → ℕ → W → Bool × MeshRouter × W
  deliver m node_id bytes prefer_tcp now_ns w =
      let (sent, w') = deliver_loop (length bytes + 1) bytes 0 w in
      if prefer_tcp && tcp.connected w
      then (if sent == length bytes
          then (true, m, w')
          else forward_udp udp m node_id bytes now_ns w')
      else forward_udp udp m node_id bytes now_ns w
