-- ===== src/Edge/Backoff.antt =====
-- Reconnecting: how long the edge waits, and loss injection.
use zcmesh.Base.{◌+◌, ◌*◌, ◌%◌, ◌^◌, ◌≤◌, ◌<◌, min, ◌≡◌, arith, true, false, ◌⊎◌}
use zcmesh.Net.Api.{Endpoint, IsTcp}
use zcmesh.Edge.{EdgeApi, ReconnectGate, try_connect}

abbrev pub IsGate : ReconnectGate → Type 0
IsGate g = (50 ≤ g.backoff_ms) × (g.backoff_ms ≤ 2000)

module _ {W : Type 0} (api : EdgeApi W) (laws : IsTcp api.tcp) where
  -- Over a TCP client with the client laws, try_connect keeps an open connection, waits before
  -- next_ns, resets the backoff when it connects, and doubles it up to 2 s and sets the next time
  -- when it does not.
  pub try_connect_lem :
      (gate : ReconnectGate) (ep : Endpoint) (w : W)
      → let now = (api.monotonic_ns w).0 in
        let (ok, gate', w') = try_connect api gate ep w in
        ((api.tcp.connected w ≡ true) × (ok ≡ true) × (gate' ≡ gate) × (w' ≡ w))
        ⊎ ((api.tcp.connected w ≡ false)
            × (now < gate.next_ns)
            × (ok ≡ false)
            × (gate' ≡ gate)
            × (w' ≡ (api.monotonic_ns w).1))
        ⊎ ((api.tcp.connected w ≡ false)
            × (gate.next_ns ≤ now)
            × (ok ≡ true)
            × (api.tcp.connected w' ≡ true)
            × (gate'.backoff_ms ≡ 50)
            × (gate'.next_ns ≡ 0))
        ⊎ ((api.tcp.connected w ≡ false)
            × (gate.next_ns ≤ now)
            × (ok ≡ false)
            × (api.tcp.connected w' ≡ false)
            × (gate'.backoff_ms ≡ min 2000 (gate.backoff_ms * 2))
            × (gate'.next_ns ≡ (now + gate.backoff_ms * 1000000) % 2 ^ 64))
  unfolding try_connect
  try_connect_lem gate ep w = ground (arith, laws.connect_lem ep (api.monotonic_ns w).1)

  -- Over a TCP client with the client laws, try_connect keeps the backoff between 50 ms and 2 s.
  try_connect-IsGate :
      (gate : ReconnectGate) (ep : Endpoint) (w : W)
      → IsGate gate
      → IsGate (try_connect api gate ep w).1
  unfolding try_connect
  try_connect-IsGate gate ep w v = ground arith
