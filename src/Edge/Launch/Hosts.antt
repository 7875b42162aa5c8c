-- ===== src/Edge/Launch/Hosts.antt =====
-- The system of core-engine/src/main.cpp with what its TCP connections have taken.
use zcmesh.Base.{List, ℕ}
use zcmesh.Edge.{taped, Link, linked}
use zcmesh.Edge.Launch.{EdgeHost}

-- The system with the bytes that TCP has accepted.
abbrev pub taped_host : {W : Type 0} → EdgeHost W → EdgeHost (W × List ℕ)
taped_host host = record {
  api = taped (host.api);
  slab = host.slab;
  net_init = λ s. let (r, w) = host.net_init s.0 in (r, (w, s.1));
  net_shutdown = λ s. (host.net_shutdown s.0, s.1);
  open_udp = λ s. let (r, w) = host.open_udp s.0 in (r, (w, s.1));
  open_control = λ s. let (r, w) = host.open_control s.0 in (r, (w, s.1));
  bind_control = λ ep s. let (r, w) = host.bind_control ep s.0 in (r, (w, s.1));
  open_file = λ path s. let (r, w) = host.open_file path s.0 in (r, (w, s.1));
}

-- The system with what a receiver has of each connection.
abbrev pub linked_host : {W : Type 0} → EdgeHost W → EdgeHost (W × Link)
linked_host host = record {
  api = linked (host.api);
  slab = host.slab;
  net_init = λ s. let (r, w) = host.net_init s.0 in (r, (w, s.1));
  net_shutdown = λ s. (host.net_shutdown s.0, s.1);
  open_udp = λ s. let (r, w) = host.open_udp s.0 in (r, (w, s.1));
  open_control = λ s. let (r, w) = host.open_control s.0 in (r, (w, s.1));
  bind_control = λ ep s. let (r, w) = host.bind_control ep s.0 in (r, (w, s.1));
  open_file = λ path s. let (r, w) = host.open_file path s.0 in (r, (w, s.1));
}
