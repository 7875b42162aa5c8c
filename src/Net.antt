-- ===== src/Net.antt =====
-- core-engine/src/net.cpp and include/net.hpp. The other components know the sockets by `Net.Api`.
pub mod Api
pub mod Client
pub mod Endpoints
pub mod Udp
pub mod Host
