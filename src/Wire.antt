-- ===== src/Wire.antt =====
-- shared/wire_frame.h and core-engine/src/frame.cpp: the 24-byte telemetry frame, its CRC, how a
-- frame is packed, verified and stamped by a hop.
pub mod Frame
pub mod Crc
pub mod Pack
pub mod Layout
