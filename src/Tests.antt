-- ===== src/Tests.antt =====
-- Tests, and each theorem at a concrete input.
mod Wire
mod Batch
mod Router
mod Edge
mod Receivers
mod Files
mod System
mod Programs
