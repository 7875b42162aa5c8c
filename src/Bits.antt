-- ===== src/Bits.antt =====
-- Laws of the native `bit_xor`, `bit_and` and `bit_or` at variables, which the word code of
-- core-engine/src/frame.cpp and router.cpp rests on.
pub mod Digits
pub mod Xor
pub mod Powers
pub mod Masks
