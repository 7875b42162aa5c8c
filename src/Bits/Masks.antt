-- ===== src/Bits/Masks.antt =====
-- `&` with a mask of low ones is a remainder.
use zcmesh.Base.{ℕ, zero, suc, ◌+◌, ◌*◌, ◌/◌, ◌%◌, ◌≤◌, bit_and, ◌≡◌, arith}
use zcmesh.Bits.Digits.{bit_and_step}

bit_and-zero_fuel : (n a : ℕ) → a ≤ n → bit_and a 0 ≡ 0
bit_and-zero_fuel zero a p = let e : a ≡ 0 = omega arith in rw e
bit_and-zero_fuel (suc n) a p =
    omega (arith, bit_and_step a 0, bit_and-zero_fuel n (a / 2) (omega arith))

bit_and_nibble : (a : ℕ) → bit_and a 15 ≡ a % 16
bit_and_nibble a = omega (
  arith,
  bit_and_step a 15,
  bit_and_step (a / 2) 7,
  bit_and_step (a / 2 / 2) 3,
  bit_and_step (a / 2 / 2 / 2) 1,
  bit_and-zero_fuel a (a / 2 / 2 / 2 / 2) (omega arith),
)

bit_and_shift : (a m : ℕ) → bit_and a (m * 16 + 15) ≡ bit_and (a / 16) m * 16 + a % 16
bit_and_shift a m = ground (
  arith,
  bit_and_step a (m * 16 + 15),
  bit_and_step (a / 2) (m * 8 + 7),
  bit_and_step (a / 4) (m * 4 + 3),
  bit_and_step (a / 8) (m * 2 + 1),
)

-- `x & 0xFF`
pub bit_and_byte : (a : ℕ) → bit_and a 255 ≡ a % 256
bit_and_byte a = omega (arith, bit_and_shift a 15, bit_and_nibble (a / 16))

-- `x & 0xFFFF`
pub bit_and_u16 : (a : ℕ) → bit_and a 65535 ≡ a % 65536
bit_and_u16 a =
    omega (arith, bit_and_shift a 4095, bit_and_shift (a / 16) 255, bit_and_byte (a / 16 / 16))

-- `x & 0xFFFFFFFF`
pub bit_and_u32 : (a : ℕ) → bit_and a 4294967295 ≡ a % 4294967296
bit_and_u32 a = omega (
  arith,
  bit_and_shift a 268435455,
  bit_and_shift (a / 16) 16777215,
  bit_and_shift (a / 16 / 16) 1048575,
  bit_and_shift (a / 16 / 16 / 16) 65535,
  bit_and_u16 (a / 16 / 16 / 16 / 16),
)

-- `x & 1`
pub bit_and_one : (a : ℕ) → bit_and a 1 ≡ a % 2
bit_and_one a = omega (arith, bit_and_step a 1, bit_and-zero_fuel a (a / 2) (omega arith))
