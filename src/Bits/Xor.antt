-- ===== src/Bits/Xor.antt =====
-- `^` at variables: an abelian group of exponent two, within every width, and linear in shifts.
use native.Mathlib.Nat.{pow-suc}
use zcmesh.Base.{ℕ, zero, suc, ◌+◌, ◌*◌, ◌/◌, ◌%◌, ◌^◌, ◌≤◌, ◌<◌, bit_xor, ◌≡◌, sym, ◌∙◌, ap, arith}
use zcmesh.Bits.Digits.{bit_xor_step}

-- In each induction the first argument bounds the operands: one more binary digit a round.
xor_comm_fuel : (n a b : ℕ) → a ≤ n → b ≤ n → bit_xor a b ≡ bit_xor b a
xor_comm_fuel zero a b p q = let e : a ≡ 0 = omega arith in let d : b ≡ 0 = omega arith in rw (e, d)
xor_comm_fuel (suc n) a b p q = omega (
  arith,
  bit_xor_step a b,
  bit_xor_step b a,
  xor_comm_fuel n (a / 2) (b / 2) (omega arith) (omega arith),
)

pub xor_comm : (a b : ℕ) → bit_xor a b ≡ bit_xor b a
xor_comm a b = xor_comm_fuel (a + b) a b (omega arith) (omega arith)

xor-zero_fuel : (n a : ℕ) → a ≤ n → bit_xor a 0 ≡ a
xor-zero_fuel zero a p = let e : a ≡ 0 = omega arith in rw e
xor-zero_fuel (suc n) a p = omega (arith, bit_xor_step a 0, xor-zero_fuel n (a / 2) (omega arith))

pub xor-zero : (a : ℕ) → bit_xor a 0 ≡ a
xor-zero a = xor-zero_fuel a a (omega arith)

zero-xor : (a : ℕ) → bit_xor 0 a ≡ a
zero-xor a = xor_comm 0 a ∙ xor-zero a

xor_self_fuel : (n a : ℕ) → a ≤ n → bit_xor a a ≡ 0
xor_self_fuel zero a p = let e : a ≡ 0 = omega arith in rw e
xor_self_fuel (suc n) a p = omega (arith, bit_xor_step a a, xor_self_fuel n (a / 2) (omega arith))

xor_self : (a : ℕ) → bit_xor a a ≡ 0
xor_self a = xor_self_fuel a a (omega arith)

pub xor-half : (a b : ℕ) → bit_xor a b / 2 ≡ bit_xor (a / 2) (b / 2)
xor-half a b = omega (arith, bit_xor_step a b)

pub xor-parity : (a b : ℕ) → bit_xor a b % 2 ≡ (a % 2 + b % 2) % 2
xor-parity a b = omega (arith, bit_xor_step a b)

xor_assoc_fuel :
    (n a b c : ℕ) → a ≤ n → b ≤ n → c ≤ n → bit_xor (bit_xor a b) c ≡ bit_xor a (bit_xor b c)
xor_assoc_fuel zero a b c p q r =
    let e : a ≡ 0 = omega arith in
    let d : b ≡ 0 = omega arith in let g : c ≡ 0 = omega arith in rw (e, d, g)
xor_assoc_fuel (suc n) a b c p q r = ground (
  arith,
  bit_xor_step (bit_xor a b) c,
  bit_xor_step a (bit_xor b c),
  xor-half a b,
  xor-half b c,
  xor-parity a b,
  xor-parity b c,
  xor_assoc_fuel n (a / 2) (b / 2) (c / 2) (omega arith) (omega arith) (omega arith),
)

pub xor_assoc : (a b c : ℕ) → bit_xor (bit_xor a b) c ≡ bit_xor a (bit_xor b c)
xor_assoc a b c = xor_assoc_fuel (a + b + c) a b c (omega arith) (omega arith) (omega arith)

-- What is combined twice cancels.
pub xor_cancel : (a b : ℕ) → bit_xor a (bit_xor a b) ≡ b
xor_cancel a b = sym (xor_assoc a a b) ∙ ap (λ t. bit_xor t b) (xor_self a) ∙ zero-xor b

pub xor-injective : (a b c : ℕ) → bit_xor a b ≡ bit_xor a c → b ≡ c
xor-injective a b c h = sym (xor_cancel a b) ∙ ap (bit_xor a) h ∙ xor_cancel a c

pub xor-injective_left : (a b c : ℕ) → bit_xor b a ≡ bit_xor c a → b ≡ c
xor-injective_left a b c h = xor-injective a b c (xor_comm a b ∙ h ∙ xor_comm c a)

pub xor-lt : (k a b : ℕ) → a < 2 ^ k → b < 2 ^ k → bit_xor a b < 2 ^ k
xor-lt zero a b p q =
    let e : a ≡ 0 = omega arith in let d : b ≡ 0 = omega arith in rw (e, d) (omega arith)
xor-lt (suc k) a b p q = omega (
  arith,
  pow-suc 2 k,
  bit_xor_step a b,
  xor-lt k (a / 2) (b / 2) (omega (arith, pow-suc 2 k)) (omega (arith, pow-suc 2 k)),
)

xor-quarter : (a b : ℕ) → bit_xor a b / 4 ≡ bit_xor (a / 4) (b / 4)
xor-quarter a b = ground (arith, xor-half a b, xor-half (a / 2) (b / 2))

xor-sixteenth : (a b : ℕ) → bit_xor a b / 16 ≡ bit_xor (a / 16) (b / 16)
xor-sixteenth a b = ground (arith, xor-quarter a b, xor-quarter (a / 4) (b / 4))

-- `x >> 8` distributes over `^`.
pub xor-shift_byte : (a b : ℕ) → bit_xor a b / 256 ≡ bit_xor (a / 256) (b / 256)
xor-shift_byte a b = ground (arith, xor-sixteenth a b, xor-sixteenth (a / 16) (b / 16))

one_bit_more : (bits n : ℕ) → 2 * (n * 2 ^ bits) ≡ n * 2 ^ suc bits
one_bit_more bits n = let double = pow-suc 2 bits in rw double (omega arith)

-- Fields that do not overlap combine to their sum.
pub xor-fields : (k q r : ℕ) → r < 2 ^ k → bit_xor (q * 2 ^ k) r ≡ q * 2 ^ k + r
xor-fields zero q r h = let e : r ≡ 0 = omega arith in rw (e, xor-zero) (omega arith)
xor-fields (suc k) q r h = ground (
  arith,
  bit_xor_step (q * 2 ^ suc k) r,
  one_bit_more k q,
  xor-fields k q (r / 2) (omega (arith, pow-suc 2 k)),
)
