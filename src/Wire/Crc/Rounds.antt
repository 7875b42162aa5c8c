-- ===== src/Wire/Crc/Rounds.antt =====
-- Eight rounds of the shift register: linear over `^`, and one-to-one on 32-bit words.
use zcmesh.Base.{
  ℕ, zero, suc, ◌*◌, ◌/◌, ◌%◌, ◌^◌, ◌≤◌, ◌<◌, bit_xor, ◌≡◌, refl, sym, ◌∙◌, ap, arith, IsWord,
}
use native.Mathlib.Nat.{pow-suc}
use zcmesh.Bits.Masks.{bit_and_one}
use zcmesh.Bits.Xor.{
  xor_comm, xor_assoc, xor_cancel, xor-half, xor-parity, xor-injective, xor-lt, xor-fields,
}
use zcmesh.Wire.Crc.{crc_poly, crc_round, crc_rounds}

crc_round_even : (c : ℕ) → c % 2 ≡ 0 → crc_round c ≡ c / 2
unfolding crc_round
crc_round_even c h = ground (arith, bit_and_one c)

crc_round_odd : (c : ℕ) → c % 2 ≡ 1 → crc_round c ≡ bit_xor crc_poly (c / 2)
unfolding crc_round
crc_round_odd c h = ground (arith, bit_and_one c)

-- a variable polynomial keeps the rewriting away from the numeral
xor_both : (p a b : ℕ) → bit_xor (bit_xor p a) (bit_xor p b) ≡ bit_xor a b
xor_both p a b =
    ap (λ t. bit_xor t (bit_xor p b)) (xor_comm p a)
    ∙ xor_assoc a p (bit_xor p b)
    ∙ ap (bit_xor a) (xor_cancel p b)

xor_swap : (p a b : ℕ) → bit_xor p (bit_xor a b) ≡ bit_xor a (bit_xor p b)
xor_swap p a b = sym (xor_assoc p a b) ∙ ap (λ t. bit_xor t b) (xor_comm p a) ∙ xor_assoc a p b

crc_round-xor : (a b : ℕ) → crc_round (bit_xor a b) ≡ bit_xor (crc_round a) (crc_round b)
crc_round-xor a b = ground (
  arith,
  crc_round_even a,
  crc_round_odd a,
  crc_round_even b,
  crc_round_odd b,
  crc_round_even (bit_xor a b),
  crc_round_odd (bit_xor a b),
  xor-half a b,
  xor-parity a b,
  xor_both crc_poly (a / 2) (b / 2),
  xor_swap crc_poly (a / 2) (b / 2),
  xor_assoc crc_poly (a / 2) (b / 2),
)

pub crc_rounds-xor :
    (k a b : ℕ) → crc_rounds k (bit_xor a b) ≡ bit_xor (crc_rounds k a) (crc_rounds k b)
unfolding crc_rounds
crc_rounds-xor zero a b = refl
crc_rounds-xor (suc k) a b =
    ap (crc_rounds k) (crc_round-xor a b) ∙ crc_rounds-xor k (crc_round a) (crc_round b)

-- Bits above the rounds made are only shifted.
pub crc_rounds_high : (k h : ℕ) → crc_rounds k (h * 2 ^ k) ≡ h
unfolding crc_rounds
crc_rounds_high zero h = omega arith
crc_rounds_high (suc k) h = ap (crc_rounds k) halved ∙ crc_rounds_high k h
  where
    halved : crc_round (h * 2 ^ suc k) ≡ h * 2 ^ k
    halved = omega (
      arith,
      ap (λ (t : ℕ). h * t) (pow-suc 2 k),
      crc_round_even (h * 2 ^ suc k) (omega (arith, ap (λ (t : ℕ). h * t) (pow-suc 2 k))),
    )

crc_round-IsWord : (c : ℕ) → IsWord c → IsWord (crc_round c)
unfolding crc_round
crc_round-IsWord c h = ground (arith, xor-lt 32 crc_poly (c / 2) (omega arith) (omega arith))

-- The polynomial's top bit tells whether the bit shifted out was set.
poly_top : (c : ℕ) → c < 2 ^ 31 → 2 ^ 31 ≤ bit_xor crc_poly c
poly_top c h = omega (
  arith,
  xor_assoc (1 * 2 ^ 31) 0x6DB88320 c,
  xor-lt 31 0x6DB88320 c (omega arith) h,
  xor-fields 31 1 (bit_xor 0x6DB88320 c) (xor-lt 31 0x6DB88320 c (omega arith) h),
)

crc_round-injective : (a b : ℕ) → IsWord a → IsWord b → crc_round a ≡ crc_round b → a ≡ b
crc_round-injective a b p q h = ground (
  arith,
  crc_round_even a,
  crc_round_odd a,
  crc_round_even b,
  crc_round_odd b,
  poly_top (a / 2),
  poly_top (b / 2),
  xor-injective crc_poly (a / 2) (b / 2),
)

pub crc_rounds-IsWord : (k c : ℕ) → IsWord c → IsWord (crc_rounds k c)
unfolding crc_rounds
crc_rounds-IsWord zero c h = h
crc_rounds-IsWord (suc k) c h = crc_rounds-IsWord k (crc_round c) (crc_round-IsWord c h)

pub crc_rounds-injective :
    (k a b : ℕ) → IsWord a → IsWord b → crc_rounds k a ≡ crc_rounds k b → a ≡ b
unfolding crc_rounds
crc_rounds-injective zero a b p q h = h
crc_rounds-injective (suc k) a b p q h = crc_round-injective a b p q (
    crc_rounds-injective k (crc_round a) (crc_round b) (crc_round-IsWord a p) (crc_round-IsWord b q)
      h)
