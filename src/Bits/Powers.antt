-- ===== src/Bits/Powers.antt =====
-- Masks that are powers of two, or clear the bits below one.
use zcmesh.Base.{
  ℕ, zero, suc, ◌-◌, ◌*◌, ◌/◌, ◌%◌, ◌^◌, ◌≤◌, ◌<◌, ◌≡◌, refl, sym, ◌∙◌, ap, ap₂, arith, bit_and,
}
use native.Mathlib.Nat.{div-div-eq-div-mul}
use zcmesh.Bits.Digits.{bit_and_step}

pub pow-pos : (k : ℕ) → 0 < 2 ^ k
pow-pos zero = omega arith
pow-pos (suc k) = omega (arith, pow-pos k)

-- `a & (a - 1)` of a power of two
pub bit_and-pow : (k : ℕ) → bit_and (2 ^ k) (2 ^ k - 1) ≡ 0
bit_and-pow zero = refl
bit_and-pow (suc k) =
    let half : (2 ^ suc k - 1) / 2 ≡ 2 ^ k - 1 = omega (arith, pow-pos k) in
    let half' : 2 ^ suc k / 2 ≡ 2 ^ k = omega arith in
    bit_and_step (2 ^ suc k) (2 ^ suc k - 1)
    ∙ rw (half, half', bit_and-pow k) (omega (arith, pow-pos k))

-- Clearing the low `k` bits of an `n`-bit number.
pub bit_and-high : (n k x : ℕ) → k ≤ n → x < 2 ^ n → bit_and x (2 ^ n - 2 ^ k) ≡ x / 2 ^ k * 2 ^ k
bit_and-high zero zero x h fits = let e : x ≡ 0 = omega arith in rw e refl
bit_and-high zero (suc k) x h fits = absurd (omega arith)
bit_and-high (suc n) zero x h fits =
    let half : (2 ^ suc n - 1) / 2 ≡ 2 ^ n - 1 = omega (arith, pow-pos n) in
    let ih = bit_and-high n zero (x / 2) (omega arith) (omega arith) in
    bit_and_step x (2 ^ suc n - 1) ∙ rw half (omega (arith, ih, pow-pos n))
bit_and-high (suc n) (suc k) x h fits =
    let half : (2 ^ suc n - 2 ^ suc k) / 2 ≡ 2 ^ n - 2 ^ k = omega arith in
    let ih = bit_and-high n k (x / 2) (omega arith) (omega arith) in
    let even : (2 ^ suc n - 2 ^ suc k) % 2 ≡ 0 = omega arith in
    let quotient : x / 2 / 2 ^ k ≡ x / (2 * 2 ^ k) = div-div-eq-div-mul x 2 (2 ^ k) in
    let twice : (x / 2 / 2 ^ k) * (2 * 2 ^ k) ≡ 2 * ((x / 2 / 2 ^ k) * 2 ^ k) = omega arith in
    let power : 2 ^ suc k ≡ 2 * 2 ^ k = omega arith in
    bit_and_step x (2 ^ suc n - 2 ^ suc k)
    ∙ rw (half, ih, even) (omega arith)
    ∙ sym twice
    ∙ ap₂ (λ q p. q * p) (quotient ∙ ap (λ p. x / p) (sym power)) (sym power)
