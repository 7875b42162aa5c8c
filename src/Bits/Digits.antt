-- ===== src/Bits/Digits.antt =====
-- One equation for the lowest binary digit of each bit operation.
use Prim.Native.Nat.{digits, differ, bitwise}
use Prim.Native.Nat.{bit_and-bitwise, bit_or-bitwise, bit_xor-bitwise}
use native.Mathlib.Nat.{le_refl}
use zcmesh.Base.{
  ℕ, zero, suc, ◌+◌, ◌-◌, ◌*◌, ◌/◌, ◌%◌, ◌≤◌, ◌<◌, min, max, bit_and, bit_or, bit_xor, ◌≡◌, refl,
  subst, arith,
}

-- `digits` takes one digit a round; rounds that are left over change nothing.
module _ (base : ℕ → ℕ) (digit : ℕ → ℕ → ℕ) where
  left_over :
      (spare rounds x y : ℕ)
      → x ≤ rounds
      → digits base digit (rounds + spare) x y ≡ digits base digit rounds x y
  left_over zero rounds x y h = let same : rounds + 0 ≡ rounds = omega arith in rw same
  left_over (suc spare) zero zero y h = let e : 0 + suc spare ≡ suc spare = omega arith in rw e refl
  left_over (suc spare) zero (suc x) y h = absurd (omega arith)
  left_over (suc spare) (suc rounds) zero y h =
      let e : suc rounds + suc spare ≡ suc (rounds + suc spare) = omega arith in rw e refl
  left_over (suc spare) (suc rounds) (suc x) y h =
      let e : suc rounds + suc spare ≡ suc (rounds + suc spare) = omega arith in
      rw (e, left_over (suc spare) rounds (suc x / 2) (y / 2) (omega arith)) refl

  lowest :
      (x y : ℕ)
      → bitwise base digit (suc x) y
        ≡ digit (suc x % 2) (y % 2) + 2 * bitwise base digit (suc x / 2) (y / 2)
  lowest x y =
      let half = suc x / 2 in
      let spare : half + (x - half) ≡ x = omega arith in
      let rest : digits base digit x half (y / 2) ≡ bitwise base digit half (y / 2) =
        subst (λ n. digits base digit n half (y / 2) ≡ bitwise base digit half (y / 2)) spare
          (left_over (x - half) half half (y / 2) (le_refl half)) in
      omega (arith, rest)

pub bit_and_step : (x y : ℕ) → bit_and x y ≡ min (x % 2) (y % 2) + 2 * bit_and (x / 2) (y / 2)
bit_and_step zero y = simp bit_and-bitwise (omega arith)
bit_and_step (suc x) y = simp bit_and-bitwise (lowest (λ d. 0) min x y)

bit_or_step : (x y : ℕ) → bit_or x y ≡ max (x % 2) (y % 2) + 2 * bit_or (x / 2) (y / 2)
bit_or_step zero y = simp bit_or-bitwise (omega arith)
bit_or_step (suc x) y = simp bit_or-bitwise (lowest (λ d. d) max x y)

-- Two digits differ where their sum is odd.
differ-sum : (x y : ℕ) → x < 2 → y < 2 → differ x y ≡ (x + y) % 2
differ-sum zero zero h k = refl
differ-sum zero (suc zero) h k = refl
differ-sum zero (suc (suc y)) h k = absurd (omega arith)
differ-sum (suc zero) zero h k = refl
differ-sum (suc zero) (suc zero) h k = refl
differ-sum (suc zero) (suc (suc y)) h k = absurd (omega arith)
differ-sum (suc (suc x)) y h k = absurd (omega arith)

pub bit_xor_step : (x y : ℕ) → bit_xor x y ≡ (x % 2 + y % 2) % 2 + 2 * bit_xor (x / 2) (y / 2)
bit_xor_step zero y = simp bit_xor-bitwise (omega arith)
bit_xor_step (suc x) y = simp bit_xor-bitwise (
    omega (
      arith,
      lowest (λ d. d) differ x y,
      differ-sum (suc x % 2) (y % 2) (omega arith) (omega arith),
    ))
