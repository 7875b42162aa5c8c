-- ===== src/Batch/Pacing.antt =====
-- The soft flush target under backpressure.
use zcmesh.Base.{
  ℕ, zero, suc, ◌+◌, ◌/◌, ◌^◌, ◌<◌, min, max, ◌≡◌, arith, Bool, false, if◌then◌else◌, ltb,
}
use native.Mathlib.Nat.{pow-suc}
use zcmesh.Batch.{FrameBatch, adapt}
use zcmesh.Batch.Validity.{IsValid, adapt-IsValid}

-- Of a valid batch, adapt halves the flush target down to 1 after a stall or more than 2 ms,
-- raises it by one up to the capacity below 0.2 ms, and changes nothing else.
adapt_lem :
    (b : FrameBatch) (sent : Bool) (ns : ℕ)
    → IsValid b
    → let target =
        if sent
        then (if ltb 2000000 ns
            then max 1 (b.flush_at / 2)
            else if ltb ns 200000
            then min b.capacity (b.flush_at + 1)
            else b.flush_at)
        else max 1 (b.flush_at / 2) in
      adapt b sent ns ≡ record b { flush_at = target }
unfolding adapt
adapt_lem b sent ns v = ground arith

-- `n` flushes in a row that stall.
abbrev pub stalls : ℕ → FrameBatch → FrameBatch
stalls zero b = b
stalls (suc n) b = stalls n (adapt b false 0)

-- Of a valid batch whose flush target is below 2^(n+1), n stalls in a row bring the target to 1.
stalls-flush_at :
    (n : ℕ) (b : FrameBatch) → IsValid b → b.flush_at < 2 ^ suc n → (stalls n b).flush_at ≡ 1
stalls-flush_at zero b v h = omega arith
stalls-flush_at (suc n) b v h =
    stalls-flush_at n (adapt b false 0) (adapt-IsValid b false 0 v) halved
  where
    halved : (adapt b false 0).flush_at < 2 ^ suc n
    halved = unfold adapt in omega (arith, pow-suc 2 (suc n), pow-suc 2 n)
