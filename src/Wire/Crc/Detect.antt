-- ===== src/Wire/Crc/Detect.antt =====
-- What the CRC detects: any change within one byte.
use zcmesh.Base.{
  ℕ, ◌<◌, bit_xor, ◌≡◌, sym, ◌∙◌, arith, List, [], ◌∷◌, zero, suc, get_or, set, length, All, IsByte,
  IsWord,
}
use zcmesh.Bits.Xor.{xor-lt, xor-injective, xor-injective_left}
use zcmesh.Wire.Crc.{crc_update, crc_loop}
use zcmesh.Wire.Crc.Rounds.{crc_rounds-IsWord, crc_rounds-injective}
use zcmesh.Wire.Crc.Table.{crc_update-rounds}

pub crc_update-IsWord : (c p : ℕ) → IsWord c → IsByte p → IsWord (crc_update c p)
crc_update-IsWord c p h b =
    rw (crc_update-rounds c p b) (crc_rounds-IsWord 8 (bit_xor c p) (xor-lt 32 c p h (omega arith)))

crc_update-injective :
    (c d p q : ℕ)
    → IsWord c
    → IsWord d
    → IsByte p
    → IsByte q
    → crc_update c p ≡ crc_update d q
    → bit_xor c p ≡ bit_xor d q
crc_update-injective c d p q hc hd hp hq e =
    crc_rounds-injective 8 (bit_xor c p) (bit_xor d q) (xor-lt 32 c p hc (omega arith))
      (xor-lt 32 d q hd (omega arith))
      (sym (crc_update-rounds c p hp) ∙ e ∙ crc_update-rounds d q hq)

-- The register determines the register before, over the same bytes.
crc_loop-injective :
    (ps : List ℕ) (c d : ℕ)
    → IsWord c
    → IsWord d
    → All IsByte ps
    → crc_loop c ps ≡ crc_loop d ps
    → c ≡ d
unfolding crc_loop
crc_loop-injective [] c d hc hd a e = e
crc_loop-injective (p ∷ ps) c d hc hd a e = xor-injective_left p c d (
    crc_update-injective c d p p hc hd a.0 a.0 (
      crc_loop-injective ps (crc_update c p) (crc_update d p) (crc_update-IsWord c p hc a.0)
        (crc_update-IsWord d p hd a.0) a.1 e))

-- A byte that is exchanged for another gives another register at the end.
pub crc_loop-set :
    (ps : List ℕ) (i v c : ℕ)
    → i < length ps
    → IsWord c
    → IsByte v
    → All IsByte ps
    → crc_loop c (set ps i v) ≡ crc_loop c ps
    → v ≡ get_or ps i 0
unfolding crc_loop
crc_loop-set [] i v c h hc hv a e = absurd (omega arith)
crc_loop-set (p ∷ ps) zero v c h hc hv a e = xor-injective c v p (
    crc_update-injective c c v p hc hc hv a.0 (
      crc_loop-injective ps (crc_update c v) (crc_update c p) (crc_update-IsWord c v hc hv)
        (crc_update-IsWord c p hc a.0) a.1 e))
crc_loop-set (p ∷ ps) (suc i) v c h hc hv a e =
    crc_loop-set ps i v (crc_update c p) (omega arith) (crc_update-IsWord c p hc a.0) hv a.1 e
