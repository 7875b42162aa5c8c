-- ===== src/Wire/Crc/Table.antt =====
-- The table-driven CRC computes the bit-by-bit CRC-32.
use zcmesh.Base.{
  ℕ, zero, suc, ◌+◌, ◌*◌, ◌/◌, ◌%◌, ◌^◌, ◌<◌, bit_xor, ◌≡◌, refl, sym, ◌∙◌, ap, ap₂, arith, List,
  [], ◌∷◌, get_or, take, All, All-take, IsByte,
}
use zcmesh.Bits.Masks.{bit_and_byte}
use zcmesh.Bits.Xor.{xor-fields, xor-shift_byte, xor-zero, xor_comm}
use zcmesh.Wire.Crc.{crc_rounds, crc_entries, crc_table, crc_update, crc_loop, crc32}
use zcmesh.Wire.Crc.Rounds.{crc_rounds-xor, crc_rounds_high}

-- The textbook CRC: fold a byte into the register, then shift eight times.
abbrev pub crc_bitwise : ℕ → List ℕ → ℕ
crc_bitwise c [] = c
crc_bitwise c (p ∷ ps) = crc_bitwise (crc_rounds 8 (bit_xor c p)) ps

get_or-crc_entries : (n i j : ℕ) → j < n → get_or (crc_entries n i) j 0 ≡ crc_rounds 8 (i + j)
unfolding crc_entries
get_or-crc_entries zero i j h = absurd (omega arith)
get_or-crc_entries (suc n) i zero h = let e : i + 0 ≡ i = omega arith in rw e
get_or-crc_entries (suc n) i (suc j) h =
    let e : i + suc j ≡ i + 1 + j = omega arith in
    rw e (get_or-crc_entries n (i + 1) j (omega arith))

get_or-crc_table : (x : ℕ) → get_or crc_table (x % 256) 0 ≡ crc_rounds 8 (x % 256)
unfolding crc_table
get_or-crc_table x =
    get_or-crc_entries 256 0 (x % 256) (omega arith) ∙ ap (crc_rounds 8) (omega arith)

-- One table step is eight rounds.
pub crc_update-rounds : (c p : ℕ) → IsByte p → crc_update c p ≡ crc_rounds 8 (bit_xor c p)
unfolding crc_update
crc_update-rounds c p h =
    ap₂ bit_xor (ap (λ t. get_or crc_table t 0) (bit_and_byte x) ∙ get_or-crc_table x) shifted
    ∙ xor_comm (crc_rounds 8 (x % 256)) (x / 256)
    ∙ sym (split ∙ ap (λ t. bit_xor t (crc_rounds 8 (x % 256))) (crc_rounds_high 8 (x / 256)))
  where
    x : ℕ
    x = bit_xor c p

    shifted : c / 2 ^ 8 ≡ x / 256
    shifted =
        omega (arith, xor-shift_byte c p, ap (bit_xor (c / 256)) (div_byte), xor-zero (c / 256))
      where
        div_byte : p / 256 ≡ 0
        div_byte = omega arith

    split : crc_rounds 8 x ≡ bit_xor (crc_rounds 8 (x / 256 * 2 ^ 8)) (crc_rounds 8 (x % 256))
    split =
        ap (crc_rounds 8) (omega (arith, xor-fields 8 (x / 256) (x % 256) (omega arith)))
        ∙ crc_rounds-xor 8 (x / 256 * 2 ^ 8) (x % 256)

crc_loop-bitwise :
    (bytes : List ℕ) (c : ℕ) → All IsByte bytes → crc_loop c bytes ≡ crc_bitwise c bytes
unfolding crc_loop
crc_loop-bitwise [] c a = refl
crc_loop-bitwise (p ∷ ps) c a =
    ap (λ t. crc_loop t ps) (crc_update-rounds c p a.0)
    ∙ crc_loop-bitwise ps (crc_rounds 8 (bit_xor c p)) a.1

-- Of a list of bytes, the table-driven CRC is the CRC computed bit by bit, of any length and
-- seed.
pub crc32-bitwise :
    (bytes : List ℕ) (len seed : ℕ)
    → All IsByte bytes
    → crc32 bytes len seed ≡ bit_xor (crc_bitwise seed (take len bytes)) 0xFFFFFFFF
unfolding crc32
crc32-bitwise bytes len seed a =
    ap (λ t. bit_xor t 0xFFFFFFFF)
      (crc_loop-bitwise (take len bytes) seed (All-take IsByte len bytes a))
