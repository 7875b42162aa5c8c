-- ===== src/Wire/Pack/Nibble.antt =====
-- `nibble_pack_i32` writes the low 16 bits of each value, least byte first, and zeros behind them.
use zcmesh.Base.{
  ℕ, suc, ◌+◌, ◌-◌, ◌*◌, ◌/◌, ◌%◌, ◌^◌, ◌≤◌, ◌≡◌, refl, sym, ◌∙◌, ap, ap₂, arith, List, [], ◌∷◌,
  ◌++◌, append_assoc, length, length-append, replicate, set, set-append, le16, bit_and,
}
use zcmesh.Bits.Masks.{bit_and_byte, bit_and_u16}
use zcmesh.Wire.Pack.{nibble_loop, nibble_pack_i32}

abbrev pub low_halves : List ℕ → List ℕ
low_halves [] = []
low_halves (x ∷ xs) = le16 (x % 2 ^ 16) ++ low_halves xs

pair_written :
    (i a b : ℕ) (start rest : List ℕ)
    → length start ≡ i * 2
    → set (set (start ++ 0 ∷ 0 ∷ rest) (i * 2) a) (i * 2 + 1) b ≡ (start ++ a ∷ b ∷ []) ++ rest
pair_written i a b start rest h =
    ap (λ t. set (set (start ++ 0 ∷ 0 ∷ rest) t a) (i * 2 + 1) b) (sym h)
    ∙ ap (λ t. set t (i * 2 + 1) b) (set-append start (0 ∷ rest) 0 a)
    ∙ ap (λ t. set t (i * 2 + 1) b) (sym (append_assoc start (a ∷ []) (0 ∷ rest)))
    ∙ ap (λ t. set ((start ++ a ∷ []) ++ 0 ∷ rest) t b)
        (omega (arith, length-append start (a ∷ [])))
    ∙ set-append (start ++ a ∷ []) rest 0 b
    ∙ append_assoc start (a ∷ []) (b ∷ rest)
    ∙ sym (append_assoc start (a ∷ b ∷ []) rest)

nibble_loop_lem :
    (xs start : List ℕ) (i k : ℕ)
    → length start ≡ i * 2
    → nibble_loop i xs (start ++ replicate (length xs * 2 + k) 0)
      ≡ start ++ (low_halves xs ++ replicate k 0)
unfolding nibble_loop
nibble_loop_lem [] start i k h = let e : 0 * 2 + k ≡ k = omega arith in rw e
nibble_loop_lem (x ∷ xs) start i k h =
    ap (nibble_loop (i + 1) xs) written
    ∙ nibble_loop_lem xs (start ++ lo ∷ hi ∷ []) (i + 1) k
        (omega (arith, length-append start (lo ∷ hi ∷ [])))
    ∙ append_assoc start (lo ∷ hi ∷ []) (low_halves xs ++ replicate k 0)
  where
    lo : ℕ
    lo = x % 2 ^ 16 % 256

    hi : ℕ
    hi = x % 2 ^ 16 / 256 % 256

    zeros : ℕ → List ℕ
    zeros n = replicate n 0

    v : ℕ
    v = bit_and x 0xFFFF % 2 ^ 16

    room : suc (length xs) * 2 + k ≡ suc (suc (length xs * 2 + k))
    room = omega arith

    low : bit_and v 0xFF % 2 ^ 8 ≡ lo
    low = omega (arith, bit_and_u16 x, bit_and_byte v)

    high : bit_and (v / 2 ^ 8) 0xFF % 2 ^ 8 ≡ hi
    high = omega (arith, bit_and_u16 x, bit_and_byte (v / 2 ^ 8))

    written :
        set
          (set (start ++ zeros (suc (length xs) * 2 + k)) (i * 2) (bit_and v 0xFF % 2 ^ 8))
          (i * 2 + 1)
          (bit_and (v / 2 ^ 8) 0xFF % 2 ^ 8)
        ≡ (start ++ lo ∷ hi ∷ []) ++ zeros (length xs * 2 + k)
    written =
        ap₂ (λ a b. set (set (start ++ zeros (suc (length xs) * 2 + k)) (i * 2) a) (i * 2 + 1) b)
          low high
        ∙ ap (λ n. set (set (start ++ zeros n) (i * 2) lo) (i * 2 + 1) hi) room
        ∙ pair_written i lo hi start (zeros (length xs * 2 + k)) h

-- Of one to eight values, nibble_pack_i32 answers two bytes for each and leaves their low halves
-- in order, little-endian, then zeros up to 16 bytes.
nibble_pack_i32_lem :
    (values out16 : List ℕ)
    → 1 ≤ length values
    → length values ≤ 8
    → nibble_pack_i32 values out16
      ≡ (low_halves values ++ replicate (16 - length values * 2) 0, length values * 2)
unfolding nibble_pack_i32
nibble_pack_i32_lem values out16 lo hi =
    ground (arith, nibble_loop_lem values [] 0 (16 - length values * 2) refl, room)
  where
    room : replicate (length values * 2 + (16 - length values * 2)) 0 ≡ replicate {A = ℕ} 16 0
    room = let e : length values * 2 + (16 - length values * 2) ≡ 16 = omega arith in rw e
