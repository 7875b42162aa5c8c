-- ===== src/Wire/Crc.antt =====
-- `init_crc_table` and `crc32` of core-engine/src/frame.cpp. The table is filled once, before it is
-- first read, and never changes, so it is a constant here.
pub mod Rounds
pub mod Table
pub mod Detect
use zcmesh.Base.{
  ℕ, zero, suc, ◌+◌, ◌/◌, ◌^◌, bit_and, bit_xor, not, List, [], ◌∷◌, get_or, take, ◌==◌,
  if◌then◌else◌,
}

abbrev pub crc_poly : ℕ
crc_poly = 0xEDB88320

-- `c = (c & 1u) ? (0xEDB88320u ^ (c >> 1)) : (c >> 1)`
unfoldable pub crc_round : ℕ → ℕ
crc_round c = if not (bit_and c 1 == 0) then bit_xor crc_poly (c / 2) else c / 2

-- the inner loop, by the rounds left
unfoldable pub crc_rounds : ℕ → ℕ → ℕ
crc_rounds zero c = c
crc_rounds (suc k) c = crc_rounds k (crc_round c)

-- the outer loop from index `i`, by the entries left
unfoldable pub crc_entries : ℕ → ℕ → List ℕ
crc_entries zero i = []
crc_entries (suc n) i = crc_rounds 8 i ∷ crc_entries n (i + 1)

unfoldable pub crc_table : List ℕ
crc_table = crc_entries 256 0

-- `c = crc_table[(c ^ p[i]) & 0xFFu] ^ (c >> 8)`
unfoldable pub crc_update : ℕ → ℕ → ℕ
crc_update c p = bit_xor (get_or crc_table (bit_and (bit_xor c p) 0xFF) 0) (c / 2 ^ 8)

unfoldable pub crc_loop : ℕ → List ℕ → ℕ
crc_loop c [] = c
crc_loop c (p ∷ ps) = crc_loop (crc_update c p) ps

unfoldable pub crc32 : List ℕ → ℕ → ℕ → ℕ
crc32 bytes len seed = bit_xor (crc_loop seed (take len bytes)) 0xFFFFFFFF
