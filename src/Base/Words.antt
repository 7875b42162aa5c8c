-- ===== src/Base/Words.antt =====
-- Unsigned machine words as numbers with their wrap written out, and little-endian byte strings.
use Prim.Native.Nat.{ℕ, ◌+◌, ◌*◌, ◌/◌, ◌%◌, ◌^◌, ◌<◌}
use mathlib.Core.List.{List, [], ◌∷◌, ◌++◌}

-- `++x` on a uint64_t counter
abbrev pub inc64 : ℕ → ℕ
inc64 x = (x + 1) % 2 ^ 64

-- `x += n` on a uint64_t counter
abbrev pub add64 : ℕ → ℕ → ℕ
add64 x n = (x + n) % 2 ^ 64

-- the bytes of a word in memory on the little-endian machines that the wire format is for
abbrev pub le16 : ℕ → List ℕ
le16 x = x % 256 ∷ x / 256 % 256 ∷ []

abbrev pub le32 : ℕ → List ℕ
le32 x = x % 256 ∷ x / 256 % 256 ∷ x / 65536 % 256 ∷ x / 16777216 % 256 ∷ []

abbrev pub of_le16 : ℕ → ℕ → ℕ
of_le16 a b = a + 256 * b

abbrev pub of_le32 : ℕ → ℕ → ℕ → ℕ → ℕ
of_le32 a b c d = a + 256 * b + 65536 * c + 16777216 * d

abbrev pub le64 : ℕ → List ℕ
le64 x = le32 (x % 2 ^ 32) ++ le32 (x / 2 ^ 32)

abbrev pub of_le64 : ℕ → ℕ → ℕ
of_le64 lo hi = lo + 2 ^ 32 * hi

abbrev pub IsByte : ℕ → Type 0
IsByte x = x < 256

abbrev pub IsWord : ℕ → Type 0
IsWord x = x < 2 ^ 32
