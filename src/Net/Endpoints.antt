-- ===== src/Net/Endpoints.antt =====
-- `parse_endpoint` of core-engine/src/net.cpp, on the characters of the string.
pub mod Printing
use zcmesh.Base.{
  ℕ, ◌+◌, ◌-◌, ◌*◌, ◌%◌, ◌^◌, not, ◌&&◌, ◌||◌, Bool, true, false, Option, none, some, List, [], ◌∷◌,
  ltb, leb, ◌==◌, if◌then◌else◌, length,
}
use zcmesh.Net.Api.{Endpoint}

-- `strrchr(s, ':')`: what stands before and behind the last colon
pub last_colon : List ℕ → Option (List ℕ × List ℕ)
last_colon [] = none
last_colon (c ∷ cs) = elim (last_colon cs) [
  | some (before, behind) ↦ some (c ∷ before, behind)
  | none ↦ if c == 58 then some ([], cs) else none
]

abbrev pub is_digit : ℕ → Bool
is_digit c = leb 48 c && leb c 57

abbrev pub is_space : ℕ → Bool
is_space c = (c == 32) || (leb 9 c && leb c 13)

-- the digits at the front, behind those of value `n`
abbrev pub digits : ℕ → List ℕ → ℕ
digits n [] = n
digits n (c ∷ cs) = let rest = digits (n * 10 + (c - 48)) cs in if is_digit c then rest else n

-- `static_cast<uint16_t>(atoi(s))` at the sign; `atoi` says nothing of a number that is no int.
abbrev pub signed_u16 : List ℕ → ℕ
signed_u16 [] = 0
signed_u16 (c ∷ cs) =
    if c == 45
    then (2 ^ 16 - digits 0 cs % 2 ^ 16) % 2 ^ 16
    else if c == 43
    then digits 0 cs % 2 ^ 16
    else digits 0 (c ∷ cs) % 2 ^ 16

abbrev pub atoi_u16 : List ℕ → ℕ
atoi_u16 [] = 0
atoi_u16 (c ∷ cs) = let rest = atoi_u16 cs in if is_space c then rest else signed_u16 (c ∷ cs)

-- `atoi(s)` and `atoll(s)` of a number that their type holds, a negative one being `none`; C leaves open
-- what they do of a larger one.
abbrev pub signed_int : List ℕ → Option ℕ
signed_int [] = some 0
signed_int (c ∷ cs) =
    if c == 45
    then (if digits 0 cs == 0 then some 0 else none)
    else if c == 43
    then some (digits 0 cs)
    else some (digits 0 (c ∷ cs))

abbrev pub atoi_int : List ℕ → Option ℕ
atoi_int [] = some 0
atoi_int (c ∷ cs) = let rest = atoi_int cs in if is_space c then rest else signed_int (c ∷ cs)

abbrev pub blank_endpoint : Endpoint
blank_endpoint = record { host = []; port = 0 }

abbrev pub parse_at : Option (List ℕ × List ℕ) → Bool × Endpoint
parse_at none = (false, blank_endpoint)
parse_at (some (host, behind)) =
    let port = atoi_u16 behind in
    if (length host == 0) || leb 64 (length host)
    then (false, blank_endpoint)
    else (not (port == 0), record { host = host; port = port })

-- The answer, and what `out` holds then.
unfoldable pub parse_endpoint : List ℕ → Bool × Endpoint
parse_endpoint host_port = parse_at (last_colon host_port)
