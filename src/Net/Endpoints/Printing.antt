-- ===== src/Net/Endpoints/Printing.antt =====
-- Endpoints in the form that `parse_endpoint` of core-engine/src/net.cpp reads.
use zcmesh.Base.{
  ℕ, zero, suc, ◌+◌, ◌-◌, ◌*◌, ◌/◌, ◌%◌, ◌^◌, ◌≤◌, ◌<◌, ◌≡◌, refl, ◌∙◌, ap, arith, true, none, some,
  List, [], ◌∷◌, ◌++◌, All, All-append, ltb, ltb→lt, if◌then◌else◌, length, Bool-cases, inl, inr,
}
use zcmesh.Net.Api.{Endpoint}
use zcmesh.Net.Endpoints.{last_colon, digits, atoi_u16, atoi_int, parse_at, parse_endpoint}

-- A number below 10^(n + 1) in decimal.
abbrev pub decimal : ℕ → ℕ → List ℕ
decimal zero x = (48 + x) ∷ []
decimal (suc n) x =
    let front = decimal n (x / 10) in
    if ltb x 10 then (48 + x) ∷ [] else front ++ (48 + x % 10) ∷ []

abbrev pub endpoint_text : Endpoint → List ℕ
endpoint_text ep = ep.host ++ 58 ∷ decimal 4 ep.port

abbrev pub IsDigit : ℕ → Type 0
IsDigit c = (48 ≤ c) × (c ≤ 57)

pub decimal-IsDigit : (n x : ℕ) → x < 10 ^ suc n → All IsDigit (decimal n x)
decimal-IsDigit zero x h = ((omega arith, omega arith), tt)
decimal-IsDigit (suc n) x h = elim (Bool-cases (ltb x 10)) [
  | inl low ↦ rw low ((omega arith, omega (arith, ltb→lt x 10 low)), tt)
  | inr high ↦ rw high (
      All-append IsDigit (decimal n (x / 10)) ((48 + x % 10) ∷ [])
        (decimal-IsDigit n (x / 10) (omega arith)) ((omega arith, omega arith), tt))
]

digits-append :
    (n : ℕ) (xs : List ℕ) (c : ℕ)
    → All IsDigit xs
    → IsDigit c
    → digits n (xs ++ c ∷ []) ≡ digits n xs * 10 + (c - 48)
digits-append n [] c a d = ground arith
digits-append n (x ∷ xs) c a d = ground (arith, digits-append (n * 10 + (x - 48)) xs c a.1 d)

pub digits-decimal : (n x : ℕ) → x < 10 ^ suc n → digits 0 (decimal n x) ≡ x
digits-decimal zero x h = ground arith
digits-decimal (suc n) x h = elim (Bool-cases (ltb x 10)) [
  | inl low ↦ rw low (ground (arith, ltb→lt x 10 low))
  | inr high ↦ rw high (
      digits-append 0 (decimal n (x / 10)) (48 + x % 10) (decimal-IsDigit n (x / 10) (omega arith))
        (omega arith, omega arith)
      ∙ omega (arith, digits-decimal n (x / 10) (omega arith)))
]

last_colon-none : (xs : List ℕ) → All IsDigit xs → last_colon xs ≡ none
unfolding last_colon
last_colon-none [] a = refl
last_colon-none (x ∷ xs) a = rw (last_colon-none xs a.1) (ground (arith, a.0))

last_colon-append :
    (host ds : List ℕ) → All IsDigit ds → last_colon (host ++ 58 ∷ ds) ≡ some (host, ds)
unfolding last_colon
last_colon-append [] ds a = rw (last_colon-none ds a) refl
last_colon-append (h ∷ host) ds a = rw (last_colon-append host ds a) refl

atoi_u16-digits : (ds : List ℕ) → All IsDigit ds → atoi_u16 ds ≡ digits 0 ds % 2 ^ 16
atoi_u16-digits [] a = refl
atoi_u16-digits (d ∷ ds) a = ground (arith, a.0)

pub atoi_u16-decimal : (n x : ℕ) → x < 10 ^ suc n → x < 2 ^ 16 → atoi_u16 (decimal n x) ≡ x
atoi_u16-decimal n x h fits =
    atoi_u16-digits (decimal n x) (decimal-IsDigit n x h) ∙ omega (arith, digits-decimal n x h)

atoi_int-digits : (ds : List ℕ) → All IsDigit ds → atoi_int ds ≡ some (digits 0 ds)
atoi_int-digits [] a = refl
atoi_int-digits (d ∷ ds) a = ground (arith, a.0)

pub atoi_int-decimal : (n x : ℕ) → x < 10 ^ suc n → atoi_int (decimal n x) ≡ some x
atoi_int-decimal n x h =
    atoi_int-digits (decimal n x) (decimal-IsDigit n x h) ∙ ap some (digits-decimal n x h)

-- An endpoint with a host of 1 to 63 characters, which may hold colons, and a port from 1 to
-- 65535 is read back from its text.
pub parse_endpoint-endpoint_text :
    (ep : Endpoint)
    → 0 < length ep.host
    → length ep.host < 64
    → 0 < ep.port
    → ep.port < 2 ^ 16
    → parse_endpoint (endpoint_text ep) ≡ (true, ep)
unfolding parse_endpoint
parse_endpoint-endpoint_text ep some_host short some_port fits =
    let ds = decimal 4 ep.port in
    let all = decimal-IsDigit 4 ep.port (omega arith) in
    let port : atoi_u16 ds ≡ ep.port = atoi_u16-decimal 4 ep.port (omega arith) (omega arith) in
    ap parse_at (last_colon-append ep.host ds all) ∙ rw port (ground arith)
