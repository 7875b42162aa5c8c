-- ===== src/Edge/Samples/OfFile.antt =====
-- What core-engine/src/main.cpp reads of a file of samples.
use zcmesh.Base.{
  ℕ, ◌-◌, ◌^◌, ◌<◌, ◌≡◌, ◌≢◌, refl, sym, ◌∙◌, ap, arith, false, Bool-cases, inl, inr, some, List,
  [], ◌∷◌, ◌++◌, append_assoc, append-nil, All, length, ltb, ltb→le, ◌==◌, IsWord,
}
use zcmesh.Net.Endpoints.{is_space}
use zcmesh.Net.Endpoints.Printing.{decimal, IsDigit, decimal-IsDigit}
use zcmesh.Inspect.Arguments.Raws.{raw_text, strtol-raw_text, length-raw_text_pos}
use zcmesh.Inspect.Arguments.{strtol}
use zcmesh.Edge.Loop.{Reading}
use zcmesh.Edge.Samples.{
  sensor_voltage, ended_token, tokens, token_value, reading_of, token_readings, file_readings,
}

-- A line of the file: a number, or a word that starts with '#'.
pub data Line : Type 0 where
  value : ℕ → Line
  mark : List ℕ → Line

-- A character of a token.
abbrev pub IsSolid : ℕ → Type 0
IsSolid c = is_space c ≡ false

abbrev pub IsLine : Line → Type 0
IsLine (value x) = IsWord x
IsLine (mark cs) = All IsSolid cs

abbrev pub line_text : Line → List ℕ
line_text (value x) = raw_text x
line_text (mark cs) = 35 ∷ cs

abbrev pub lines_text : List Line → List ℕ
lines_text [] = []
lines_text (l ∷ ls) = line_text l ++ 10 ∷ lines_text ls

abbrev pub values_of : List Line → List Reading
values_of [] = []
values_of (value x ∷ ls) = record { sensor = sensor_voltage; raw = x } ∷ values_of ls
values_of (mark cs ∷ ls) = values_of ls

IsSolid-digits : (ds : List ℕ) → All IsDigit ds → All IsSolid ds
IsSolid-digits [] a = tt
IsSolid-digits (d ∷ ds) a = (ground (arith, a.0), IsSolid-digits ds a.1)

raw_text-IsSolid : (x : ℕ) → IsWord x → All IsSolid (raw_text x)
raw_text-IsSolid x fits = elim (Bool-cases (ltb x (2 ^ 31))) [
  | inl low ↦ rw low (IsSolid-digits (decimal 9 x) (decimal-IsDigit 9 x (omega arith)))
  | inr high ↦ rw high (
    refl,
    IsSolid-digits (decimal 9 (2 ^ 32 - x))
        (decimal-IsDigit 9 (2 ^ 32 - x) (omega (arith, ltb→le _ _ high))),
  )
]

line_text-IsSolid : (l : Line) → IsLine l → All IsSolid (line_text l)
line_text-IsSolid (value x) fits = raw_text-IsSolid x fits
line_text-IsSolid (mark cs) solid = (refl, solid)

-- A token and the line break behind it.
tokens-token :
    (tok cs rest : List ℕ)
    → All IsSolid cs
    → tokens tok (cs ++ 10 ∷ rest) ≡ ended_token (tok ++ cs) (tokens [] rest)
unfolding tokens
tokens-token tok [] rest a = ap (λ t. ended_token t (tokens [] rest)) (sym (append-nil tok))
tokens-token tok (c ∷ cs) rest a = rw a.0 (
    tokens-token (tok ++ c ∷ []) cs rest a.1
    ∙ ap (λ t. ended_token t (tokens [] rest)) (append_assoc tok (c ∷ []) cs))

-- The value of a token of numbers: no '#' stands at its front.
token_value-number :
    (t : List ℕ) (x : ℕ)
    → strtol t ≡ some (x, [])
    → 0 < length t
    → All (λ c. c ≢ 35) t
    → token_value t ≡ some x
unfolding token_value
token_value-number [] x e h a = absurd (omega arith)
token_value-number (c ∷ cs) x e h a =
    let other : (c == 35) ≡ false = ground (arith, a.0) in rw (other, e) refl

digits-no_mark : (ds : List ℕ) → All IsDigit ds → All (λ c. c ≢ 35) ds
digits-no_mark [] a = tt
digits-no_mark (d ∷ ds) a = (λ e. absurd (omega (arith, a.0, e)), digits-no_mark ds a.1)

raw_text-no_mark : (x : ℕ) → IsWord x → All (λ c. c ≢ 35) (raw_text x)
raw_text-no_mark x fits = elim (Bool-cases (ltb x (2 ^ 31))) [
  | inl low ↦ rw low (digits-no_mark (decimal 9 x) (decimal-IsDigit 9 x (omega arith)))
  | inr high ↦ rw high (
    λ e. absurd (omega (arith, e)),
    digits-no_mark (decimal 9 (2 ^ 32 - x))
        (decimal-IsDigit 9 (2 ^ 32 - x) (omega (arith, ltb→le _ _ high))),
  )
]

read_value : (x : ℕ) → IsWord x → token_value (raw_text x) ≡ some x
read_value x fits =
    token_value-number (raw_text x) x
      (ap strtol (sym (append-nil (raw_text x))) ∙ strtol-raw_text x [] fits tt)
      (length-raw_text_pos x) (raw_text-no_mark x fits)

ended_some : (t : List ℕ) (later : List (List ℕ)) → 0 < length t → ended_token t later ≡ t ∷ later
ended_some [] later h = absurd (omega arith)
ended_some (c ∷ cs) later h = refl

line_text_pos : (l : Line) → 0 < length (line_text l)
line_text_pos (value x) = length-raw_text_pos x
line_text_pos (mark cs) = omega arith

read_line :
    (l : Line) (later : List Reading) (ls : List Line)
    → IsLine l
    → later ≡ values_of ls
    → reading_of (token_value (line_text l)) later ≡ values_of (l ∷ ls)
unfolding token_value
read_line (value x) later ls fits e =
    ap (λ o. reading_of o later) (read_value x fits)
    ∙ ap (◌∷◌ (record { sensor = sensor_voltage; raw = x })) e
read_line (mark cs) later ls solid e = e

-- Of a file of lines that are each a 32-bit number or a word that starts with '#', the edge reads
-- exactly the numbers, in order, as samples of the voltage sensor.
pub file_readings-lines_text :
    (ls : List Line) → All IsLine ls → file_readings (lines_text ls) ≡ values_of ls
unfolding file_readings tokens token_readings
file_readings-lines_text [] a = refl
file_readings-lines_text (l ∷ ls) a =
    ap token_readings (
      tokens-token [] (line_text l) (lines_text ls) (line_text-IsSolid l a.0)
      ∙ ended_some (line_text l) (tokens [] (lines_text ls)) (line_text_pos l))
    ∙ read_line l (token_readings (tokens [] (lines_text ls))) ls a.0
        (file_readings-lines_text ls a.1)
