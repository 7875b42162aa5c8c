-- ===== src/Edge/Samples.antt =====
-- Where the samples of core-engine/src/main.cpp come from: a file, the standard input, or the generator. A
-- raw value is a bit pattern of 32 bits.
pub mod OfFile
use zcmesh.Base.{
  ℕ, zero, suc, ◌+◌, ◌-◌, ◌%◌, ◌^◌, Bool, true, false, Option, none, some, List, [], ◌∷◌, ◌++◌,
  length, leb, ◌==◌, if◌then◌else◌,
}
use zcmesh.Net.Endpoints.{is_digit, is_space, digits}
use zcmesh.Inspect.Arguments.{strtol, skip_spaces, skip_digits}
use zcmesh.Edge.Loop.{Reading}

-- ZCMESH_SENSOR_VOLTAGE, ZCMESH_SENSOR_CURRENT and ZCMESH_SENSOR_TEMP
abbrev pub sensor_voltage : ℕ
sensor_voltage = 0

abbrev pub sensor_current : ℕ
sensor_current = 1

abbrev pub sensor_temp : ℕ
sensor_temp = 2

abbrev pub ended_token : List ℕ → List (List ℕ) → List (List ℕ)
ended_token [] later = later
ended_token (c ∷ cs) later = (c ∷ cs) ∷ later

-- `file_in >> tok` until it fails, behind the part `tok` of a token
unfoldable pub tokens : List ℕ → List ℕ → List (List ℕ)
tokens tok [] = ended_token tok []
tokens tok (c ∷ cs) =
    let between = ended_token tok (tokens [] cs) in
    let within = tokens (tok ++ c ∷ []) cs in if is_space c then between else within

-- `end == tok` or `*end != 0`
abbrev pub whole_number : Option (ℕ × List ℕ) → Option ℕ
whole_number none = none
whole_number (some (v, [])) = some v
whole_number (some (v, c ∷ cs)) = none

-- The value of a token; `none` is `continue`.
unfoldable pub token_value : List ℕ → Option ℕ
token_value [] = none
token_value (c ∷ cs) = if c == 35 then none else whole_number (strtol (c ∷ cs))

abbrev pub reading_of : Option ℕ → List Reading → List Reading
reading_of none later = later
reading_of (some v) later = record { sensor = sensor_voltage; raw = v } ∷ later

unfoldable pub token_readings : List (List ℕ) → List Reading
token_readings [] = []
token_readings (t ∷ ts) = reading_of (token_value t) (token_readings ts)

-- `--file`, of the text of the file
unfoldable pub file_readings : List ℕ → List Reading
file_readings text = token_readings (tokens [] text)

-- `cin >> raw` of an int: the value and what is left; none where no digit stands there or the number is no
-- int.
abbrev pub in_range : Bool → List ℕ → Option (ℕ × List ℕ)
in_range negative [] = none
in_range negative (c ∷ cs) =
    let n = digits 0 (c ∷ cs) in
    let left = skip_digits cs in
    let value = if negative then (2 ^ 32 - n) % 2 ^ 32 else n in
    let fits = leb n (if negative then 2 ^ 31 else 2 ^ 31 - 1) in
    if is_digit c then (if fits then some (value, left) else none) else none

abbrev pub read_int : List ℕ → Option (ℕ × List ℕ)
read_int [] = none
read_int (c ∷ cs) =
    if c == 45
    then in_range true cs
    else if c == 43
    then in_range false cs
    else in_range false (c ∷ cs)

-- `--stdin`, of what the input gives; each turn takes a digit, so its length is enough fuel.
pub stdin_loop : ℕ → List ℕ → List Reading
stdin_loop zero text = []
stdin_loop (suc fuel) text = elim (read_int (skip_spaces text)) [
  | none ↦ []
  | some (v, left) ↦ record { sensor = sensor_voltage; raw = v } ∷ stdin_loop fuel left
]

unfoldable pub stdin_readings : List ℕ → List Reading
stdin_readings text = stdin_loop (length text) text

abbrev pub lane_sensor : ℕ → ℕ
lane_sensor lane =
    if lane == 0 then sensor_voltage else if lane == 1 then sensor_current else sensor_temp

-- The generator: `wave` is what it makes of the number, of the sines of doubles.
pub generated : (ℕ → ℕ) → ℕ → ℕ → List Reading
generated wave zero seq = []
generated wave (suc n) seq =
    record { sensor = lane_sensor (seq % 3); raw = wave seq } ∷ generated wave n (seq + 1)
