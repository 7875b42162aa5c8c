-- ===== src/Inspect/Arguments.antt =====
-- The options of core-engine/src/inspect.cpp and its `main` around the report. Texts are lists of character
-- codes.
pub mod Raws
pub mod Fuel
pub mod Line
use zcmesh.Base.{
  ℕ, zero, suc, ◌-◌, ◌%◌, ◌^◌, min, Bool, true, false, Option, none, some, List, [], ◌∷◌, ◌++◌,
  length, ◌==◌, if◌then◌else◌,
}
use zcmesh.Net.Endpoints.{atoi_int, digits, is_digit, is_space}
use zcmesh.Control.Command.{same_text}
use zcmesh.Options.{codes, Flag, takes, plain, unknown, parse_options}
use zcmesh.Inspect.{Expect, inspect}

-- `strtol(p, &end, 10)` of a 64-bit long, as a bit pattern of 32 bits, and what stands from `end` on.
abbrev pub skip_digits : List ℕ → List ℕ
skip_digits [] = []
skip_digits (c ∷ cs) = let rest = skip_digits cs in if is_digit c then rest else c ∷ cs

abbrev pub skip_spaces : List ℕ → List ℕ
skip_spaces [] = []
skip_spaces (c ∷ cs) = let rest = skip_spaces cs in if is_space c then rest else c ∷ cs

-- Digits behind the sign; none where there is no digit, and `end` is `p`.
abbrev pub unsigned_long : Bool → List ℕ → Option (ℕ × List ℕ)
unsigned_long negative [] = none
unsigned_long negative (c ∷ cs) =
    let n = digits 0 (c ∷ cs) in
    let value =
      if negative then (2 ^ 64 - min n (2 ^ 63)) % 2 ^ 32 else min n (2 ^ 63 - 1) % 2 ^ 32 in
    if is_digit c then some (value, skip_digits cs) else none

abbrev pub signed_long : List ℕ → Option (ℕ × List ℕ)
signed_long [] = none
signed_long (c ∷ cs) =
    if c == 45
    then unsigned_long true cs
    else if c == 43
    then unsigned_long false cs
    else unsigned_long false (c ∷ cs)

unfoldable pub strtol : List ℕ → Option (ℕ × List ℕ)
strtol p = signed_long (skip_spaces p)

-- What stands behind a number: the end, a comma, or what is refused.
abbrev pub behind : List ℕ → Option (List ℕ)
behind [] = some []
behind (c ∷ cs) = if c == 44 then some cs else none

-- The loop, on fuel; each round moves `p`, so the length of the text is enough. The raw values are bit
-- patterns.
pub raws_loop : ℕ → List ℕ → List ℕ → Option (List ℕ)
raws_loop fuel [] out = some out
raws_loop zero (c ∷ cs) out = none
raws_loop (suc fuel) (c ∷ cs) out = elim (strtol (c ∷ cs)) [
  | none ↦ none
  | some (v, end) ↦ elim (behind end) [ none ↦ none | some p ↦ raws_loop fuel p (out ++ v ∷ []) ]
]

abbrev pub some_raws : Option (List ℕ) → Option (List ℕ)
some_raws none = none
some_raws (some []) = none
some_raws (some (v ∷ vs)) = some (v ∷ vs)

unfoldable pub parse_raws : List ℕ → Option (List ℕ)
parse_raws [] = none
parse_raws (c ∷ cs) = some_raws (raws_loop (length (c ∷ cs)) (c ∷ cs) [])

-- A negative number is `none`, as one that is not given; the percentage, a double, is kept as its text.
pub record InspectOptions : Type 0 where
  pub verbose : Bool
  pub gaps_min : Option ℕ
  pub gaps_max : Option ℕ
  pub hop_idx : Option ℕ
  pub last_hop_min_pct : Option (List ℕ)
  pub frames_min : Option ℕ
  pub raws : List ℕ

abbrev pub inspect_defaults : InspectOptions
inspect_defaults = record {
  verbose = false;
  gaps_min = none;
  gaps_max = none;
  hop_idx = none;
  last_hop_min_pct = none;
  frames_min = none;
  raws = [];
}

pub data InspectValue : Type 0 where
  gaps_min_value gaps_max_value hop_idx_value last_hop_value frames_min_value raws_value :
      InspectValue

pub data InspectPlain : Type 0 where
  verbose_flag : InspectPlain

unfoldable pub inspect_flag : List ℕ → Flag InspectValue InspectPlain
inspect_flag a =
    if same_text a (codes "--verbose")
    then plain verbose_flag
    else if same_text a (codes "--expect-gaps-min")
    then takes gaps_min_value
    else if same_text a (codes "--expect-gaps-max")
    then takes gaps_max_value
    else if same_text a (codes "--expect-hop-idx")
    then takes hop_idx_value
    else if same_text a (codes "--expect-last-hop-min-pct")
    then takes last_hop_value
    else if same_text a (codes "--expect-frames-min")
    then takes frames_min_value
    else if same_text a (codes "--expect-raws")
    then takes raws_value
    else unknown

abbrev pub with_raws : InspectOptions → Option (List ℕ) → Option InspectOptions
with_raws o none = none
with_raws o (some vs) = some (record o { raws = vs })

abbrev pub inspect_value : InspectValue → List ℕ → InspectOptions → Option InspectOptions
inspect_value gaps_min_value v o = some (record o { gaps_min = atoi_int v })
inspect_value gaps_max_value v o = some (record o { gaps_max = atoi_int v })
inspect_value hop_idx_value v o = some (record o { hop_idx = atoi_int v })
inspect_value last_hop_value v o = some (record o { last_hop_min_pct = some v })
inspect_value frames_min_value v o = some (record o { frames_min = atoi_int v })
inspect_value raws_value v o = with_raws o (parse_raws v)

abbrev pub inspect_plain : InspectPlain → InspectOptions → InspectOptions
inspect_plain verbose_flag o = record o { verbose = true }

abbrev pub parse_inspect : List (List ℕ) → Option InspectOptions
parse_inspect args = parse_options inspect_flag inspect_value inspect_plain args inspect_defaults

-- The test of the percentage, of its text and of the frames with LAST_HOP and of all.
abbrev pub short_of : (List ℕ → ℕ → ℕ → Bool) → Option (List ℕ) → ℕ → ℕ → Bool
short_of below none last_hop ok = false
short_of below (some text) last_hop ok = below text last_hop ok

abbrev pub expect_of : (List ℕ → ℕ → ℕ → Bool) → InspectOptions → Expect
expect_of below o = record {
  gaps_min = o.gaps_min;
  gaps_max = o.gaps_max;
  hop_idx = o.hop_idx;
  last_hop_short = short_of below o.last_hop_min_pct;
  frames_min = o.frames_min;
  raws = o.raws;
}

-- The exit code; `files` gives the bytes of a file that opens.
module _ (below : List ℕ → ℕ → ℕ → Bool) (files : List ℕ → Option (List ℕ)) where
  abbrev pub inspect_file : InspectOptions → Option (List ℕ) → ℕ
  inspect_file o none = 1
  inspect_file o (some text) = inspect (expect_of below o) text

  abbrev pub inspect_parsed : Option InspectOptions → List ℕ → ℕ
  inspect_parsed none path = 1
  inspect_parsed (some o) path = inspect_file o (files path)

  -- the arguments behind the program's name
  unfoldable pub inspect_main : List (List ℕ) → ℕ
  inspect_main [] = 1
  inspect_main (path ∷ args) = inspect_parsed (parse_inspect args) path
