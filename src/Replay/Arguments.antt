-- ===== src/Replay/Arguments.antt =====
-- The options of `main` in core-engine/src/replay.cpp. Texts are lists of character codes.
use zcmesh.Base.{ℕ, not, ◌&&◌, Bool, true, false, Option, none, some, List, if◌then◌else◌}
use zcmesh.Control.Command.{same_text}
use zcmesh.Options.{codes, Flag, takes, unknown, parse_options}

-- The values of `rate_hz`, a double: 0, 1000, and what `atof` makes of a text.
pub data Rate : Type 0 where
  zero_rate thousand : Rate
  read_rate : List ℕ → Rate

pub record ReplayOptions : Type 0 where
  pub in_path : Option (List ℕ)
  pub target : List ℕ
  pub transport : List ℕ
  pub rate_hz : Rate
  pub pace_capture : Bool
  pub rate_set : Bool

abbrev pub replay_defaults : ReplayOptions
replay_defaults = record {
  in_path = none;
  target = codes "127.0.0.1:9900";
  transport = codes "tcp";
  rate_hz = zero_rate;
  pace_capture = true;
  rate_set = false;
}

pub data ReplayValue : Type 0 where
  in_value target_value transport_value rate_value pace_value : ReplayValue

unfoldable pub replay_flag : List ℕ → Flag ReplayValue ⊥
replay_flag a =
    if same_text a (codes "--in")
    then takes in_value
    else if same_text a (codes "--target")
    then takes target_value
    else if same_text a (codes "--transport")
    then takes transport_value
    else if same_text a (codes "--rate")
    then takes rate_value
    else if same_text a (codes "--pace")
    then takes pace_value
    else unknown

-- `--pace mode`
unfoldable pub with_pace : List ℕ → ReplayOptions → Option ReplayOptions
with_pace mode o =
    if same_text mode (codes "capture")
    then some (record o { pace_capture = true })
    else if same_text mode (codes "fixed")
    then some
        (record o { pace_capture = false; rate_hz = if o.rate_set then o.rate_hz else thousand })
    else none

abbrev pub replay_value : ReplayValue → List ℕ → ReplayOptions → Option ReplayOptions
replay_value in_value v o = some (record o { in_path = some v })
replay_value target_value v o = some (record o { target = v })
replay_value transport_value v o = some (record o { transport = v })
replay_value rate_value v o =
    some (record o { rate_hz = read_rate v; rate_set = true; pace_capture = false })
replay_value pace_value v o = with_pace v o

abbrev pub no_plain : ⊥ → ReplayOptions → ReplayOptions
no_plain y o = o

abbrev pub parse_replay : List (List ℕ) → Option ReplayOptions
parse_replay args = parse_options replay_flag replay_value no_plain args replay_defaults

-- `rate_hz <= 0.0`, of a text by `not_positive`
abbrev pub rate_low : (List ℕ → Bool) → Rate → Bool
rate_low not_positive zero_rate = true
rate_low not_positive thousand = false
rate_low not_positive (read_rate v) = not_positive v

-- The options behind the loop: a fixed pace has a rate.
abbrev pub with_rate : (List ℕ → Bool) → ReplayOptions → ReplayOptions
with_rate not_positive o = record o {
  rate_hz = if not o.pace_capture && rate_low not_positive o.rate_hz then thousand else o.rate_hz;
}

-- `strcmp(transport, "tcp") == 0`: all else is UDP.
abbrev pub use_tcp : ReplayOptions → Bool
use_tcp o = same_text o.transport (codes "tcp")
