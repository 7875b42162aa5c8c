-- ===== src/Hop/Arguments.antt =====
-- The options of `main` in core-engine/src/hop.cpp. Texts are lists of character codes.
use zcmesh.Base.{ℕ, Bool, true, false, Option, none, some, List, if◌then◌else◌}
use zcmesh.Net.Endpoints.{atoi_int}
use zcmesh.Control.Command.{same_text}
use zcmesh.Options.{codes, Flag, takes, plain, unknown, parse_options}

-- A negative percentage is `none`; the seconds, a double, are kept as their text.
pub record HopOptions : Type 0 where
  pub listen : Option (List ℕ)
  pub forward : Option (List ℕ)
  pub loss_pct : Option ℕ
  pub final_hop : Bool
  pub print_stats : Option (List ℕ)

abbrev pub hop_defaults : HopOptions
hop_defaults = record {
  listen = none;
  forward = none;
  loss_pct = some 0;
  final_hop = false;
  print_stats = none;
}

pub data HopValue : Type 0 where
  listen_value forward_value loss_value hop_stats_value : HopValue

pub data HopPlain : Type 0 where
  final_flag : HopPlain

unfoldable pub hop_flag : List ℕ → Flag HopValue HopPlain
hop_flag a =
    if same_text a (codes "--listen")
    then takes listen_value
    else if same_text a (codes "--forward")
    then takes forward_value
    else if same_text a (codes "--loss-pct")
    then takes loss_value
    else if same_text a (codes "--final")
    then plain final_flag
    else if same_text a (codes "--print-stats-sec")
    then takes hop_stats_value
    else unknown

abbrev pub hop_value : HopValue → List ℕ → HopOptions → Option HopOptions
hop_value listen_value v o = some (record o { listen = some v })
hop_value forward_value v o = some (record o { forward = some v })
hop_value loss_value v o = some (record o { loss_pct = atoi_int v })
hop_value hop_stats_value v o = some (record o { print_stats = some v })

abbrev pub hop_plain : HopPlain → HopOptions → HopOptions
hop_plain final_flag o = record o { final_hop = true }

abbrev pub parse_hop : List (List ℕ) → Option HopOptions
parse_hop args = parse_options hop_flag hop_value hop_plain args hop_defaults
