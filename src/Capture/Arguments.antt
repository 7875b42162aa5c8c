-- ===== src/Capture/Arguments.antt =====
-- The options of `main` in core-engine/src/capture.cpp. Texts are lists of character codes.
use zcmesh.Base.{ℕ, Bool, true, false, Option, none, some, List, if◌then◌else◌}
use zcmesh.Net.Endpoints.{atoi_int}
use zcmesh.Control.Command.{same_text}
use zcmesh.Options.{codes, Flag, takes, unknown, parse_options}

pub data Mode : Type 0 where
  udp_only tcp_only both : Mode

-- `mode == Mode::Udp || mode == Mode::Both`, and the same of TCP
abbrev pub has_udp : Mode → Bool
has_udp udp_only = true
has_udp tcp_only = false
has_udp both = true

abbrev pub has_tcp : Mode → Bool
has_tcp udp_only = false
has_tcp tcp_only = true
has_tcp both = true

-- A negative number of seconds is `none`.
pub record CaptureOptions : Type 0 where
  pub listen : List ℕ
  pub out_path : Option (List ℕ)
  pub seconds : Option ℕ
  pub mode : Mode

abbrev pub capture_defaults : CaptureOptions
capture_defaults = record {
  listen = codes "127.0.0.1:9900";
  out_path = none;
  seconds = some 10;
  mode = udp_only;
}

pub data CaptureValue : Type 0 where
  listen_value out_value seconds_value mode_value : CaptureValue

unfoldable pub capture_flag : List ℕ → Flag CaptureValue ⊥
capture_flag a =
    if same_text a (codes "--listen")
    then takes listen_value
    else if same_text a (codes "--out")
    then takes out_value
    else if same_text a (codes "--seconds")
    then takes seconds_value
    else if same_text a (codes "--mode")
    then takes mode_value
    else unknown

unfoldable pub mode_of : List ℕ → Option Mode
mode_of v =
    if same_text v (codes "udp")
    then some udp_only
    else if same_text v (codes "tcp")
    then some tcp_only
    else if same_text v (codes "both")
    then some both
    else none

abbrev pub with_mode : CaptureOptions → Option Mode → Option CaptureOptions
with_mode o none = none
with_mode o (some m) = some (record o { mode = m })

abbrev pub capture_value : CaptureValue → List ℕ → CaptureOptions → Option CaptureOptions
capture_value listen_value v o = some (record o { listen = v })
capture_value out_value v o = some (record o { out_path = some v })
capture_value seconds_value v o = some (record o { seconds = atoi_int v })
capture_value mode_value v o = with_mode o (mode_of v)

abbrev no_plain : ⊥ → CaptureOptions → CaptureOptions
no_plain y o = o

abbrev pub parse_capture : List (List ℕ) → Option CaptureOptions
parse_capture args = parse_options capture_flag capture_value no_plain args capture_defaults
