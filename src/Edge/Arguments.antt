-- ===== src/Edge/Arguments.antt =====
-- The options of `main` in core-engine/src/main.cpp, as its loop over the arguments reads them. Texts are
-- lists of character codes.
pub mod Flags
pub mod Accepted
use zcmesh.Base.{
  ℕ, ◌+◌, ◌-◌, ◌*◌, ◌%◌, ◌^◌, min, ◌||◌, leb, ◌==◌, Bool, true, false, Option, none, some, List, [],
  ◌∷◌, ◌++◌, length, if◌then◌else◌,
}
use zcmesh.Net.Api.{Endpoint}
use zcmesh.Net.Endpoints.{parse_endpoint, atoi_u16, atoi_int, digits, is_space}
use zcmesh.Control.Command.{same_text}
use zcmesh.Edge.Arguments.Flags.{
  ValueFlag, operator_value, node_id_value, rate_value, batch_value, transport_value,
  duration_value, drop_pct_value, stats_value, hop_value, control_value, skip_file_value,
  file_value, EdgeFlag, takes, stdin_flag, help_flag, unknown_flag, edge_flag,
}
use zcmesh.Edge.{Transport, tcp_mode, udp_mode, mesh_mode, auto_mode}

-- What the arguments say. A number that is read with `atof` is kept as its text, a negative percentage is
-- `none`.
pub record EdgeOptions : Type 0 where
  pub operator_text : Option (List ℕ)
  pub node_id : ℕ
  pub rate : Option (List ℕ)
  pub batch_size : ℕ
  pub transport : Transport
  pub duration : Option (List ℕ)
  pub drop_pct : Option ℕ
  pub print_stats : Option (List ℕ)
  pub hop_override : List Endpoint
  pub control : Option (List ℕ)
  pub hop_skip_file : Option (List ℕ)
  pub file : Option (List ℕ)
  pub use_stdin : Bool

abbrev pub edge_defaults : EdgeOptions
edge_defaults = record {
  operator_text = none;
  node_id = 1;
  rate = none;
  batch_size = 32;
  transport = auto_mode;
  duration = none;
  drop_pct = some 0;
  print_stats = none;
  hop_override = [];
  control = none;
  hop_skip_file = none;
  file = none;
  use_stdin = false;
}

-- `strtoull(s, nullptr, 10)`, which stops at 2^64 - 1 and negates modulo 2^64
abbrev pub signed_u64 : List ℕ → ℕ
signed_u64 [] = 0
signed_u64 (c ∷ cs) =
    let largest = 2 ^ 64 - 1 in
    if c == 45
    then (if leb (digits 0 cs) largest then (2 ^ 64 - digits 0 cs) % 2 ^ 64 else largest)
    else if c == 43
    then min largest (digits 0 cs)
    else min largest (digits 0 (c ∷ cs))

abbrev pub strtoull : List ℕ → ℕ
strtoull [] = 0
strtoull (c ∷ cs) = let rest = strtoull cs in if is_space c then rest else signed_u64 (c ∷ cs)

-- "tcp", "udp", "mesh" or "auto"
unfoldable pub transport_of : List ℕ → Option Transport
transport_of v =
    if same_text v (116 ∷ 99 ∷ 112 ∷ [])
    then some tcp_mode
    else if same_text v (117 ∷ 100 ∷ 112 ∷ [])
    then some udp_mode
    else if same_text v (109 ∷ 101 ∷ 115 ∷ 104 ∷ [])
    then some mesh_mode
    else if same_text v (97 ∷ 117 ∷ 116 ∷ 111 ∷ [])
    then some auto_mode
    else none

-- The options read so far, or the exit code.
pub data Parsed : Type 0 where
  go : EdgeOptions → Parsed
  exit : ℕ → Parsed

abbrev pub with_transport : EdgeOptions → Option Transport → Parsed
with_transport o none = exit 1
with_transport o (some t) = go (record o { transport = t })

-- An option with its value.
unfoldable pub apply_value : ValueFlag → List ℕ → EdgeOptions → Parsed
apply_value operator_value v o = go (record o { operator_text = some v })
apply_value node_id_value v o = go (record o { node_id = atoi_u16 v })
apply_value rate_value v o = go (record o { rate = some v })
apply_value batch_value v o =
    let size = strtoull v in go (record o { batch_size = if size == 0 then 1 else size })
apply_value transport_value v o = with_transport o (transport_of v)
apply_value duration_value v o = go (record o { duration = some v })
apply_value drop_pct_value v o = go (record o { drop_pct = atoi_int v })
apply_value stats_value v o = go (record o { print_stats = some v })
apply_value hop_value v o =
    let (ok, ep) = parse_endpoint v in
    if leb 3 (length o.hop_override)
    then exit 1
    else if ok
    then go (record o { hop_override = o.hop_override ++ ep ∷ [] })
    else exit 1
apply_value control_value v o = go (record o { control = some v })
apply_value skip_file_value v o = go (record o { hop_skip_file = some v })
apply_value file_value v o = go (record o { file = some v })

-- The last argument, with no value behind it.
unfoldable pub last_flag : EdgeFlag → EdgeOptions → Parsed
last_flag (takes f) o = exit 1
last_flag stdin_flag o = go (record o { use_stdin = true })
last_flag help_flag o = exit 0
last_flag unknown_flag o = exit 1

-- What one argument does: with the value behind it, alone, or to the end of the program.
pub data Stepped : Type 0 where
  with_value alone : EdgeOptions → Stepped
  stops : ℕ → Stepped

abbrev pub stepped : Parsed → Stepped
stepped (go o) = with_value o
stepped (exit n) = stops n

unfoldable pub step_flag : EdgeFlag → List ℕ → EdgeOptions → Stepped
step_flag (takes f) v o = stepped (apply_value f v o)
step_flag stdin_flag v o = alone (record o { use_stdin = true })
step_flag help_flag v o = stops 0
step_flag unknown_flag v o = stops 1

-- The loop over the arguments behind the program's name.
unfoldable pub parse_edge : List (List ℕ) → EdgeOptions → Parsed
parse_edge [] o = go o
parse_edge (a ∷ []) o = last_flag (edge_flag a) o
parse_edge (a ∷ v ∷ rest) o = elim (step_flag (edge_flag a) v o) [
  | with_value o' ↦ parse_edge rest o'
  | alone o' ↦ parse_edge (v ∷ rest) o'
  | stops n ↦ exit n
]
