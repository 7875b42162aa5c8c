-- ===== src/Edge/Arguments/Flags.antt =====
-- The option names of core-engine/src/main.cpp, as lists of character codes, and what kind of option each is.
use zcmesh.Base.{ℕ, ◌||◌, List, [], ◌∷◌, if◌then◌else◌}
use zcmesh.Control.Command.{same_text, node_id_text}

-- "--operator"
abbrev pub operator_text : List ℕ
operator_text = 45 ∷ 45 ∷ 111 ∷ 112 ∷ 101 ∷ 114 ∷ 97 ∷ 116 ∷ 111 ∷ 114 ∷ []

-- "--rate"
abbrev pub rate_text : List ℕ
rate_text = 45 ∷ 45 ∷ 114 ∷ 97 ∷ 116 ∷ 101 ∷ []

-- "--batch"
abbrev pub batch_text : List ℕ
batch_text = 45 ∷ 45 ∷ 98 ∷ 97 ∷ 116 ∷ 99 ∷ 104 ∷ []

-- "--transport"
abbrev pub transport_text : List ℕ
transport_text = 45 ∷ 45 ∷ 116 ∷ 114 ∷ 97 ∷ 110 ∷ 115 ∷ 112 ∷ 111 ∷ 114 ∷ 116 ∷ []

-- "--duration"
abbrev pub duration_text : List ℕ
duration_text = 45 ∷ 45 ∷ 100 ∷ 117 ∷ 114 ∷ 97 ∷ 116 ∷ 105 ∷ 111 ∷ 110 ∷ []

-- "--drop-pct"
abbrev pub drop_pct_text : List ℕ
drop_pct_text = 45 ∷ 45 ∷ 100 ∷ 114 ∷ 111 ∷ 112 ∷ 45 ∷ 112 ∷ 99 ∷ 116 ∷ []

-- "--print-stats-sec"
abbrev pub stats_text : List ℕ
stats_text =
    45 ∷ 45 ∷ 112 ∷ 114 ∷ 105 ∷ 110 ∷ 116 ∷ 45 ∷ 115 ∷ 116 ∷ 97 ∷ 116 ∷ 115 ∷ 45 ∷ 115 ∷ 101 ∷ 99
    ∷ []

-- "--hop"
abbrev pub hop_text : List ℕ
hop_text = 45 ∷ 45 ∷ 104 ∷ 111 ∷ 112 ∷ []

-- "--control"
abbrev pub control_text : List ℕ
control_text = 45 ∷ 45 ∷ 99 ∷ 111 ∷ 110 ∷ 116 ∷ 114 ∷ 111 ∷ 108 ∷ []

-- "--hop-skip-file"
abbrev pub skip_file_text : List ℕ
skip_file_text =
    45 ∷ 45 ∷ 104 ∷ 111 ∷ 112 ∷ 45 ∷ 115 ∷ 107 ∷ 105 ∷ 112 ∷ 45 ∷ 102 ∷ 105 ∷ 108 ∷ 101 ∷ []

-- "--file"
abbrev pub file_text : List ℕ
file_text = 45 ∷ 45 ∷ 102 ∷ 105 ∷ 108 ∷ 101 ∷ []

-- "--stdin"
abbrev pub stdin_text : List ℕ
stdin_text = 45 ∷ 45 ∷ 115 ∷ 116 ∷ 100 ∷ 105 ∷ 110 ∷ []

-- "--help"
abbrev pub help_text : List ℕ
help_text = 45 ∷ 45 ∷ 104 ∷ 101 ∷ 108 ∷ 112 ∷ []

-- "-h"
abbrev pub short_help_text : List ℕ
short_help_text = 45 ∷ 104 ∷ []

pub data ValueFlag : Type 0 where
  operator_value node_id_value rate_value batch_value transport_value duration_value drop_pct_value
        stats_value hop_value control_value skip_file_value file_value :
      ValueFlag

pub data EdgeFlag : Type 0 where
  takes : ValueFlag → EdgeFlag
  stdin_flag help_flag unknown_flag : EdgeFlag

-- the chain of `strcmp` from its end
abbrev pub plain_flag : List ℕ → EdgeFlag
plain_flag a =
    if same_text a stdin_text
    then stdin_flag
    else if same_text a help_text || same_text a short_help_text
    then help_flag
    else unknown_flag

unfoldable pub edge_flag : List ℕ → EdgeFlag
edge_flag a =
    if same_text a operator_text
    then takes operator_value
    else if same_text a node_id_text
    then takes node_id_value
    else if same_text a rate_text
    then takes rate_value
    else if same_text a batch_text
    then takes batch_value
    else if same_text a transport_text
    then takes transport_value
    else if same_text a duration_text
    then takes duration_value
    else if same_text a drop_pct_text
    then takes drop_pct_value
    else if same_text a stats_text
    then takes stats_value
    else if same_text a hop_text
    then takes hop_value
    else if same_text a control_text
    then takes control_value
    else if same_text a skip_file_text
    then takes skip_file_value
    else if same_text a file_text
    then takes file_value
    else plain_flag a
