-- ===== src/Control/Command.antt =====
-- `main` of core-engine/src/ctl.cpp, from its arguments to the datagram that it sends. Texts are lists of
-- character codes.
pub mod Line
use zcmesh.Base.{
  ℕ, ◌%◌, ◌^◌, ◌&&◌, ◌||◌, not, Bool, true, false, Option, none, some, List, [], ◌∷◌, ◌==◌,
  if◌then◌else◌,
}
use zcmesh.Net.Api.{Endpoint}
use zcmesh.Net.Endpoints.{parse_endpoint, atoi_u16, atoi_int}
use zcmesh.Control.{ctl_message, msg_bytes}

-- `strcmp(a, b) == 0`
abbrev pub same_text : List ℕ → List ℕ → Bool
same_text [] [] = true
same_text [] (y ∷ ys) = false
same_text (x ∷ xs) [] = false
same_text (x ∷ xs) (y ∷ ys) = (x == y) && same_text xs ys

-- "--target", "--node-id", "--skip" and "--clear"
abbrev pub target_text : List ℕ
target_text = 45 ∷ 45 ∷ 116 ∷ 97 ∷ 114 ∷ 103 ∷ 101 ∷ 116 ∷ []

abbrev pub node_id_text : List ℕ
node_id_text = 45 ∷ 45 ∷ 110 ∷ 111 ∷ 100 ∷ 101 ∷ 45 ∷ 105 ∷ 100 ∷ []

abbrev pub skip_text : List ℕ
skip_text = 45 ∷ 45 ∷ 115 ∷ 107 ∷ 105 ∷ 112 ∷ []

abbrev pub clear_text : List ℕ
clear_text = 45 ∷ 45 ∷ 99 ∷ 108 ∷ 101 ∷ 97 ∷ 114 ∷ []

pub data CtlFlag : Type 0 where
  target_flag node_id_flag skip_flag clear_flag unknown_flag : CtlFlag

abbrev pub flag_of : List ℕ → CtlFlag
flag_of a =
    if same_text a target_text
    then target_flag
    else if same_text a node_id_text
    then node_id_flag
    else if same_text a skip_text
    then skip_flag
    else if same_text a clear_text
    then clear_flag
    else unknown_flag

-- A negative mask is `none`, as the one that is not given.
pub record CtlOptions : Type 0 where
  pub target : Option (List ℕ)
  pub node_id : ℕ
  pub mask : Option ℕ
  pub clear : Bool

abbrev pub ctl_defaults : CtlOptions
ctl_defaults = record { target = none; node_id = 1; mask = none; clear = false }

-- The loop over the arguments behind the program's name; `none` is the usage message. An option that takes
-- a value is unknown where no value follows.
unfoldable pub parse_ctl : List (List ℕ) → CtlOptions → Option CtlOptions
parse_ctl [] o = some o
parse_ctl (a ∷ []) o = elim (flag_of a) [
  | target_flag ↦ none
  | node_id_flag ↦ none
  | skip_flag ↦ none
  | clear_flag ↦ some (record o { clear = true })
  | unknown_flag ↦ none
]
parse_ctl (a ∷ v ∷ rest) o = elim (flag_of a) [
  | target_flag ↦ parse_ctl rest (record o { target = some v })
  | node_id_flag ↦ parse_ctl rest (record o { node_id = atoi_u16 v })
  | skip_flag ↦ parse_ctl rest (record o { mask = atoi_int v })
  | clear_flag ↦ parse_ctl (v ∷ rest) (record o { clear = true })
  | unknown_flag ↦ none
]

-- the value of a mask that is not negative
abbrev pub mask_of : Option ℕ → ℕ
mask_of none = 0
mask_of (some m) = m

abbrev pub is_given : Option ℕ → Bool
is_given none = false
is_given (some m) = true

-- Where the datagram goes, and its bytes; `none` where the program ends with an error before it sends.
abbrev pub ctl_send : CtlOptions → Option (List ℕ) → Option (Endpoint × List ℕ)
ctl_send o none = none
ctl_send o (some target) =
    let (ok, ep) = parse_endpoint target in
    if not o.clear && not (is_given o.mask)
    then none
    else if not ok
    then none
    else some (ep, msg_bytes (ctl_message o.clear o.node_id (mask_of o.mask)))

abbrev pub ctl_checked : Option CtlOptions → Option (Endpoint × List ℕ)
ctl_checked none = none
ctl_checked (some o) = ctl_send o o.target

unfoldable pub ctl : List (List ℕ) → Option (Endpoint × List ℕ)
ctl args = ctl_checked (parse_ctl args ctl_defaults)
