-- ===== src/Options.antt =====
-- The loops over `argv` of core-engine/src/hop.cpp, capture.cpp, replay.cpp and inspect.cpp, which have one
-- shape: a chain of `strcmp`, where an option that takes a value is unknown when no value follows.
pub mod Reading
use Prim.Native.Char.{code}
use Prim.Native.String.{String}
use zcmesh.Base.{ℕ, Option, none, some, List, [], ◌∷◌}

-- The character codes of a literal of the source.
abbrev pub codes : String → List ℕ
codes String.[] = []
codes (String.◌∷◌ c s) = code c ∷ codes s

-- What kind of option an argument names: one with a value, one without, or none.
pub data Flag (X Y : Type 0) : Type 0 where
  takes : X → Flag X Y
  plain : Y → Flag X Y
  unknown : Flag X Y

-- What one argument does: with the value behind it, alone, or to the end of the program.
pub data Stepped (O : Type 0) : Type 0 where
  with_value alone : O → Stepped O
  refused : Stepped O

abbrev pub with_value_or : {O : Type 0} → Option O → Stepped O
with_value_or none = refused
with_value_or (some o) = with_value o

-- `none` is the usage message, or another one, and the exit code 1.
module _ {X Y O : Type 0} (flag_of : List ℕ → Flag X Y) (apply_value : X → List ℕ → O → Option O)
    (apply_plain : Y → O → O) where
  abbrev pub last_option : Flag X Y → O → Option O
  last_option (takes x) o = none
  last_option (plain y) o = some (apply_plain y o)
  last_option unknown o = none

  abbrev pub step_option : Flag X Y → List ℕ → O → Stepped O
  step_option (takes x) v o = with_value_or (apply_value x v o)
  step_option (plain y) v o = alone (apply_plain y o)
  step_option unknown v o = refused

  -- The loop over the arguments behind the program's name.
  unfoldable pub parse_options : List (List ℕ) → O → Option O
  parse_options [] o = some o
  parse_options (a ∷ []) o = last_option (flag_of a) o
  parse_options (a ∷ v ∷ rest) o = elim (step_option (flag_of a) v o) [
    | with_value o' ↦ parse_options rest o'
    | alone o' ↦ parse_options (v ∷ rest) o'
    | refused ↦ none
  ]
