-- ===== src/Options/Reading.antt =====
-- How the loop over the arguments goes on behind an option that it knows.
use zcmesh.Base.{ℕ, ◌≡◌, refl, Option, some, List, [], ◌∷◌}
use zcmesh.Options.{Flag, takes, plain, parse_options}

module _ {X Y O : Type 0} (flag_of : List ℕ → Flag X Y) (apply_value : X → List ℕ → O → Option O)
    (apply_plain : Y → O → O) where
  pub parse-takes :
      (a v : List ℕ) (rest : List (List ℕ)) (x : X) (o o' : O)
      → flag_of a ≡ takes x
      → apply_value x v o ≡ some o'
      → parse_options flag_of apply_value apply_plain (a ∷ v ∷ rest) o
        ≡ parse_options flag_of apply_value apply_plain rest o'
  unfolding parse_options
  parse-takes a v rest x o o' known taken = rw (known, taken, parse_options) refl

  pub parse-plain :
      (a : List ℕ) (rest : List (List ℕ)) (y : Y) (o : O)
      → flag_of a ≡ plain y
      → parse_options flag_of apply_value apply_plain (a ∷ rest) o
        ≡ parse_options flag_of apply_value apply_plain rest (apply_plain y o)
  unfolding parse_options
  parse-plain a [] y o known = rw (known, parse_options) refl
  parse-plain a (v ∷ rest) y o known = rw (known, parse_options) refl
