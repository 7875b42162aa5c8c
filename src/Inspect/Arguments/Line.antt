-- ===== src/Inspect/Arguments/Line.antt =====
-- From the expectations to a command line of core-engine/src/inspect.cpp and back.
use zcmesh.Base.{
  ℕ, ◌^◌, ◌<◌, ◌≡◌, refl, ◌∙◌, ap, arith, Bool, true, false, Option, none, some, List, [], ◌∷◌,
  ◌++◌, All, IsWord,
}
use zcmesh.Net.Endpoints.Printing.{decimal, atoi_int-decimal}
use zcmesh.Options.{codes, parse_options}
use zcmesh.Options.Reading.{parse-takes}
use zcmesh.Inspect.Arguments.{
  InspectOptions, inspect_defaults, gaps_min_value, gaps_max_value, hop_idx_value, last_hop_value,
  frames_min_value, raws_value, inspect_flag, with_raws, inspect_value, inspect_plain, inspect_file,
  inspect_parsed, inspect_main,
}
use zcmesh.Inspect.Arguments.Raws.{raws_text, parse_raws-raws_text}

-- An expectation as two arguments, or none.
abbrev pub number_part : List ℕ → Option ℕ → List (List ℕ)
number_part a none = []
number_part a (some n) = a ∷ decimal 18 n ∷ []

abbrev pub text_part : List ℕ → Option (List ℕ) → List (List ℕ)
text_part a none = []
text_part a (some v) = a ∷ v ∷ []

abbrev pub raws_part : List ℕ → List (List ℕ)
raws_part [] = []
raws_part (x ∷ xs) = codes "--expect-raws" ∷ raws_text (x ∷ xs) ∷ []

abbrev pub verbose_part : Bool → List (List ℕ)
verbose_part false = []
verbose_part true = codes "--verbose" ∷ []

abbrev pub inspect_line : InspectOptions → List (List ℕ)
inspect_line o =
    number_part (codes "--expect-gaps-min") o.gaps_min
    ++ (number_part (codes "--expect-gaps-max") o.gaps_max
        ++ (number_part (codes "--expect-hop-idx") o.hop_idx
            ++ (text_part (codes "--expect-last-hop-min-pct") o.last_hop_min_pct
                ++ (number_part (codes "--expect-frames-min") o.frames_min
                    ++ (raws_part o.raws ++ verbose_part o.verbose)))))

abbrev pub Below : ℕ → Option ℕ → Type 0
Below bound none = Unit
Below bound (some n) = n < bound

-- Numbers that their types hold.
pub record IsInspectOptions (o : InspectOptions) : Type 0 where
  pub gaps_min_fits : Below (2 ^ 63) o.gaps_min
  pub gaps_max_fits : Below (2 ^ 63) o.gaps_max
  pub hop_idx_fits : Below (2 ^ 31) o.hop_idx
  pub frames_min_fits : Below (2 ^ 63) o.frames_min
  pub raws_fit : All IsWord o.raws

-- what is given, or what was there
abbrev pick {ℓ} : {A : Type ℓ} → Option A → Option A → Option A
pick none d = d
pick (some a) d = some a

pick-none {ℓ} : {A : Type ℓ} (o : Option A) → pick o none ≡ o
pick-none none = refl
pick-none (some a) = refl

abbrev pick_raws : List ℕ → List ℕ → List ℕ
pick_raws [] d = d
pick_raws (x ∷ xs) d = x ∷ xs

pick_raws-nil : (xs : List ℕ) → pick_raws xs [] ≡ xs
pick_raws-nil [] = refl
pick_raws-nil (x ∷ xs) = refl

abbrev parse : List (List ℕ) → InspectOptions → Option InspectOptions
parse args o = parse_options inspect_flag inspect_value inspect_plain args o

module _ (rest : List (List ℕ)) (o : InspectOptions) where
  parse-gaps_min :
      (n : Option ℕ)
      → Below (2 ^ 63) n
      → parse (number_part (codes "--expect-gaps-min") n ++ rest) o
        ≡ parse rest (record o { gaps_min = pick n o.gaps_min })
  parse-gaps_min none h = refl
  parse-gaps_min (some n) h =
      parse-takes inspect_flag inspect_value inspect_plain _ (decimal 18 n) rest gaps_min_value o _
        (unfold inspect_flag in refl)
        (ap (λ m. some (record o { gaps_min = m })) (atoi_int-decimal 18 n (omega arith)))

  parse-gaps_max :
      (n : Option ℕ)
      → Below (2 ^ 63) n
      → parse (number_part (codes "--expect-gaps-max") n ++ rest) o
        ≡ parse rest (record o { gaps_max = pick n o.gaps_max })
  parse-gaps_max none h = refl
  parse-gaps_max (some n) h =
      parse-takes inspect_flag inspect_value inspect_plain _ (decimal 18 n) rest gaps_max_value o _
        (unfold inspect_flag in refl)
        (ap (λ m. some (record o { gaps_max = m })) (atoi_int-decimal 18 n (omega arith)))

  parse-hop_idx :
      (n : Option ℕ)
      → Below (2 ^ 31) n
      → parse (number_part (codes "--expect-hop-idx") n ++ rest) o
        ≡ parse rest (record o { hop_idx = pick n o.hop_idx })
  parse-hop_idx none h = refl
  parse-hop_idx (some n) h =
      parse-takes inspect_flag inspect_value inspect_plain _ (decimal 18 n) rest hop_idx_value o _
        (unfold inspect_flag in refl)
        (ap (λ m. some (record o { hop_idx = m })) (atoi_int-decimal 18 n (omega arith)))

  parse-last_hop :
      (v : Option (List ℕ))
      → parse (text_part (codes "--expect-last-hop-min-pct") v ++ rest) o
        ≡ parse rest (record o { last_hop_min_pct = pick v o.last_hop_min_pct })
  parse-last_hop none = refl
  parse-last_hop (some v) =
      parse-takes inspect_flag inspect_value inspect_plain _ v rest last_hop_value o _
        (unfold inspect_flag in refl) refl

  parse-frames_min :
      (n : Option ℕ)
      → Below (2 ^ 63) n
      → parse (number_part (codes "--expect-frames-min") n ++ rest) o
        ≡ parse rest (record o { frames_min = pick n o.frames_min })
  parse-frames_min none h = refl
  parse-frames_min (some n) h =
      parse-takes inspect_flag inspect_value inspect_plain _ (decimal 18 n) rest frames_min_value o
        _ (unfold inspect_flag in refl)
        (ap (λ m. some (record o { frames_min = m })) (atoi_int-decimal 18 n (omega arith)))

  parse-raws :
      (xs : List ℕ)
      → All IsWord xs
      → parse (raws_part xs ++ rest) o ≡ parse rest (record o { raws = pick_raws xs o.raws })
  parse-raws [] fit = refl
  parse-raws (x ∷ xs) fit =
      parse-takes inspect_flag inspect_value inspect_plain _ (raws_text (x ∷ xs)) rest raws_value o
        _ (unfold inspect_flag in refl) (ap (with_raws o) (parse_raws-raws_text x xs fit))

parse-verbose :
    (v : Bool) (o : InspectOptions)
    → o.verbose ≡ false
    → parse (verbose_part v) o ≡ some (record o { verbose = v })
unfolding parse_options
parse-verbose false o off = ap (λ b. some (record o { verbose = b })) off
parse-verbose true o off = unfold inspect_flag in refl

parse-inspect_line :
    (o : InspectOptions) → IsInspectOptions o → parse (inspect_line o) inspect_defaults ≡ some o
parse-inspect_line o fits =
    parse-gaps_min _ _ o.gaps_min fits.gaps_min_fits
    ∙ parse-gaps_max _ _ o.gaps_max fits.gaps_max_fits
    ∙ parse-hop_idx _ _ o.hop_idx fits.hop_idx_fits
    ∙ parse-last_hop _ _ o.last_hop_min_pct
    ∙ parse-frames_min _ _ o.frames_min fits.frames_min_fits
    ∙ parse-raws _ _ o.raws fits.raws_fit
    ∙ parse-verbose o.verbose _ refl
    ∙ simp (pick-none, pick_raws-nil)

-- Of expectations whose numbers fit their types, the command line written for them makes
-- zcmesh_inspect exit with the verdict on exactly these expectations over the file named, or with
-- 1 where that does not open.
pub inspect_main-inspect_line :
    (below : List ℕ → ℕ → ℕ → Bool) (files : List ℕ → Option (List ℕ)) (path : List ℕ)
    (o : InspectOptions)
    → IsInspectOptions o
    → inspect_main below files (path ∷ inspect_line o) ≡ inspect_file below files o (files path)
unfolding inspect_main
inspect_main-inspect_line below files path o fits =
    ap (λ p. inspect_parsed below files p path) (parse-inspect_line o fits)
