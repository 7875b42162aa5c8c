-- ===== src/Inspect/Arguments/Raws.antt =====
-- The raw values that `parse_raws` of core-engine/src/inspect.cpp reads.
use zcmesh.Base.{
  ℕ, zero, suc, ◌+◌, ◌-◌, ◌*◌, ◌/◌, ◌%◌, ◌^◌, ◌≤◌, ◌<◌, ◌≡◌, refl, sym, ◌∙◌, ap, arith, min, Bool,
  true, false, Bool-cases, inl, inr, some, List, [], ◌∷◌, ◌++◌, append_assoc, append-nil, All,
  length, length-append, ltb, ltb→le, ◌==◌, if◌then◌else◌, IsWord,
}
use zcmesh.Net.Endpoints.{digits, is_digit, is_space}
use zcmesh.Net.Endpoints.Printing.{decimal, IsDigit, decimal-IsDigit, digits-decimal}
use zcmesh.Inspect.Arguments.{
  skip_digits, unsigned_long, strtol, behind, raws_loop, some_raws, parse_raws,
}

-- No digit stands at the front.
abbrev NoDigit : List ℕ → Type 0
NoDigit [] = Unit
NoDigit (c ∷ cs) = is_digit c ≡ false

digits-front :
    (n : ℕ) (ds rest : List ℕ) → All IsDigit ds → NoDigit rest → digits n (ds ++ rest) ≡ digits n ds
digits-front n [] [] a stop = refl
digits-front n [] (c ∷ rest) a stop = rw stop refl
digits-front n (d ∷ ds) rest a stop =
    let digit : is_digit d ≡ true = ground (arith, a.0) in
    rw digit (digits-front (n * 10 + (d - 48)) ds rest a.1 stop)

skip_digits-front :
    (ds rest : List ℕ) → All IsDigit ds → NoDigit rest → skip_digits (ds ++ rest) ≡ rest
skip_digits-front [] [] a stop = refl
skip_digits-front [] (c ∷ rest) a stop = rw stop refl
skip_digits-front (d ∷ ds) rest a stop =
    let digit : is_digit d ≡ true = ground (arith, a.0) in
    rw digit (skip_digits-front ds rest a.1 stop)

unsigned_long-digits :
    (negative : Bool) (ds rest : List ℕ)
    → 0 < length ds
    → All IsDigit ds
    → NoDigit rest
    → unsigned_long negative (ds ++ rest)
      ≡ some (
        (if negative
            then (2 ^ 64 - min (digits 0 ds) (2 ^ 63)) % 2 ^ 32
            else min (digits 0 ds) (2 ^ 63 - 1) % 2 ^ 32),
        rest,
      )
unsigned_long-digits negative [] rest h a stop = absurd (omega arith)
unsigned_long-digits negative (d ∷ ds) rest h a stop =
    let digit : is_digit d ≡ true = ground (arith, a.0) in
    rw
      (digit, skip_digits-front ds rest a.1 stop, digits-front (0 * 10 + (d - 48)) ds rest a.1 stop)
      refl

strtol-digits :
    (ds rest : List ℕ)
    → 0 < length ds
    → All IsDigit ds
    → NoDigit rest
    → strtol (ds ++ rest) ≡ some (min (digits 0 ds) (2 ^ 63 - 1) % 2 ^ 32, rest)
unfolding strtol
strtol-digits [] rest h a stop = absurd (omega arith)
strtol-digits (d ∷ ds) rest h a stop =
    let solid : is_space d ≡ false = ground (arith, a.0) in
    let no_minus : (d == 45) ≡ false = ground (arith, a.0) in
    let no_plus : (d == 43) ≡ false = ground (arith, a.0) in
    rw (solid, no_minus, no_plus) (unsigned_long-digits false (d ∷ ds) rest h a stop)

-- A 32-bit pattern as the signed number that it stands for.
abbrev pub raw_text : ℕ → List ℕ
raw_text x = if ltb x (2 ^ 31) then decimal 9 x else 45 ∷ decimal 9 (2 ^ 32 - x)

abbrev pub raws_text : List ℕ → List ℕ
raws_text [] = []
raws_text (x ∷ []) = raw_text x
raws_text (x ∷ y ∷ xs) = raw_text x ++ 44 ∷ raws_text (y ∷ xs)

length-decimal_pos : (n x : ℕ) → 0 < length (decimal n x)
length-decimal_pos zero x = omega arith
length-decimal_pos (suc n) x = elim (Bool-cases (ltb x 10)) [
  | inl low ↦ rw low (omega arith)
  | inr high ↦ rw high (omega (arith, length-append (decimal n (x / 10)) ((48 + x % 10) ∷ [])))
]

pub length-raw_text_pos : (x : ℕ) → 0 < length (raw_text x)
length-raw_text_pos x = elim (Bool-cases (ltb x (2 ^ 31))) [
  | inl low ↦ rw low (length-decimal_pos 9 x)
  | inr high ↦ rw high (omega arith)
]

pub strtol-raw_text :
    (x : ℕ) (rest : List ℕ) → IsWord x → NoDigit rest → strtol (raw_text x ++ rest) ≡ some (x, rest)
strtol-raw_text x rest fits stop = elim (Bool-cases (ltb x (2 ^ 31))) [
  | inl low ↦ rw low (
      strtol-digits (decimal 9 x) rest (length-decimal_pos 9 x) (decimal-IsDigit 9 x (omega arith))
        stop
      ∙ ap (λ n. some (n, rest)) (omega (arith, digits-decimal 9 x (omega arith))))
  | inr high ↦
      let m = 2 ^ 32 - x in
      let small = ltb→le x (2 ^ 31) high in
      rw high (
        unfold strtol in
        unsigned_long-digits true (decimal 9 m) rest (length-decimal_pos 9 m)
          (decimal-IsDigit 9 m (omega (arith, small))) stop
        ∙ ap (λ n. some (n, rest))
            (omega (arith, small, digits-decimal 9 m (omega (arith, small)))))
]

-- One round of the loop.
raws_loop-step :
    (fuel v : ℕ) (p end p' out : List ℕ)
    → 0 < length p
    → strtol p ≡ some (v, end)
    → behind end ≡ some p'
    → raws_loop (suc fuel) p out ≡ raws_loop fuel p' (out ++ v ∷ [])
unfolding raws_loop
raws_loop-step fuel v [] end p' out h number follows = absurd (omega arith)
raws_loop-step fuel v (c ∷ cs) end p' out h number follows =
    rw (number, raws_loop) (rw (follows, raws_loop) refl)

raws_loop-raws_text :
    (fuel : ℕ) (xs out : List ℕ)
    → All IsWord xs
    → length (raws_text xs) ≤ fuel
    → raws_loop fuel (raws_text xs) out ≡ some (out ++ xs)
unfolding raws_loop
raws_loop-raws_text fuel [] out fit h = ap some (sym (append-nil out))
raws_loop-raws_text zero (x ∷ []) out fit h = absurd (omega (arith, length-raw_text_pos x))
raws_loop-raws_text (suc fuel) (x ∷ []) out fit h =
    raws_loop-step fuel x (raw_text x) [] [] out (length-raw_text_pos x)
      (ap strtol (sym (append-nil (raw_text x))) ∙ strtol-raw_text x [] fit.0 tt) refl
raws_loop-raws_text zero (x ∷ y ∷ xs) out fit h =
    absurd (omega (arith, length-append (raw_text x) (44 ∷ raws_text (y ∷ xs))))
raws_loop-raws_text (suc fuel) (x ∷ y ∷ xs) out fit h =
    let rest = raws_text (y ∷ xs) in
    let size = length-append (raw_text x) (44 ∷ rest) in
    raws_loop-step fuel x (raw_text x ++ 44 ∷ rest) (44 ∷ rest) rest out (omega (arith, size))
      (strtol-raw_text x (44 ∷ rest) fit.0 refl) refl
    ∙ raws_loop-raws_text fuel (y ∷ xs) (out ++ x ∷ []) fit.1
        (omega (arith, size, length-raw_text_pos x))
    ∙ ap some (append_assoc out (x ∷ []) (y ∷ xs))

parse_raws-some :
    (p : List ℕ) (x : ℕ) (xs : List ℕ)
    → 0 < length p
    → raws_loop (length p) p [] ≡ some (x ∷ xs)
    → parse_raws p ≡ some (x ∷ xs)
unfolding parse_raws
parse_raws-some [] x xs h e = absurd (omega arith)
parse_raws-some (c ∷ cs) x xs h e = ap some_raws e

length-raws_text_pos : (x : ℕ) (xs : List ℕ) → 0 < length (raws_text (x ∷ xs))
length-raws_text_pos x [] = length-raw_text_pos x
length-raws_text_pos x (y ∷ xs) =
    omega (arith, length-append (raw_text x) (44 ∷ raws_text (y ∷ xs)))

-- The 32-bit raw values of a list that is not empty are read back from their text.
pub parse_raws-raws_text :
    (x : ℕ) (xs : List ℕ) → All IsWord (x ∷ xs) → parse_raws (raws_text (x ∷ xs)) ≡ some (x ∷ xs)
parse_raws-raws_text x xs fit =
    let p = raws_text (x ∷ xs) in
    parse_raws-some p x xs (length-raws_text_pos x xs)
      (raws_loop-raws_text (length p) (x ∷ xs) [] fit (omega arith))
