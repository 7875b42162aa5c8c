-- ===== src/Inspect/Arguments/Fuel.antt =====
-- The loop of `parse_raws` of core-engine/src/inspect.cpp ends: each round moves on.
use zcmesh.Base.{
  ℕ, zero, suc, ◌≤◌, ◌<◌, ◌≡◌, refl, arith, Bool, true, false, Bool-cases, inl, inr, Option, none,
  some, Option-cases, List, [], ◌∷◌, ◌++◌, length, ◌==◌,
}
use zcmesh.Net.Endpoints.{is_digit}
use zcmesh.Inspect.Arguments.{
  skip_digits, skip_spaces, unsigned_long, signed_long, strtol, behind, raws_loop,
}

skip_digits_le : (p : List ℕ) → length (skip_digits p) ≤ length p
skip_digits_le [] = omega arith
skip_digits_le (c ∷ cs) = ground (arith, skip_digits_le cs)

skip_spaces_le : (p : List ℕ) → length (skip_spaces p) ≤ length p
skip_spaces_le [] = omega arith
skip_spaces_le (c ∷ cs) = ground (arith, skip_spaces_le cs)

-- How much is left behind a number, with one more for none.
abbrev Shorter : Option (ℕ × List ℕ) → List ℕ → Type 0
Shorter none p = Unit
Shorter (some (v, end)) p = length end < length p

unsigned_long-Shorter : (b : Bool) (p : List ℕ) → Shorter (unsigned_long b p) p
unsigned_long-Shorter b [] = tt
unsigned_long-Shorter b (c ∷ cs) = elim (Bool-cases (is_digit c)) [
  | inl digit ↦ rw digit (omega (arith, skip_digits_le cs))
  | inr other ↦ rw other tt
]

Shorter-longer :
    (r : Option (ℕ × List ℕ)) (p q : List ℕ) → length p ≤ length q → Shorter r p → Shorter r q
Shorter-longer none p q le s = tt
Shorter-longer (some (v, end)) p q le s = omega arith

signed_long-Shorter : (p : List ℕ) → Shorter (signed_long p) p
signed_long-Shorter [] = tt
signed_long-Shorter (c ∷ cs) = elim (Bool-cases (c == 45)) [
  | inl minus ↦ rw minus (
      Shorter-longer (unsigned_long true cs) cs (c ∷ cs) (omega arith)
        (unsigned_long-Shorter true cs))
  | inr other ↦ elim (Bool-cases (c == 43)) [
    | inl plus ↦
        rw (other, plus)
          (Shorter-longer (unsigned_long false cs) cs (c ∷ cs) (omega arith)
            (unsigned_long-Shorter false cs))
    | inr none_there ↦ rw (other, none_there) (unsigned_long-Shorter false (c ∷ cs))
  ]
]

strtol-Shorter : (p : List ℕ) → Shorter (strtol p) p
unfolding strtol
strtol-Shorter p =
    Shorter-longer (signed_long (skip_spaces p)) (skip_spaces p) p (skip_spaces_le p)
      (signed_long-Shorter (skip_spaces p))

behind_le : (end p : List ℕ) → behind end ≡ some p → length p ≤ length end
behind_le [] p e = ground (arith, e)
behind_le (c ∷ cs) p e = ground (arith, e)

-- More fuel than the text is long changes nothing.
pub raws_loop-fuel :
    (f g : ℕ) (p out : List ℕ) → length p ≤ f → length p ≤ g → raws_loop f p out ≡ raws_loop g p out
unfolding raws_loop
raws_loop-fuel zero g [] out h k = refl
raws_loop-fuel (suc f) g [] out h k = refl
raws_loop-fuel zero g (c ∷ cs) out h k = absurd (omega arith)
raws_loop-fuel (suc f) zero (c ∷ cs) out h k = absurd (omega arith)
raws_loop-fuel (suc f) (suc g) (c ∷ cs) out h k =
    by_number (strtol (c ∷ cs)) refl (strtol-Shorter (c ∷ cs))
      (λ p o le le'. raws_loop-fuel f g p o le le')
  where
    by_number :
        (r : Option (ℕ × List ℕ))
        → strtol (c ∷ cs) ≡ r
        → Shorter r (c ∷ cs)
        → ((p o : List ℕ) → length p ≤ f → length p ≤ g → raws_loop f p o ≡ raws_loop g p o)
        → raws_loop (suc f) (c ∷ cs) out ≡ raws_loop (suc g) (c ∷ cs) out
    by_number none e s later = rw (e, raws_loop) refl
    by_number (some (v, end)) e s later = elim (Option-cases (behind end)) [
      | inl bad ↦ rw (e, raws_loop) (rw (bad, raws_loop) refl)
      | inr (p, next) ↦
          let le = behind_le end p next in
          rw (e, raws_loop)
            (rw (next, raws_loop)
              (later p (out ++ v ∷ []) (omega (arith, s, le)) (omega (arith, s, le))))
    ]
