-- ===== src/Base/Slices.antt =====
-- Lemmas on lists: predicates on all elements, writes, and slices.
use Prim.Native.Nat.{ℕ, zero, suc, ◌+◌, ◌-◌, ◌≤◌, ◌<◌}
use mathlib.Core.Path.{◌≡◌, refl, sym, ap}
use mathlib.Core.Logic.{◌≢◌}
use mathlib.Core.List.{List, [], ◌∷◌, ◌++◌}
use native.Mathlib.Omega.{arith}
use zcmesh.Base.Tests.{◌==◌, if◌then◌else◌}
use zcmesh.Base.Lists.{length, set, get_or, take, drop, replicate}

module _ {ℓ} {A : Type ℓ} where
  pub take-suc-set :
      (n : ℕ) (xs : List A) (v : A)
      → n < length xs
      → take (suc n) (set xs n v) ≡ take n xs ++ v ∷ []
  take-suc-set n [] v h = absurd (omega arith)
  take-suc-set zero (x ∷ xs) v h = refl
  take-suc-set (suc n) (x ∷ xs) v h = ap (◌∷◌ x) (take-suc-set n xs v (omega arith))

  abbrev pub All {κ} : (A → Type κ) → List A → Type κ
  All P [] = Unit
  All P (x ∷ xs) = P x × All P xs

  pub All-get_or {κ} :
      (P : A → Type κ) (xs : List A) (i : ℕ) (d : A) → P d → All P xs → P (get_or xs i d)
  All-get_or P [] i d h a = h
  All-get_or P (x ∷ xs) zero d h a = a.0
  All-get_or P (x ∷ xs) (suc i) d h a = All-get_or P xs i d h a.1

  -- The list of the first `n` values of a function.
  abbrev pub tabulate : ℕ → (ℕ → A) → List A
  tabulate zero f = []
  tabulate (suc n) f = f 0 ∷ tabulate n (λ i. f (suc i))

  pub tabulate-get_or :
      (n : ℕ) (xs : List A) (d : A) → length xs ≡ n → tabulate n (λ i. get_or xs i d) ≡ xs
  tabulate-get_or zero [] d h = refl
  tabulate-get_or zero (x ∷ xs) d h = absurd (omega arith)
  tabulate-get_or (suc n) [] d h = absurd (omega arith)
  tabulate-get_or (suc n) (x ∷ xs) d h = ap (◌∷◌ x) (tabulate-get_or n xs d (omega arith))

  pub get_or-set :
      (xs : List A) (i j : ℕ) (v d : A)
      → i < length xs
      → get_or (set xs i v) j d ≡ (if i == j then v else get_or xs j d)
  get_or-set [] i j v d h = absurd (omega arith)
  get_or-set (x ∷ xs) zero zero v d h = refl
  get_or-set (x ∷ xs) zero (suc j) v d h = ground arith
  get_or-set (x ∷ xs) (suc i) zero v d h = ground arith
  get_or-set (x ∷ xs) (suc i) (suc j) v d h = ground (arith, get_or-set xs i j v d)

  pub take-set : (n : ℕ) (xs : List A) (i : ℕ) (v : A) → take n (set xs i v) ≡ set (take n xs) i v
  take-set zero xs i v = refl
  take-set (suc n) [] i v = refl
  take-set (suc n) (x ∷ xs) zero v = refl
  take-set (suc n) (x ∷ xs) (suc i) v = ap (◌∷◌ x) (take-set n xs i v)

  pub set_outside : (xs : List A) (i : ℕ) (v : A) → length xs ≤ i → set xs i v ≡ xs
  set_outside [] i v h = refl
  set_outside (x ∷ xs) zero v h = absurd (omega arith)
  set_outside (x ∷ xs) (suc i) v h = ap (◌∷◌ x) (set_outside xs i v (omega arith))

  pub get_or-take :
      (n : ℕ) (xs : List A) (i : ℕ) (d : A) → i < n → get_or (take n xs) i d ≡ get_or xs i d
  get_or-take zero xs i d h = absurd (omega arith)
  get_or-take (suc n) [] i d h = refl
  get_or-take (suc n) (x ∷ xs) zero d h = refl
  get_or-take (suc n) (x ∷ xs) (suc i) d h = get_or-take n xs i d (omega arith)

  pub All-set {κ} :
      (P : A → Type κ) (xs : List A) (i : ℕ) (v : A) → P v → All P xs → All P (set xs i v)
  All-set P [] i v h a = tt
  All-set P (x ∷ xs) zero v h a = (h, a.1)
  All-set P (x ∷ xs) (suc i) v h a = (a.0, All-set P xs i v h a.1)

  pub All-take {κ} : (P : A → Type κ) (n : ℕ) (xs : List A) → All P xs → All P (take n xs)
  All-take P zero xs a = tt
  All-take P (suc n) [] a = tt
  All-take P (suc n) (x ∷ xs) a = (a.0, All-take P n xs a.1)

  pub All-drop {κ} : (P : A → Type κ) (n : ℕ) (xs : List A) → All P xs → All P (drop n xs)
  All-drop P zero xs a = a
  All-drop P (suc n) [] a = tt
  All-drop P (suc n) (x ∷ xs) a = All-drop P n xs a.1

  pub All-append {κ} : (P : A → Type κ) (xs ys : List A) → All P xs → All P ys → All P (xs ++ ys)
  All-append P [] ys a b = b
  All-append P (x ∷ xs) ys a b = (a.0, All-append P xs ys a.1 b)

  pub set-append : (xs ys : List A) (y v : A) → set (xs ++ y ∷ ys) (length xs) v ≡ xs ++ v ∷ ys
  set-append [] ys y v = refl
  set-append (x ∷ xs) ys y v = ap (◌∷◌ x) (set-append xs ys y v)

  pub take-add : (n m : ℕ) (xs : List A) → take (n + m) xs ≡ take n xs ++ take m (drop n xs)
  take-add zero m xs = let e : 0 + m ≡ m = omega arith in rw e
  take-add (suc n) zero [] = let e : suc n + 0 ≡ suc n = omega arith in rw e
  take-add (suc n) (suc m) [] = let e : suc n + suc m ≡ suc (n + suc m) = omega arith in rw e
  take-add (suc n) m (x ∷ xs) =
      let e : suc n + m ≡ suc (n + m) = omega arith in rw e (ap (◌∷◌ x) (take-add n m xs))

  pub take-take : (n m : ℕ) (xs : List A) → n ≤ m → take n (take m xs) ≡ take n xs
  take-take zero m xs h = refl
  take-take (suc n) zero xs h = absurd (omega arith)
  take-take (suc n) (suc m) [] h = refl
  take-take (suc n) (suc m) (x ∷ xs) h = ap (◌∷◌ x) (take-take n m xs (omega arith))

  pub take-nil : (n : ℕ) → take {A = A} n [] ≡ []
  take-nil zero = refl
  take-nil (suc n) = refl

  pub drop-take : (n m : ℕ) (xs : List A) → drop n (take m xs) ≡ take (m - n) (drop n xs)
  drop-take zero m xs = let e : m - 0 ≡ m = omega arith in rw e
  drop-take (suc n) zero xs = let e : 0 - suc n ≡ 0 = omega arith in rw e
  drop-take (suc n) (suc m) [] = sym (take-nil (suc m - suc n))
  drop-take (suc n) (suc m) (x ∷ xs) =
      let e : suc m - suc n ≡ m - n = omega arith in rw e (drop-take n m xs)

  pub take-append : (n : ℕ) (xs ys : List A) → length xs ≡ n → take n (xs ++ ys) ≡ xs
  take-append n [] ys h = let e : n ≡ 0 = omega arith in rw e
  take-append zero (x ∷ xs) ys h = absurd (omega arith)
  take-append (suc n) (x ∷ xs) ys h = ap (◌∷◌ x) (take-append n xs ys (omega arith))

  pub take-append_past :
      (k : ℕ) (xs ys : List A) → take (length xs + k) (xs ++ ys) ≡ xs ++ take k ys
  take-append_past k [] ys = let e : 0 + k ≡ k = omega arith in rw e
  take-append_past k (x ∷ xs) ys =
      let e : suc (length xs) + k ≡ suc (length xs + k) = omega arith in
      rw e (ap (◌∷◌ x) (take-append_past k xs ys))

  pub get_or-set_self :
      (xs : List A) (i : ℕ) (v d : A) → i < length xs → get_or (set xs i v) i d ≡ v
  get_or-set_self [] i v d h = absurd (omega arith)
  get_or-set_self (x ∷ xs) zero v d h = refl
  get_or-set_self (x ∷ xs) (suc i) v d h = get_or-set_self xs i v d (omega arith)

  pub get_or-set_ne :
      (xs : List A) (i j : ℕ) (v d : A) → i ≢ j → get_or (set xs i v) j d ≡ get_or xs j d
  get_or-set_ne [] i j v d ne = refl
  get_or-set_ne (x ∷ xs) zero zero v d ne = absurd (ne refl)
  get_or-set_ne (x ∷ xs) zero (suc j) v d ne = refl
  get_or-set_ne (x ∷ xs) (suc i) zero v d ne = refl
  get_or-set_ne (x ∷ xs) (suc i) (suc j) v d ne = get_or-set_ne xs i j v d (λ e. ne (ap suc e))

  pub All-get_lt {κ} :
      (P : A → Type κ) (xs : List A) (i : ℕ) (d : A) → i < length xs → All P xs → P (get_or xs i d)
  All-get_lt P [] i d h a = absurd (omega arith)
  All-get_lt P (x ∷ xs) zero d h a = a.0
  All-get_lt P (x ∷ xs) (suc i) d h a = All-get_lt P xs i d (omega arith) a.1

  pub All-replicate {κ} : (P : A → Type κ) (n : ℕ) (a : A) → P a → All P (replicate n a)
  All-replicate P zero a h = tt
  All-replicate P (suc n) a h = (h, All-replicate P n a h)
