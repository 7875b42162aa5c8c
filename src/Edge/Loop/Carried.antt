-- ===== src/Edge/Loop/Carried.antt =====
-- The values that a run of core-engine/src/main.cpp without loss injection puts on the wire.
use zcmesh.Base.{
  ℕ, zero, suc, ◌+◌, ◌-◌, ◌≤◌, ◌≡◌, refl, sym, ◌∙◌, ap, ap₂, arith, Option, some, List, [], ◌∷◌,
  ◌++◌, All, length, take, drop, get_elem?, subst, append_assoc, length-append,
}
use zcmesh.Wire.Frame.{Frame}
use zcmesh.Inspect.Reading.{raws_of}
use zcmesh.Edge.Loop.{Reading}
use zcmesh.Edge.Loop.Delivery.{Numbered}
use zcmesh.Edge.Loop.Sampled.{Carries}
use zcmesh.Edge.Loop.Run.{Feeds}

-- Which reading has a number, where the first has `low`.
abbrev pub reading_at : List Reading → ℕ → ℕ → Option Reading
reading_at readings low n = get_elem? readings (n - low)

abbrev pub raws_read : List Reading → List ℕ
raws_read [] = []
raws_read (r ∷ rs) = r.raw ∷ raws_read rs

drop-get_elem? :
    (i : ℕ) (rs : List Reading) (r : Reading)
    → get_elem? rs i ≡ some r
    → drop i rs ≡ r ∷ drop (suc i) rs
drop-get_elem? zero [] r e = cc
drop-get_elem? zero (x ∷ rs) r e = ap (λ y. y ∷ rs) (ground (arith, e))
drop-get_elem? (suc i) [] r e = cc
drop-get_elem? (suc i) (x ∷ rs) r e = drop-get_elem? i rs r e

get_elem?-append :
    (xs rs : List Reading) (r : Reading) → get_elem? (xs ++ r ∷ rs) (length xs) ≡ some r
get_elem?-append [] rs r = refl
get_elem?-append (x ∷ xs) rs r = get_elem?-append xs rs r

Feeds-append :
    (low : ℕ) (xs rs : List Reading) → Feeds (reading_at (xs ++ rs) low) (low + length xs) rs
Feeds-append low xs [] = tt
Feeds-append low xs (r ∷ rs) =
    let here : low + length xs - low ≡ length xs = omega arith in
    let next : low + length (xs ++ r ∷ []) ≡ low + length xs + 1 =
      omega (arith, length-append xs (r ∷ [])) in
    (
      ap (get_elem? (xs ++ r ∷ rs)) here ∙ get_elem?-append xs rs r,
      subst (λ l. Feeds (reading_at l low) (low + length xs + 1) rs) (append_assoc xs (r ∷ []) rs)
          (subst (λ n. Feeds (reading_at ((xs ++ r ∷ []) ++ rs) low) n rs) next
            (Feeds-append low (xs ++ r ∷ []) rs)),
    )

pub Feeds-reading_at :
    (low : ℕ) (readings : List Reading) → Feeds (reading_at readings low) low readings
Feeds-reading_at low readings =
    let same : low + 0 ≡ low = omega arith in
    subst (λ n. Feeds (reading_at readings low) n readings) same (Feeds-append low [] readings)

Numbered-room :
    (node_id low : ℕ) (fs : List Frame) (high : ℕ)
    → Numbered node_id low fs high
    → low + length fs ≤ high
Numbered-room node_id low [] high n = omega (arith, n)
Numbered-room node_id low (f ∷ fs) high (ge, own, n) =
    omega (arith, ge, Numbered-room node_id (suc f.seq) fs high n)

-- Frames with all the numbers there are carry the readings in order.
in_order :
    (node_id low i : ℕ) (fs : List Frame) (high : ℕ) (readings : List Reading)
    → Numbered node_id (low + i) fs high
    → high ≡ low + i + length fs
    → All (Carries (reading_at readings low)) fs
    → raws_of fs ≡ raws_read (take (length fs) (drop i readings))
in_order node_id low i [] high readings n all c = refl
in_order node_id low i (f ∷ fs) high readings (ge, own, n) all ((r, found, same, kind), c) =
    let room = Numbered-room node_id (suc f.seq) fs high n in
    let exact : f.seq ≡ low + i = omega (arith, ge, room, all) in
    let here : get_elem? readings i ≡ some r =
      ap (get_elem? readings) (omega (arith, exact)) ∙ found in
    let rest =
      in_order node_id low (suc i) fs high readings
        (subst (λ k. Numbered node_id k fs high) (omega (arith, exact)) n) (omega (arith, all)) c in
    ap₂ (◌∷◌) same rest
    ∙ ap (λ l. raws_read (take (suc (length fs)) l)) (sym (drop-get_elem? i readings r here))

pub raws_of-in_order :
    (node_id low : ℕ) (fs : List Frame) (high : ℕ) (readings : List Reading)
    → Numbered node_id low fs high
    → high ≡ low + length fs
    → All (Carries (reading_at readings low)) fs
    → raws_of fs ≡ raws_read (take (length fs) readings)
raws_of-in_order node_id low fs high readings n all c =
    let same : low ≡ low + 0 = omega arith in
    in_order node_id low 0 fs high readings (subst (λ k. Numbered node_id k fs high) same n)
      (omega (arith, all)) c
