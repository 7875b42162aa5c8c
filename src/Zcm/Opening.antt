-- ===== src/Zcm/Opening.antt =====
-- What a reader of shared/zcm_file.h's format makes of a file.
use zcmesh.Base.{
  ℕ, ◌^◌, ◌<◌, ◌≡◌, refl, ◌∙◌, ap, arith, List, ◌++◌, length, take, drop, some, take-append,
  drop-append_left, drop-all,
}
use zcmesh.Zcm.{ZcmHeader, header_bytes, header_of_bytes, header_for, open_capture}

pub length-header_bytes : (h : ZcmHeader) → length (header_bytes h) ≡ 16
unfolding header_bytes
length-header_bytes h = refl

header_of_bytes-header_bytes :
    (n : ℕ) → n < 2 ^ 64 → header_of_bytes (header_bytes (header_for n)) ≡ header_for n
unfolding header_bytes header_of_bytes
header_of_bytes-header_bytes n h = ground arith

-- A file that starts with the header of a count opens with that count.
pub open_capture-header_bytes :
    (n : ℕ) (left : List ℕ)
    → n < 2 ^ 64
    → open_capture (header_bytes (header_for n) ++ left) ≡ some (header_for n, left)
unfolding open_capture
open_capture-header_bytes n left h =
    let hb = header_bytes (header_for n) in
    let size : length hb ≡ 16 = length-header_bytes (header_for n) in
    let head : take 16 (hb ++ left) ≡ hb = take-append 16 hb left size in
    let rest : drop 16 (hb ++ left) ≡ left =
      drop-append_left 16 hb left (omega arith)
      ∙ ap (λ l. l ++ left) (drop-all 16 hb (omega arith)) in
    rw (head, rest, size, header_of_bytes-header_bytes n h) refl
