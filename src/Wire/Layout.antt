-- ===== src/Wire/Layout.antt =====
-- The struct of shared/wire_frame.h and its 24 bytes: `memcpy` in either direction.
use zcmesh.Base.{
  ℕ, ◌≡◌, ◌∙◌, arith, List, ◌++◌, get_or, length, All, All-get_or, IsByte, tabulate,
  tabulate-get_or,
}
use zcmesh.Wire.Frame.{Frame, frame_bytes, of_bytes, IsFrame}

-- 24 bytes copied into the struct and back are the same bytes.
pub frame_bytes-of_bytes :
    (bs : List ℕ) → length bs ≡ 24 → All IsByte bs → frame_bytes (of_bytes bs) ≡ bs
unfolding frame_bytes of_bytes
frame_bytes-of_bytes bs h a = fields ∙ tabulate-get_or 24 bs 0 h
  where
    lt : (i : ℕ) → IsByte (get_or bs i 0)
    lt i = All-get_or IsByte bs i 0 (omega arith) a

    fields : frame_bytes (of_bytes bs) ≡ tabulate 24 (λ i. get_or bs i 0)
    fields = ground (
      arith,
      lt 0,
      lt 1,
      lt 2,
      lt 3,
      lt 4,
      lt 5,
      lt 6,
      lt 7,
      lt 8,
      lt 9,
      lt 10,
      lt 11,
      lt 12,
      lt 13,
      lt 14,
      lt 15,
      lt 16,
      lt 17,
      lt 18,
      lt 19,
      lt 20,
      lt 21,
      lt 22,
      lt 23,
    )

-- A struct whose fields fit their types comes back from its bytes, whatever bytes follow.
pub of_bytes-frame_bytes :
    (f : Frame) (rest : List ℕ) → IsFrame f → of_bytes (frame_bytes f ++ rest) ≡ f
unfolding frame_bytes of_bytes
of_bytes-frame_bytes f rest v = ground arith
