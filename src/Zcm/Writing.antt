-- ===== src/Zcm/Writing.antt =====
-- Writing to a file of core-engine/src/capture.cpp: at its end, and its header again.
use zcmesh.Base.{
  ℕ, ◌+◌, ◌-◌, ◌≤◌, ◌≡◌, refl, ◌∙◌, ap, arith, min, true, List, [], ◌++◌, ◌==◌, append-nil, length,
  take, drop, length-append, length-take, drop-all, take-all, ap₂,
}
use zcmesh.Zcm.{zcm_header_size, File, write, rewrite_header, disk_file, header_bytes, header_for}
use zcmesh.Zcm.Opening.{length-header_bytes}

-- The file stands at its end, within its room.
pub record AtEnd (f : File) : Type 0 where
  pub at_end : f.position ≡ length f.text
  pub room : length f.text ≤ f.limit

-- Behind the end, what there is room for is appended.
pub write-AtEnd :
    (bytes : List ℕ) (f : File)
    → AtEnd f
    → let (n, f') = write bytes f in
      (n ≡ min (length bytes) (f.limit - length f.text))
      × (f'.text ≡ f.text ++ take n bytes)
      × (f'.limit ≡ f.limit)
      × AtEnd f'
unfolding write
write-AtEnd bytes f v =
    let n = min (length bytes) (f.limit - f.position) in
    let front : take f.position f.text ≡ f.text =
      take-all f.position f.text (omega (arith, v.at_end)) in
    let back : drop (f.position + n) f.text ≡ [] =
      drop-all (f.position + n) f.text (omega (arith, v.at_end)) in
    rw (front, back, append-nil)
      (
        omega (arith, v.at_end),
        refl,
        refl,
        record {
          at_end =
              omega (arith, v.at_end, length-append f.text (take n bytes), length-take n bytes);
          room =
              omega
                (arith, v.at_end, v.room, length-append f.text (take n bytes), length-take n bytes);
        },
      )

write_start :
    (bytes : List ℕ) (f : File)
    → length bytes ≤ f.limit
    → let (n, f') = write bytes (record f { position = 0 }) in
      (n ≡ length bytes)
      × (f'.text ≡ bytes ++ drop (length bytes) f.text)
      × (f'.position ≡ length bytes)
unfolding write
write_start bytes f h =
    let all : min (length bytes) (f.limit - 0) ≡ length bytes = omega arith in
    (
      all,
      ap (λ n. take n bytes ++ drop (0 + n) f.text) all
          ∙ ap₂ (λ l n. l ++ drop n f.text) (take-all (length bytes) bytes (omega arith))
              (omega arith),
      omega arith,
    )

-- The header is written over the first 16 bytes.
pub rewrite_header-text :
    (count : ℕ) (f : File)
    → 16 ≤ f.limit
    → let (ok, f') = rewrite_header disk_file count f in
      (ok ≡ true)
      × (f'.text ≡ header_bytes (header_for count) ++ drop 16 f.text)
      × (f'.position ≡ 16)
      × (f'.limit ≡ f.limit)
unfolding rewrite_header
rewrite_header-text count f h =
    let hb = header_bytes (header_for count) in
    let size : length hb ≡ 16 = length-header_bytes (header_for count) in
    let (n, text, position) = write_start hb f (omega arith) in
    (
      ap (λ k. k == zcm_header_size) (n ∙ size),
      text ∙ ap (λ k. hb ++ drop k f.text) size,
      position ∙ size,
      unfold write in refl,
    )
