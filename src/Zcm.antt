-- ===== src/Zcm.antt =====
-- The capture file of shared/zcm_file.h: its header, `rewrite_header` of core-engine/src/capture.cpp,
-- and the file operations of the C library that the programs use.
pub mod Writing
pub mod Opening
use zcmesh.Base.{
  [], ℕ, ◌+◌, ◌-◌, ◌*◌, ◌%◌, ◌^◌, min, not, ◌||◌, Bool, true, false, Option, none, some, List, ◌++◌,
  ltb, ◌==◌, if◌then◌else◌, length, take, drop, get_or, le16, le32, le64, of_le16, of_le32, of_le64,
}
use zcmesh.Capture.{FileApi}

abbrev pub zcm_magic : ℕ
zcm_magic = 0x314D435A

abbrev pub zcm_version : ℕ
zcm_version = 1

abbrev pub zcm_header_size : ℕ
zcm_header_size = 16

pub record ZcmHeader : Type 0 where
  pub magic : ℕ
  pub version : ℕ
  pub reserved : ℕ
  pub frame_count : ℕ

-- The 16 bytes of the packed struct, and back.
unfoldable pub header_bytes : ZcmHeader → List ℕ
header_bytes h = le32 h.magic ++ (le16 h.version ++ (le16 h.reserved ++ le64 h.frame_count))

unfoldable pub header_of_bytes : List ℕ → ZcmHeader
header_of_bytes b = record {
  magic = of_le32 (get_or b 0 0) (get_or b 1 0) (get_or b 2 0) (get_or b 3 0);
  version = of_le16 (get_or b 4 0) (get_or b 5 0);
  reserved = of_le16 (get_or b 6 0) (get_or b 7 0);
  frame_count =
      of_le64 (of_le32 (get_or b 8 0) (get_or b 9 0) (get_or b 10 0) (get_or b 11 0))
        (of_le32 (get_or b 12 0) (get_or b 13 0) (get_or b 14 0) (get_or b 15 0));
}

-- A file that is written and whose start is sought with `fseek(f, 0, SEEK_SET)`.
pub record SeekApi (W : Type 0) : Type 0 where
  pub file : FileApi W
  pub rewind : W → Bool × W

abbrev pub header_for : ℕ → ZcmHeader
header_for frame_count = record {
  magic = zcm_magic;
  version = zcm_version;
  reserved = 0;
  frame_count = frame_count;
}

unfoldable pub rewrite_header : {W : Type 0} → SeekApi W → ℕ → W → Bool × W
rewrite_header api frame_count w =
    let (sought, w1) = api.rewind w in
    let (n, w2) = api.file.fwrite (header_bytes (header_for frame_count)) w1 in
    if not sought then (false, w1) else (n == zcm_header_size, w2)

-- A file as the C library sees it, on a disk that has room for `limit` bytes of it: writing replaces
-- what stands at the position or extends the file, as far as there is room.
pub record File : Type 0 where
  pub text : List ℕ
  pub position : ℕ
  pub limit : ℕ

-- `fopen(path, "wb+")`
abbrev pub new_file : ℕ → File
new_file limit = record { text = []; position = 0; limit = limit }

unfoldable pub write : List ℕ → File → ℕ × File
write bytes f =
    let n = min (length bytes) (f.limit - f.position) in
    (
      n,
      record f {
        text = take f.position f.text ++ (take n bytes ++ drop (f.position + n) f.text);
        position = f.position + n;
      },
    )

abbrev pub seek_start : File → Bool × File
seek_start f = (true, record f { position = 0 })

abbrev pub disk_file : SeekApi File
disk_file = record { file = record { fwrite = write }; rewind = seek_start }

-- `fread(buf, 1, n, f)` from the bytes that are left: what it reads and what is left then.
abbrev pub read : ℕ → List ℕ → List ℕ × List ℕ
read n left = (take n left, drop n left)

-- The start of `main` of zcmesh_inspect and of zcmesh_replay: the header and the bytes behind it, or
-- none where it is short, or of another format.
unfoldable pub open_capture : List ℕ → Option (ZcmHeader × List ℕ)
open_capture text =
    let (head, left) = read zcm_header_size text in
    let hdr = header_of_bytes head in
    if not (length head == zcm_header_size)
    then none
    else if not (hdr.magic == zcm_magic) || not (hdr.version == zcm_version)
    then none
    else some (hdr, left)
