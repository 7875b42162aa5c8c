-- ===== src/Wire/Frame.antt =====
-- The packed struct of shared/wire_frame.h and the sample of core-engine/include/frame.hpp.
-- A field holds its unsigned bit pattern, also `raw_value`, which C reads as an int32_t.
use zcmesh.Base.{ℕ, ◌^◌, ◌<◌, List, ◌∷◌, ◌++◌, le16, le32, of_le16, of_le32, get_or}

abbrev pub wire_magic : ℕ
wire_magic = 0x5A43

abbrev pub wire_version : ℕ
wire_version = 1

abbrev pub wire_frame_size : ℕ
wire_frame_size = 24

abbrev pub flag_last_hop : ℕ
flag_last_hop = 2

abbrev pub crc_payload_len : ℕ
crc_payload_len = 20

abbrev pub crc_seed : ℕ
crc_seed = 0xFFFFFFFF

pub record Frame : Type 0 where
  pub magic : ℕ
  pub version : ℕ
  pub flags : ℕ
  pub seq : ℕ
  pub timestamp_lo : ℕ
  pub node_id : ℕ
  pub sensor_type : ℕ
  pub reserved : ℕ
  pub raw_value : ℕ
  pub checksum : ℕ

pub record SensorSample : Type 0 where
  pub seq : ℕ
  pub timestamp_ns : ℕ
  pub node_id : ℕ
  pub sensor_type : ℕ
  pub flags : ℕ
  pub reserved : ℕ
  pub raw_value : ℕ

-- The 24 bytes of the struct in memory.
unfoldable pub frame_bytes : Frame → List ℕ
frame_bytes f =
    le16 f.magic
    ++ (f.version
        ∷ f.flags
        ∷ (le32 f.seq
            ++ (le32 f.timestamp_lo
                ++ (le16 f.node_id
                    ++ (f.sensor_type ∷ f.reserved ∷ (le32 f.raw_value ++ le32 f.checksum))))))

-- `memcpy(&frame, bytes, 24)`; the callers have at least 24 bytes.
unfoldable pub of_bytes : List ℕ → Frame
of_bytes bs = record {
  magic = of_le16 (get_or bs 0 0) (get_or bs 1 0);
  version = get_or bs 2 0;
  flags = get_or bs 3 0;
  seq = of_le32 (get_or bs 4 0) (get_or bs 5 0) (get_or bs 6 0) (get_or bs 7 0);
  timestamp_lo = of_le32 (get_or bs 8 0) (get_or bs 9 0) (get_or bs 10 0) (get_or bs 11 0);
  node_id = of_le16 (get_or bs 12 0) (get_or bs 13 0);
  sensor_type = get_or bs 14 0;
  reserved = get_or bs 15 0;
  raw_value = of_le32 (get_or bs 16 0) (get_or bs 17 0) (get_or bs 18 0) (get_or bs 19 0);
  checksum = of_le32 (get_or bs 20 0) (get_or bs 21 0) (get_or bs 22 0) (get_or bs 23 0);
}

-- Every field fits its C type.
pub record IsFrame (f : Frame) : Type 0 where
  pub magic_fits : f.magic < 2 ^ 16
  pub version_fits : f.version < 2 ^ 8
  pub flags_fits : f.flags < 2 ^ 8
  pub seq_fits : f.seq < 2 ^ 32
  pub timestamp_fits : f.timestamp_lo < 2 ^ 32
  pub node_fits : f.node_id < 2 ^ 16
  pub sensor_fits : f.sensor_type < 2 ^ 8
  pub reserved_fits : f.reserved < 2 ^ 8
  pub raw_fits : f.raw_value < 2 ^ 32
  pub checksum_fits : f.checksum < 2 ^ 32
