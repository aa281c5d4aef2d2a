-- ===== src/Chunk.antt =====
-- common/ar8030_chunk.h: the header that stands before each chunk's payload on the wire.
-- The struct is packed and copied byte for byte, and both ends are little endian.
pub mod Wire
use Prim.Native.Nat.{bit_and, bit_or}
use ar8030_transport.Base.{ℕ, ◌-◌, ◌<◌, ◌%◌, List, ◌++◌, Bool, not, ◌==◌}
use ar8030_transport.Base.Bytes.{le_bytes, le_field}

abbrev pub chunk_magic : ℕ
chunk_magic = 0x4D524641

abbrev pub chunk_default_payload : ℕ
chunk_default_payload = 65535

abbrev pub chunk_max_payload : ℕ
chunk_max_payload = 65535

abbrev pub flag_idr : ℕ
flag_idr = 0x01

abbrev pub flag_gdr : ℕ
flag_gdr = 0x02

abbrev pub flag_enhance : ℕ
flag_enhance = 0x04

abbrev pub flag_frame_end : ℕ
flag_frame_end = 0x80

abbrev pub flag_slice_end : ℕ
flag_slice_end = 0x40

abbrev pub codec_h265 : ℕ
codec_h265 = 0x01

abbrev pub codec_opus : ℕ
codec_opus = 0x02

abbrev pub codec_ctrl : ℕ
codec_ctrl = 0x03

abbrev pub ctrl_max_payload : ℕ
ctrl_max_payload = 64

abbrev pub codec_sidecar : ℕ
codec_sidecar = 0x04

abbrev pub sidecar_max_payload : ℕ
sidecar_max_payload = 512

abbrev pub hdr_size : ℕ
hdr_size = 22

-- `struct ar8030_chunk_hdr`
pub record ChunkHdr : Type 0 where
  pub magic : ℕ  -- uint32_t
  pub frame_seq : ℕ  -- uint16_t
  pub chunk_idx : ℕ  -- uint16_t
  pub chunk_count : ℕ  -- uint16_t
  pub payload_len : ℕ  -- uint16_t
  pub flags : ℕ  -- uint8_t
  pub codec : ℕ  -- uint8_t
  pub frame_pts : ℕ  -- uint32_t
  pub checksum : ℕ  -- uint16_t
  pub reserved : ℕ  -- uint16_t

-- The fields' C types.
pub record IsHdr (h : ChunkHdr) : Type 0 where
  pub magic_fits : h.magic < 4294967296
  pub seq_fits : h.frame_seq < 65536
  pub idx_fits : h.chunk_idx < 65536
  pub count_fits : h.chunk_count < 65536
  pub len_fits : h.payload_len < 65536
  pub flags_fits : h.flags < 256
  pub codec_fits : h.codec < 256
  pub pts_fits : h.frame_pts < 4294967296
  pub checksum_fits : h.checksum < 65536
  pub reserved_fits : h.reserved < 65536

-- `memcpy(sendbuf, &hdr, AR8030_CHUNK_HDR_SIZE)`
unfoldable pub hdr_bytes : ChunkHdr → List ℕ
hdr_bytes h =
    le_bytes 4 h.magic
    ++ (le_bytes 2 h.frame_seq
        ++ (le_bytes 2 h.chunk_idx
            ++ (le_bytes 2 h.chunk_count
                ++ (le_bytes 2 h.payload_len
                    ++ (le_bytes 1 h.flags
                        ++ (le_bytes 1 h.codec
                            ++ (le_bytes 4 h.frame_pts
                                ++ (le_bytes 2 h.checksum ++ le_bytes 2 h.reserved))))))))

-- `memcpy(hdr, s->buf, AR8030_CHUNK_HDR_SIZE)`
unfoldable pub hdr_of_bytes : List ℕ → ChunkHdr
hdr_of_bytes buf = record {
  magic = le_field 0 4 buf;
  frame_seq = le_field 4 2 buf;
  chunk_idx = le_field 6 2 buf;
  chunk_count = le_field 8 2 buf;
  payload_len = le_field 10 2 buf;
  flags = le_field 12 1 buf;
  codec = le_field 13 1 buf;
  frame_pts = le_field 14 4 buf;
  checksum = le_field 18 2 buf;
  reserved = le_field 20 2 buf;
}

-- `flags & FLAG` as a condition.
abbrev pub has_flag : ℕ → ℕ → Bool
has_flag flags flag = not (bit_and flags flag == 0)
