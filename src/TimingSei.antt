-- ===== src/TimingSei.antt =====
-- common/timing_sei.c: a frame's timing as an SEI NAL unit inside the H.265 bitstream.
pub mod Emulation
mod Tests
use ar8030_transport.Base.{
  ℕ, zero, suc, ◌+◌, ◌-◌, ◌*◌, ◌/◌, ◌%◌, List, [], ◌∷◌, ◌++◌, Bool, true, false, not, ◌&&◌, ◌||◌,
  Option, none, some, ltb, leb, ◌==◌, if◌then◌else◌, length, take, drop, get_or, u32,
}
use ar8030_transport.Base.Bytes.{le_bytes, le_field}
use ar8030_transport.ChunkStream.{starts_with}

-- `struct timing_sei_v1`
pub record TimingSei : Type 0 where
  pub version : ℕ  -- uint8_t
  pub flags : ℕ  -- uint8_t
  pub frame_seq : ℕ  -- uint16_t
  pub capture_ground_us : ℕ  -- uint64_t
  pub rx_done_ground_us : ℕ  -- uint64_t
  pub sync_uncertainty_us : ℕ  -- uint32_t
  pub encode_us : ℕ  -- uint32_t
  pub frames_lost : ℕ  -- uint32_t

abbrev pub version_1 : ℕ
version_1 = 1

abbrev pub uuid : List ℕ
uuid =
    0x8a ∷ 0x3f ∷ 0x52 ∷ 0xc1 ∷ 0x6e ∷ 0x0b ∷ 0x4d ∷ 0x97 ∷ 0xb2 ∷ 0x14 ∷ 0x5a ∷ 0xe3 ∷ 0x09 ∷ 0x7c
    ∷ 0xd1 ∷ 0x46 ∷ []

-- The UUID and the struct of 32 bytes.
abbrev pub payload_size : ℕ
payload_size = 48

abbrev pub prefix_nal_type : ℕ
prefix_nal_type = 39

abbrev pub suffix_nal_type : ℕ
suffix_nal_type = 40

abbrev pub user_data_unregistered : ℕ
user_data_unregistered = 5

-- `memcpy(rbsp + r, t, sizeof(*t))`, of the packed struct.
unfoldable pub struct_bytes : TimingSei → List ℕ
struct_bytes t =
    le_bytes 1 t.version
    ++ (le_bytes 1 t.flags
        ++ (le_bytes 2 t.frame_seq
            ++ (le_bytes 8 t.capture_ground_us
                ++ (le_bytes 8 t.rx_done_ground_us
                    ++ (le_bytes 4 t.sync_uncertainty_us
                        ++ (le_bytes 4 t.encode_us ++ le_bytes 4 t.frames_lost))))))

unfoldable pub struct_of_bytes : List ℕ → TimingSei
struct_of_bytes b = record {
  version = le_field 0 1 b;
  flags = le_field 1 1 b;
  frame_seq = le_field 2 2 b;
  capture_ground_us = le_field 4 8 b;
  rx_done_ground_us = le_field 12 8 b;
  sync_uncertainty_us = le_field 20 4 b;
  encode_us = le_field 24 4 b;
  frames_lost = le_field 28 4 b;
}

-- The message, without the trailing bits.
unfoldable pub message : TimingSei → List ℕ
unfolding struct_bytes
message t = user_data_unregistered ∷ payload_size ∷ uuid ++ struct_bytes t

unfoldable pub rbsp : TimingSei → List ℕ
unfolding message
rbsp t = message t ++ 0x80 ∷ []

-- The number of zeros before the next byte.
abbrev pub zeros_after : ℕ → ℕ → ℕ
zeros_after run b = if b == 0 then run + 1 else 0

-- Emulation prevention, with the zeros just written.
unfoldable pub escape : ℕ → List ℕ → List ℕ
escape run [] = []
escape run (b ∷ bs) =
    let stuff = leb 2 run && leb b 3 in
    let rest = escape (zeros_after (if stuff then 0 else run) b) bs in
    if stuff then 3 ∷ b ∷ rest else b ∷ rest

-- `build_nal`
unfoldable pub build_nal : TimingSei → ℕ → List ℕ
build_nal t nal_type = 0 ∷ 0 ∷ 0 ∷ 1 ∷ ((nal_type * 2) % 256) ∷ 1 ∷ escape 0 (rbsp t)

-- `timing_sei_build`
unfoldable pub build : TimingSei → List ℕ
unfolding build_nal
build t = build_nal t prefix_nal_type

-- `timing_sei_build_suffix`
unfoldable pub build_suffix : TimingSei → List ℕ
unfolding build_nal
build_suffix t = build_nal t suffix_nal_type

-- A byte inside the buffer.
abbrev pub byte_at : List ℕ → ℕ → ℕ
byte_at buf i = get_or buf i 0

-- The length of the start code at offset `i`, 0 if there is none.
unfoldable pub start_code_at : List ℕ → ℕ → ℕ
start_code_at buf i =
    if not (ltb (i + 2) (length buf) && (byte_at buf i == 0 && byte_at buf (i + 1) == 0))
    then 0
    else if byte_at buf (i + 2) == 1
    then 3
    else if ltb (i + 3) (length buf) && (byte_at buf (i + 2) == 0 && byte_at buf (i + 3) == 1)
    then 4
    else 0

-- The loop of `find_start_code`, with `n` offsets left from `i`.
unfoldable pub find_from : List ℕ → ℕ → ℕ → ℕ × ℕ
unfolding start_code_at
find_from buf zero i = (length buf, 0)
find_from buf (suc n) i =
    let rest = find_from buf n (i + 1) in
    if start_code_at buf i == 0 then rest else (i, start_code_at buf i)

-- `find_start_code`: the offset of the next start code and its length, or the end and 0.
unfoldable pub find_start_code : List ℕ → ℕ → ℕ × ℕ
unfolding find_from
find_start_code buf from = find_from buf (length buf - from) from

abbrev pub nal_type_of : ℕ → ℕ
nal_type_of b = b / 2 % 64

-- The loop of `timing_sei_insert`: the offset of the first NAL unit that is a slice.
unfoldable pub slice_from : ℕ → List ℕ → ℕ × ℕ → Option ℕ
slice_from zero buf (pos, sc_len) = none
slice_from (suc fuel) buf (pos, sc_len) =
    let hdr = pos + sc_len in
    let rest = slice_from fuel buf (find_start_code buf hdr) in
    if not (ltb pos (length buf))
    then none
    else if ltb hdr (length buf) && leb (nal_type_of (byte_at buf hdr)) 31
    then some pos
    else rest

-- Every round starts behind the one before, so there are at most as many as bytes.
unfoldable pub slice_offset : List ℕ → Option ℕ
unfolding slice_from find_start_code
slice_offset buf = slice_from (suc (length buf)) buf (find_start_code buf 0)

-- `timing_sei_insert`: the new access unit, or none for -1.
unfoldable pub insert : List ℕ → ℕ → List ℕ → Option (List ℕ)
unfolding slice_offset
insert buf cap sei =
    if ltb cap (u32 (length buf + length sei)) then none else elim (slice_offset buf) [
      | some pos ↦ some (take pos buf ++ (sei ++ drop pos buf))
      | none ↦ none
    ]

-- The receiver's side of emulation prevention: up to `room` bytes.
unfoldable pub strip : ℕ → ℕ → List ℕ → List ℕ
strip zero run bs = []
strip (suc room) run [] = []
strip (suc room) run (b ∷ bs) = elim (leb 2 run && b == 3) [
  | true ↦ strip (suc room) 0 bs
  | false ↦ b ∷ strip room (zeros_after run b) bs
]

-- The tests of `timing_sei_parse` on the RBSP of one SEI.
unfoldable pub of_rbsp : List ℕ → Option TimingSei
unfolding starts_with struct_of_bytes
of_rbsp r =
    if length r == 50
      && (byte_at r 0 == user_data_unregistered
          && (leb payload_size (byte_at r 1)
              && (starts_with (drop 2 r) uuid && byte_at r 18 == version_1)))
    then some (struct_of_bytes (drop 18 r))
    else none

-- The NAL unit behind its start code, up to the next one: the message, if it is ours.
unfoldable pub of_nal : Bool → List ℕ → Option TimingSei
of_nal seen_slice nal =
    let nal_type = nal_type_of (byte_at nal 0) in
    let wanted = (if seen_slice then suffix_nal_type else prefix_nal_type) in
    if ltb 2 (length nal) && nal_type == wanted then of_rbsp (strip 50 0 (drop 2 nal)) else none

-- The loop of `timing_sei_parse`.
unfoldable pub parse_from : ℕ → List ℕ → Bool → ℕ × ℕ → Option TimingSei
unfolding of_nal find_start_code
parse_from zero au seen (pos, sc_len) = none
parse_from (suc fuel) au seen (pos, sc_len) =
    let nal = pos + sc_len in
    let next = find_start_code au nal in
    let seen' = seen || leb (nal_type_of (byte_at au nal)) 31 in
    let rest = parse_from fuel au seen' next in
    if not (ltb pos (length au)) || leb (length au) nal
    then none
    else elim (of_nal seen' (take (next.0 - nal) (drop nal au))) [ some t ↦ some t | none ↦ rest ]

-- `timing_sei_parse`
unfoldable pub parse : List ℕ → Option TimingSei
unfolding parse_from
parse au = parse_from (suc (length au)) au false (find_start_code au 0)
