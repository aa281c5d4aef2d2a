-- ===== src/ChunkStream.antt =====
-- common/chunk_stream.c: cuts the byte stream of a stream-mode socket back into chunks.
pub mod Scan
pub mod Deliver
pub mod Front
use ar8030_transport.Base.{
  ℕ, zero, suc, ◌+◌, ◌-◌, List, [], ◌∷◌, ◌++◌, Bool, true, false, not, ◌&&◌, ◌||◌, Option, none,
  some, ltb, leb, ◌==◌, if◌then◌else◌, length, take, drop, u32, u64,
}
use ar8030_transport.Base.Bytes.{le_bytes}
use ar8030_transport.Crc16.{crc16}
use ar8030_transport.Chunk.{ChunkHdr, hdr_of_bytes, hdr_size, chunk_magic}

-- `ar8030_chunk_stream_t`; the list is `buf[0..len)`.
pub record Stream : Type 0 where
  pub buf : List ℕ
  pub cap : ℕ
  pub chunks_read : ℕ
  pub bytes_consumed : ℕ
  pub resync_dropped_bytes : ℕ
  pub checksum_fails : ℕ

unfoldable pub init : ℕ → Stream
init cap = record {
  buf = [];
  cap = cap;
  chunks_read = 0;
  bytes_consumed = 0;
  resync_dropped_bytes = 0;
  checksum_fails = 0;
}

-- `mb`, the magic's bytes in memory order.
abbrev pub magic_bytes : List ℕ
magic_bytes = le_bytes 4 chunk_magic

-- `memchr(xs, c, n)` as an offset.
unfoldable pub memchr : ℕ → ℕ → List ℕ → Option ℕ
memchr c zero xs = none
memchr c (suc n) [] = none
memchr c (suc n) (x ∷ xs) =
    let rest : Option ℕ = elim (memchr c n xs) [ none ↦ none | some i ↦ some (suc i) ] in
    if x == c then some 0 else rest

-- `memcmp(xs, ys, length ys) == 0`
unfoldable pub starts_with : List ℕ → List ℕ → Bool
starts_with xs [] = true
starts_with [] (y ∷ ys) = false
starts_with (x ∷ xs) (y ∷ ys) = x == y && starts_with xs ys

-- The loop of `scan_for_magic` from offset `i`; `none` is its `break`.
unfoldable pub scan_from : ℕ → ℕ → List ℕ → Option ℕ
unfolding memchr starts_with
scan_from zero i buf = none
scan_from (suc fuel) i buf = elim (leb 4 (length buf - i)) [
  | false ↦ none
  | true ↦ elim (memchr 0x41 (length buf - i - 3) (drop i buf)) [
    | none ↦ none
    | some p ↦ elim (starts_with (drop (i + p) buf) magic_bytes) [
      | true ↦ some (i + p)
      | false ↦ scan_from fuel (i + p + 1) buf
    ]
  ]
]

-- The offset of the first complete magic, or all but the last three bytes. The loop moves one
-- byte further at least in each round.
unfoldable pub scan_for_magic : List ℕ → ℕ
unfolding scan_from
scan_for_magic buf = elim (scan_from (suc (length buf)) 0 buf) [
  | some i ↦ i
  | none ↦ if leb 3 (length buf) then length buf - 3 else 0
]

unfoldable pub drop_junk : Stream → ℕ → Stream
drop_junk s junk = if junk == 0 then s else record s {
  buf = drop junk s.buf;
  resync_dropped_bytes = u64 (s.resync_dropped_bytes + junk);
}

-- Drops everything in front of the next magic.
unfoldable pub resync : Stream → Stream
unfolding scan_for_magic drop_junk
resync s = if leb 4 (length s.buf) then drop_junk s (scan_for_magic s.buf) else s

-- What a call returns: 0, -1, or 1 with the header and the payload.
pub data Reply : Type 0 where
  nothing : Reply
  misconfigured : Reply
  chunk : ChunkHdr → List ℕ → Reply

-- What the loop does after it looked at the buffer.
pub data Look : Type 0 where
  reply : Reply → Stream → Look
  again : Stream → Look
  more : Stream → Look

-- `need`, the bytes of the chunk that the header announces.
abbrev pub need : ChunkHdr → ℕ
need hdr = u32 (hdr_size + hdr.payload_len)

-- A complete chunk stands at the front of the buffer.
unfoldable pub take_chunk : ℕ → ChunkHdr → Stream → Look
take_chunk payload_buf_cap hdr s =
    let payload = take hdr.payload_len (drop hdr_size s.buf) in
    if ltb payload_buf_cap hdr.payload_len
    then reply misconfigured s
    else if not (crc16 payload == hdr.checksum)
    then again (record s {
      buf = drop 4 s.buf;
      checksum_fails = u64 (s.checksum_fails + 1);
      resync_dropped_bytes = u64 (s.resync_dropped_bytes + 4);
    })
    else reply (chunk hdr payload) (record s {
      buf = drop (need hdr) s.buf;
      chunks_read = u64 (s.chunks_read + 1);
      bytes_consumed = u64 (s.bytes_consumed + need hdr);
    })

-- A complete header stands at the front of the buffer.
unfoldable pub look_header : ℕ → ChunkHdr → Stream → Look
unfolding take_chunk
look_header payload_buf_cap hdr s =
    if leb (need hdr) (length s.buf) then take_chunk payload_buf_cap hdr s else more s

unfoldable pub look : ℕ → Stream → Look
unfolding resync look_header
look payload_buf_cap s0 =
    let s = resync s0 in
    if leb hdr_size (length s.buf)
    then look_header payload_buf_cap (hdr_of_bytes s.buf) s
    else more s

-- The socket behind `read_fn`, and the stop flag, over the state `R` of the world. A read is
-- given the room in the buffer, and the empty list stands for a result that is not positive.
module _ {R : Type 0} (read_fn : R → ℕ → List ℕ × R) (stopped : R → Bool) where
  unfoldable pub fill : Stream → R → Bool × Stream × R
  fill s r =
      if leb s.cap (length s.buf)
      then (false, s, r)
      else let (bytes, r') = read_fn r (s.cap - length s.buf) in
        if length bytes == 0 then (false, s, r') else (true, record s { buf = s.buf ++ bytes }, r')

  -- `ar8030_chunk_stream_read`; `none` is a run that did not end within the fuel.
  unfoldable pub read : ℕ → ℕ → Stream → R → Option (Reply × Stream × R)
  read zero payload_buf_cap s r = none
  read (suc fuel) payload_buf_cap s r = elim (stopped r) [
    | true ↦ some (nothing, s, r)
    | false ↦ elim (look payload_buf_cap s) [
      | reply a s' ↦ some (a, s', r)
      | again s' ↦ read fuel payload_buf_cap s' r
      | more s' ↦
          let (got, s'', r') = fill s' r in
          elim got [ true ↦ read fuel payload_buf_cap s'' r' | false ↦ some (nothing, s'', r') ]
    ]
  ]
