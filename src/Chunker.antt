-- ===== src/Chunker.antt =====
-- common/chunker.c: splits one frame, or one slice of a streamed frame, into chunks and hands
-- each to the caller's send function, in order, until one fails.
pub mod Split
pub mod Sent
use Prim.Native.Nat.{bit_or}
use ar8030_transport.Base.{
  ℕ, zero, suc, ◌+◌, ◌-◌, ◌*◌, ◌/◌, List, [], ◌∷◌, ◌++◌, Bool, true, false, not, ◌&&◌, ◌||◌, Option,
  none, some, ltb, ◌==◌, if◌then◌else◌, length, take, drop, u8, u16, u32, sub32,
}
use ar8030_transport.Crc16.{crc16}
use ar8030_transport.Chunk.{
  ChunkHdr, hdr_bytes, hdr_size, chunk_magic, chunk_max_payload, flag_frame_end, flag_slice_end,
}

-- What one call is asked to send. The list `bytes` is `data[0..data_len)`.
pub record Source : Type 0 where
  pub frame_seq : ℕ
  pub flags : ℕ
  pub codec : ℕ
  pub frame_pts : ℕ
  pub bytes : List ℕ
  pub chunk_payload : ℕ

-- How the chunks of the call stand in their frame.
pub record Placing : Type 0 where
  pub first_idx : ℕ
  pub total_count : ℕ
  pub frame_end : Bool
  pub part : Bool

-- What a call leaves: the return value (`none` is -1), `*out_chunk_count` if it was written,
-- and the state behind `send_ctx`.
pub record Outcome (S : Type 0) : Type 0 where
  pub ret : Option ℕ
  pub out_count : Option ℕ
  pub ctx : S

-- ceil(data_len / chunk_payload), at least 1.
unfoldable pub count_chunks : ℕ → ℕ → ℕ
count_chunks data_len chunk_payload =
    let n = sub32 (u32 (data_len + chunk_payload)) 1 / chunk_payload in if n == 0 then 1 else n

-- `len`, the payload bytes of chunk `i`.
unfoldable pub chunk_len : ℕ → ℕ → ℕ → ℕ
chunk_len data_len chunk_payload i =
    let len = sub32 data_len (u32 (i * chunk_payload)) in
    if ltb chunk_payload len then chunk_payload else len

unfoldable pub chunk_body : Source → ℕ → List ℕ
chunk_body s i =
    take (chunk_len (length s.bytes) s.chunk_payload i) (drop (u32 (i * s.chunk_payload)) s.bytes)

-- The header of chunk `i` of `count`.
unfoldable pub chunk_hdr : Source → Placing → ℕ → ℕ → ChunkHdr
unfolding chunk_body chunk_len
chunk_hdr s p count i =
    let is_last = i + 1 == count in
    let final = p.frame_end && is_last in
    let slice_end = p.part && (not p.frame_end && is_last) in
    record {
      magic = chunk_magic;
      frame_seq = s.frame_seq;
      chunk_idx = u16 (p.first_idx + i);
      chunk_count = u16 (if final then p.first_idx + count else p.total_count);
      payload_len = u16 (chunk_len (length s.bytes) s.chunk_payload i);
      flags = u8 (
          if final
          then bit_or s.flags flag_frame_end
          else if slice_end
          then bit_or s.flags flag_slice_end
          else s.flags);
      codec = s.codec;
      frame_pts = s.frame_pts;
      checksum = crc16 (chunk_body s i);
      reserved = 0;
    }

-- `sendbuf[0..HDR_SIZE + len)`
unfoldable pub sendbuf : Source → Placing → ℕ → ℕ → List ℕ
unfolding chunk_hdr chunk_body
sendbuf s p count i = hdr_bytes (chunk_hdr s p count i) ++ chunk_body s i

-- `send` is the caller's ar8030_chunk_send_fn over the state behind its context; true is 0.
module _ {S : Type 0} (send : S → List ℕ → Bool × S) where
  -- The loop, with `n` rounds left from chunk `i`.
  unfoldable pub send_from : Source → Placing → ℕ → ℕ → ℕ → ℕ → S → ℕ × S
  send_from s p count zero i sent ctx = (sent, ctx)
  send_from s p count (suc n) i sent ctx =
      let (ok, ctx') = send ctx (sendbuf s p count i) in
      let rest = send_from s p count n (i + 1) (sent + 1) ctx' in if ok then rest else (sent, ctx')

  unfoldable pub chunk_run : Source → Placing → ℕ → S → Outcome S
  unfolding send_from
  chunk_run s p scratch_cap ctx =
      let count = count_chunks (length s.bytes) s.chunk_payload in
      let refused : Outcome S = record { ret = none; out_count = none; ctx = ctx } in
      if s.chunk_payload == 0 || ltb chunk_max_payload s.chunk_payload
      then refused
      else if ltb scratch_cap (u32 (hdr_size + s.chunk_payload))
      then refused
      else if ltb 0xFFFF (u32 (p.first_idx + count))
      then refused
      else let (sent, ctx') = send_from s p count count 0 0 ctx in
        record { ret = some sent; out_count = some count; ctx = ctx' }

  -- `ar8030_chunk_frame`
  unfoldable pub chunk_frame : Source → ℕ → S → Outcome S
  unfolding chunk_run
  chunk_frame s scratch_cap ctx =
      let count = count_chunks (length s.bytes) s.chunk_payload in
      let refused : Outcome S = record { ret = none; out_count = none; ctx = ctx } in
      if s.chunk_payload == 0 || ltb chunk_max_payload s.chunk_payload
      then refused
      else if ltb 0xFFFF count
      then refused
      else chunk_run s
          (record { first_idx = 0; total_count = count; frame_end = false; part = false })
          scratch_cap ctx

  -- `ar8030_chunk_part`
  unfoldable pub chunk_part : Source → ℕ → Bool → ℕ → S → Outcome S
  unfolding chunk_run
  chunk_part s first_idx last scratch_cap ctx =
      chunk_run s (record { first_idx = first_idx; total_count = 0; frame_end = last; part = true })
        scratch_cap ctx
