-- ===== src/Reassembly.antt =====
-- common/reassembly.c: puts a frame back together from its chunks, in order, and drops it at the
-- first one that does not fit.
mod Tests
pub mod Invariant
pub mod Deliver
pub mod Integrity
pub mod Collect
use Prim.Native.Nat.{bit_and}
use ar8030_transport.Base.{
  ℕ, suc, ◌+◌, List, [], ◌++◌, Bool, true, false, not, ◌&&◌, ◌||◌, ltb, ◌==◌, if◌then◌else◌, length,
  take, drop, u16, u32, u64,
}
use ar8030_transport.Chunk.{ChunkHdr, has_flag, flag_frame_end}

-- `ar8030_reassembly_t`
pub record Reassembly : Type 0 where
  pub buf : List ℕ
  pub cap : ℕ  -- uint32_t
  pub frame_seq : ℕ  -- uint16_t
  pub chunk_count : ℕ  -- uint16_t
  pub next_chunk_idx : ℕ  -- uint16_t
  pub write_off : ℕ  -- uint32_t
  pub frame_pts : ℕ  -- uint32_t
  pub flags : ℕ  -- uint8_t
  pub active : Bool
  pub done : Bool
  pub completed_frames : ℕ  -- uint64_t
  pub dropped_frames : ℕ  -- uint64_t
  pub last_bad_seq : ℕ  -- uint16_t
  pub have_last_bad_seq : Bool

unfoldable pub init : List ℕ → ℕ → Reassembly
init buf cap = record {
  buf = buf;
  cap = cap;
  frame_seq = 0;
  chunk_count = 0;
  next_chunk_idx = 0;
  write_off = 0;
  frame_pts = 0;
  flags = 0;
  active = false;
  done = false;
  completed_frames = 0;
  dropped_frames = 0;
  last_bad_seq = 0;
  have_last_bad_seq = false;
}

unfoldable pub reset : Reassembly → Reassembly
reset r = record r { active = false; done = false; write_off = 0; next_chunk_idx = 0 }

-- One dropped frame for each distinct sequence number.
unfoldable pub note_dropped : Reassembly → ℕ → Reassembly
note_dropped r seq = if r.have_last_bad_seq && r.last_bad_seq == seq then r else record r {
  dropped_frames = u64 (r.dropped_frames + 1);
  last_bad_seq = seq;
  have_last_bad_seq = true;
}

-- `memcpy(buf + off, xs, length xs)`
unfoldable pub copy_at : List ℕ → ℕ → List ℕ → List ℕ
copy_at buf off xs = take off buf ++ (xs ++ drop (off + length xs) buf)

-- The fields that chunk 0 of a new frame sets.
unfoldable pub start_frame : Reassembly → ChunkHdr → Reassembly
start_frame r hdr = record r {
  active = true;
  done = false;
  frame_seq = hdr.frame_seq;
  chunk_count = if has_flag hdr.flags flag_frame_end then 0 else hdr.chunk_count;
  frame_pts = hdr.frame_pts;
  flags = bit_and hdr.flags 0x3F;
  write_off = 0;
  next_chunk_idx = 0;
}

-- This chunk ends a streamed frame.
unfoldable pub ends_frame : Reassembly → ChunkHdr → Bool
ends_frame r hdr =
    r.chunk_count == 0
    && (has_flag hdr.flags flag_frame_end && hdr.chunk_count == hdr.chunk_idx + 1)

unfoldable pub drop_frame : Reassembly → ChunkHdr → Bool × Reassembly
unfolding note_dropped reset
drop_frame r hdr = (false, reset (note_dropped r hdr.frame_seq))

-- The tail of `ar8030_reassembly_feed`: a chunk of the frame being assembled.
unfoldable pub extend : Reassembly → ChunkHdr → List ℕ → Bool × Reassembly
unfolding ends_frame drop_frame copy_at
extend r hdr payload =
    let frame_end = ends_frame r hdr in
    let want_count = if frame_end then hdr.chunk_count else r.chunk_count in
    if not (hdr.chunk_idx == r.next_chunk_idx) || not (hdr.chunk_count == want_count)
    then drop_frame r hdr
    else if ltb r.cap (u32 (r.write_off + length payload))
    then drop_frame r hdr
    else let next = u16 (r.next_chunk_idx + 1) in
      let r' = record r {
        buf = copy_at r.buf r.write_off payload;
        write_off = u32 (r.write_off + length payload);
        next_chunk_idx = next;
      } in
      if frame_end || next == r.chunk_count
      then (true, record r' { done = true; completed_frames = u64 (r.completed_frames + 1) })
      else (false, r')

-- A streamed frame whose end never came is given up for the next one.
unfoldable pub give_up : Reassembly → Reassembly
unfolding note_dropped
give_up r = if r.active && (not r.done && r.chunk_count == 0) then note_dropped r r.frame_seq else r

-- `ar8030_reassembly_feed`; true is 1, a completed frame. The list is the chunk's payload.
unfoldable pub feed : Reassembly → ChunkHdr → List ℕ → Bool × Reassembly
feed r hdr payload =
    if not r.active || not (hdr.frame_seq == r.frame_seq)
    then if not (hdr.chunk_idx == 0)
      then drop_frame (give_up r) hdr
      else extend (start_frame (give_up r) hdr) hdr payload
    else extend r hdr payload

-- The frame's bytes so far, `buf[0..write_off)`.
abbrev pub collected : Reassembly → List ℕ
collected r = take r.write_off r.buf

-- A chunk as it is fed: its header and its payload.
abbrev pub Fed : Type 0
Fed = ChunkHdr × List ℕ
