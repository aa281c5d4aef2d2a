-- ===== src/Reassembly/Collect.antt =====
-- What one accepted chunk adds to the frame.
use ar8030_transport.Base.{
  ℕ, ◌+◌, ◌≤◌, ◌≡◌, ap, ◌∙◌, List, ◌++◌, append_assoc, Bool, arith, length, take, drop, u16, ◌==◌,
  ◌||◌, if◌then◌else◌, length-append, length-take, take-length_append,
}
use ar8030_transport.Chunk.{ChunkHdr}
use ar8030_transport.Reassembly.{Reassembly, copy_at, ends_frame, extend, collected}
use ar8030_transport.Reassembly.Invariant.{IsValid}

pub collected-copy_at :
    (buf : List ℕ) (off : ℕ) (xs : List ℕ)
    → off ≤ length buf
    → take (off + length xs) (copy_at buf off xs) ≡ take off buf ++ xs
unfolding copy_at
collected-copy_at buf off xs h =
    let front = take off buf in
    let n : off + length xs ≡ length (front ++ xs) =
      omega (arith, length-append front xs, length-take off buf) in
    rw (← append_assoc front xs (drop (off + length xs) buf)) (
      ap (λ k. take k ((front ++ xs) ++ drop (off + length xs) buf)) n
      ∙ take-length_append (front ++ xs) (drop (off + length xs) buf))

-- The chunk that the reassembler waits for.
pub record IsNext (r : Reassembly) (hdr : ChunkHdr) (payload : List ℕ) : Type 0 where
  pub in_order : hdr.chunk_idx ≡ r.next_chunk_idx
  pub count_right : hdr.chunk_count ≡ (if ends_frame r hdr then hdr.chunk_count else r.chunk_count)
  pub room : r.write_off + length payload ≤ r.cap

pub record Extended (r : Reassembly) (hdr : ChunkHdr) (payload : List ℕ) (out : Bool × Reassembly)
    : Type 0 where
  pub bytes : collected out.1 ≡ collected r ++ payload
  pub off : out.1.write_off ≡ r.write_off + length payload
  pub next : out.1.next_chunk_idx ≡ u16 (r.next_chunk_idx + 1)
  pub complete : out.0 ≡ ends_frame r hdr || u16 (r.next_chunk_idx + 1) == r.chunk_count
  pub active_same : out.1.active ≡ r.active
  pub seq_same : out.1.frame_seq ≡ r.frame_seq
  pub count_same : out.1.chunk_count ≡ r.chunk_count
  pub pts_same : out.1.frame_pts ≡ r.frame_pts
  pub flags_same : out.1.flags ≡ r.flags
  pub cap_same : out.1.cap ≡ r.cap
  pub dropped_same : out.1.dropped_frames ≡ r.dropped_frames

pub extend-IsNext :
    (r : Reassembly) (hdr : ChunkHdr) (payload : List ℕ)
    → IsValid r
    → IsNext r hdr payload
    → Extended r hdr payload (extend r hdr payload)
unfolding extend
extend-IsNext r hdr payload v n = ground (arith, collected-copy_at r.buf r.write_off payload)
