-- ===== src/Chunker/Sent.antt =====
-- What the chunker hands to the send function: well-formed chunks, in order, up to the first one
-- that the function refuses.
use ar8030_transport.Base.{
  ℕ, zero, suc, ◌+◌, ◌≤◌, ◌<◌, ◌≡◌, ◌⊎◌, refl, List, [], ◌∷◌, Bool, none, some, arith,
  if◌then◌else◌, u32,
}
use ar8030_transport.Crc16.Detect.{crc16-lt}
use ar8030_transport.Chunk.{ChunkHdr, hdr_size}
use ar8030_transport.ChunkStream.Front.{IsChunk, chunk_bytes}
use ar8030_transport.Chunker.{Source, Placing, chunk_body, chunk_hdr, sendbuf, send_from, chunk_run}
use ar8030_transport.Chunker.Split.{
  IsSource, count_of, start_in_frame, length-chunk_body, bodies_lem,
}

-- The source's fields have their C types.
pub record IsTyped (s : Source) : Type 0 where
  pub source : IsSource s
  pub seq_fits : s.frame_seq < 65536
  pub flags_fits : s.flags < 256
  pub codec_fits : s.codec < 256
  pub pts_fits : s.frame_pts < 4294967296

-- Every chunk of a frame is one that the receiver accepts: its header's fields fit their types,
-- and announce the payload's length and checksum.
pub chunk_hdr-IsChunk :
    (s : Source) (p : Placing) (count i : ℕ)
    → IsTyped s
    → i < count_of s
    → IsChunk (chunk_hdr s p count i) (chunk_body s i)
unfolding chunk_hdr
chunk_hdr-IsChunk s p count i t lt =
    let start = start_in_frame s i t.source lt in
    let body = length-chunk_body s i (omega (arith, t.source.bytes_fit)) start in
    let bound = (bodies_lem s t.source).1 i lt in
    record {
      fields = record {
        magic_fits = omega arith;
        seq_fits = t.seq_fits;
        idx_fits = omega arith;
        count_fits = omega arith;
        len_fits = omega arith;
        flags_fits = omega arith;
        codec_fits = t.codec_fits;
        pts_fits = t.pts_fits;
        checksum_fits = crc16-lt (chunk_body s i);
        reserved_fits = omega arith;
      };
      magic_set = refl;
      len_right = omega (arith, body, bound, t.source.payload_fits);
      sum_right = refl;
    }

-- The chunks `i` to `i + n - 1` of `count`.
abbrev pub chunks_from : Source → Placing → ℕ → ℕ → ℕ → List (ChunkHdr × List ℕ)
chunks_from s p count zero i = []
chunks_from s p count (suc n) i =
    (chunk_hdr s p count i, chunk_body s i) ∷ chunks_from s p count n (i + 1)

abbrev pub chunks_of : Source → Placing → List (ChunkHdr × List ℕ)
chunks_of s p = chunks_from s p (count_of s) (count_of s) 0

-- Offers each chunk's bytes in turn, and stops at the first that is refused.
module _ {S : Type 0} (send : S → List ℕ → Bool × S) where
  unfoldable pub send_all : List (ChunkHdr × List ℕ) → ℕ → S → ℕ × S
  send_all [] sent ctx = (sent, ctx)
  send_all ((h, p) ∷ chunks) sent ctx =
      let (ok, ctx') = send ctx (chunk_bytes h p) in
      let rest = send_all chunks (sent + 1) ctx' in if ok then rest else (sent, ctx')

  send_from-eq-send_all :
      (s : Source) (p : Placing) (count n i sent : ℕ) (ctx : S)
      → send_from send s p count n i sent ctx ≡ send_all (chunks_from s p count n i) sent ctx
  unfolding send_from send_all sendbuf
  send_from-eq-send_all s p count zero i sent ctx = refl
  send_from-eq-send_all s p count (suc n) i sent ctx = rw (
      send_from-eq-send_all s p count n (i + 1) (sent + 1)
        (send ctx (chunk_bytes (chunk_hdr s p count i) (chunk_body s i))).1)

  -- A call within the limits offers exactly the chunks of the frame to the send function, in
  -- order, until it refuses one; it returns how many were taken, and stores the number of chunks.
  pub chunk_run-send_all :
      (s : Source) (p : Placing) (scratch_cap : ℕ) (ctx : S)
      → IsSource s
      → hdr_size + s.chunk_payload ≤ scratch_cap
      → p.first_idx + count_of s ≤ 65535
      → let (sent, ctx') = send_all (chunks_of s p) 0 ctx in
        chunk_run send s p scratch_cap ctx
        ≡ record { ret = some sent; out_count = some (count_of s); ctx = ctx' }
  unfolding chunk_run
  chunk_run-send_all s p scratch_cap ctx v room idx =
      ground (arith, send_from-eq-send_all s p (count_of s) (count_of s) 0 0 ctx)

  -- Outside the limits nothing is offered, and the call returns -1.
  pub chunk_run_refused :
      (s : Source) (p : Placing) (scratch_cap : ℕ) (ctx : S)
      → (s.chunk_payload ≡ 0)
        ⊎ (65535 < s.chunk_payload)
        ⊎ (scratch_cap < u32 (hdr_size + s.chunk_payload))
        ⊎ (65535 < u32 (p.first_idx + count_of s))
      → chunk_run send s p scratch_cap ctx ≡ record { ret = none; out_count = none; ctx = ctx }
  unfolding chunk_run
  chunk_run_refused s p scratch_cap ctx bad = ground arith
