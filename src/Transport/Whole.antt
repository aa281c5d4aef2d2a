-- ===== src/Transport/Whole.antt =====
-- Frames that are sent whole arrive whole.
use mathlib.Core.Path.{subst, subst₂}
use ar8030_transport.Base.{
  ℕ, zero, suc, ◌+◌, ◌-◌, ◌≤◌, ◌<◌, ◌≡◌, ◌≢◌, ◌⊎◌, inl, refl, sym, ap, ◌∙◌, List, [], ◌∷◌, ◌++◌,
  true, false, not, ◌&&◌, ◌==◌, arith, length, if◌then◌else◌,
}
use ar8030_transport.Base.Bits.{all_below, all_below_sound}
use Prim.Native.Nat.{bit_and}
use ar8030_transport.Chunk.{ChunkHdr, has_flag, flag_frame_end}
use ar8030_transport.Chunker.{Source, chunk_hdr, chunk_body}
use ar8030_transport.Chunker.Split.{count_of, bodies, bodies_lem, count_chunks_bounds}
use ar8030_transport.Chunker.Sent.{IsTyped, chunks_from, chunks_of}
use ar8030_transport.Reassembly.{Reassembly, Fed, start_frame, give_up, collected}
use ar8030_transport.Reassembly.Invariant.{IsValid}
use ar8030_transport.Reassembly.Deliver.{Frame, deliver, joined, Steps, deliver_frame}
use ar8030_transport.Transport.{whole, frame_sent}

-- A frame that the sender accepts, with the flags of a frame and not of a chunk.
pub record IsFrame (s : Source) : Type 0 where
  pub typed : IsTyped s
  pub frame_flags : s.flags < 64
  pub few_chunks : count_of s ≤ 65535

flag_table : all_below 64 (λ f. not (has_flag f flag_frame_end) && bit_and f 0x3F == f) ≡ true
unfolding all_below
flag_table = refl

flags_kept : (f : ℕ) → f < 64 → (has_flag f flag_frame_end ≡ false) × (bit_and f 0x3F ≡ f)
flags_kept f h = ground (
  arith,
  all_below_sound 64 (λ f. not (has_flag f flag_frame_end) && bit_and f 0x3F == f) f flag_table h,
)

joined-chunks_from :
    (s : Source) (n i : ℕ) → joined (chunks_from s (whole s) (count_of s) n i) ≡ bodies s n i
joined-chunks_from s zero i = refl
joined-chunks_from s (suc n) i = rw (joined-chunks_from s n (i + 1))

abbrev hdr_at : Source → ℕ → ChunkHdr
hdr_at s i = chunk_hdr s (whole s) (count_of s) i

module _ (s : Source) (v : IsFrame s) where
  hdr_at_lem :
      (i : ℕ)
      → i < count_of s
      → ((hdr_at s i).frame_seq ≡ s.frame_seq)
        × ((hdr_at s i).chunk_idx ≡ i)
        × ((hdr_at s i).chunk_count ≡ count_of s)
        × ((hdr_at s i).flags ≡ s.flags)
        × ((hdr_at s i).frame_pts ≡ s.frame_pts)
  unfolding chunk_hdr
  hdr_at_lem i lt = omega (arith, v.few_chunks, v.frame_flags)

  body_small : (i : ℕ) → i < count_of s → length (chunk_body s i) < 65536
  body_small i lt = omega (arith, (bodies_lem s v.typed.source).1 i lt, v.typed.source.payload_fits)

  Steps-chunks_from :
      (n i : ℕ)
      → i + suc n ≡ count_of s
      → Steps s.frame_seq (count_of s) i (chunks_from s (whole s) (count_of s) (suc n) i)
  Steps-chunks_from zero i e =
      let (seq, idx, cnt, _, _) = hdr_at_lem i (omega arith) in
      (seq, idx, omega (arith, v.few_chunks), body_small i (omega arith), inl (cnt, omega arith))
  Steps-chunks_from (suc n) i e =
      let (seq, idx, cnt, _, _) = hdr_at_lem i (omega arith) in
      (
        seq,
        idx,
        omega (arith, v.few_chunks),
        body_small i (omega arith),
        cnt,
        omega arith,
        subst
            (λ k.
              Steps s.frame_seq (count_of s) k
                (chunks_from s (whole s) (count_of s) (suc n) (i + 1)))
            (omega arith) (Steps-chunks_from n (i + 1) (omega arith)),
      )

  some_chunks : (n : ℕ) × (count_of s ≡ suc n)
  some_chunks = (
    count_of s - 1,
    omega (
      arith,
      count_chunks_bounds (length s.bytes) s.chunk_payload v.typed.source.payload_pos
          (omega (arith, v.typed.source.bytes_fit, v.typed.source.payload_fits)),
    ),
  )

  joined-chunks : joined (chunks_of s (whole s)) ≡ s.bytes
  joined-chunks = joined-chunks_from s (count_of s) 0 ∙ (bodies_lem s v.typed.source).0

-- What the receiver holds once a frame has arrived.
pub record Arrived (r : Reassembly) (s : Source) (out : List Frame × Reassembly) : Type 0 where
  pub frames : out.0 ≡ frame_sent s ∷ []
  pub valid : IsValid out.1
  pub seq_now : out.1.frame_seq ≡ s.frame_seq
  pub cap_same : out.1.cap ≡ r.cap

abbrev Fresh : Reassembly → Source → Type 0
Fresh r s = (r.active ≡ false) ⊎ (s.frame_seq ≢ r.frame_seq)

-- The frame that a started reassembler hands over is the one that was sent.
started :
    (r : Reassembly) (h : ChunkHdr) (chunks : List Fed) (s : Source)
    → h.frame_seq ≡ s.frame_seq
    → h.frame_pts ≡ s.frame_pts
    → bit_and h.flags 0x3F ≡ s.flags
    → joined chunks ≡ s.bytes
    → let q = start_frame r h in
      let f : Frame = record {
        frame_seq = q.frame_seq;
        bytes = collected q ++ joined chunks;
        frame_pts = q.frame_pts;
        flags = q.flags;
      } in
      f ≡ frame_sent s
unfolding start_frame
started r h chunks s seq pts flags all = ground arith

cap-started : (r : Reassembly) (h : ChunkHdr) → (start_frame (give_up r) h).cap ≡ r.cap
unfolding start_frame give_up
cap-started r h = ground arith

Arrived-from :
    (n : ℕ) (s : Source) (r : Reassembly)
    → IsFrame s
    → count_of s ≡ suc n
    → IsValid r
    → Fresh r s
    → length s.bytes ≤ r.cap
    → Arrived r s (deliver r (chunks_from s (whole s) (count_of s) (suc n) 0))
Arrived-from n s r v e valid fresh room =
    let (seq, idx, cnt, flags, pts) = hdr_at_lem s v 0 (omega arith) in
    let (no_end, mask) = flags_kept s.flags v.frame_flags in
    let all : joined (chunks_from s (whole s) (count_of s) (suc n) 0) ≡ s.bytes =
      ap (λ k. joined (chunks_from s (whole s) (count_of s) k 0)) (sym e) ∙ joined-chunks s v in
    let count : (if has_flag (hdr_at s 0).flags flag_frame_end then 0 else (hdr_at s 0).chunk_count)
        ≡ count_of s =
      rw (flags, no_end) cnt in
    let q =
      deliver_frame r (hdr_at s 0) (chunk_body s 0) (chunks_from s (whole s) (count_of s) n 1) valid
        (fresh_hdr seq)
        (subst₂ (λ a b. Steps a b 0 (chunks_from s (whole s) (count_of s) (suc n) 0)) (sym seq)
          (sym count) (Steps-chunks_from s v n 0 (omega arith)))
        idx (rw all room) in
    record {
      frames =
          q.frames
          ∙ ap (λ f. f ∷ [])
              (started (give_up r) (hdr_at s 0) (chunks_from s (whole s) (count_of s) (suc n) 0) s
                seq pts (ap (λ f. bit_and f 0x3F) flags ∙ mask) all);
      valid = q.valid;
      seq_now = q.seq_same ∙ unfold start_frame in seq;
      cap_same = q.cap_same ∙ cap-started r (hdr_at s 0);
    }
  where
    fresh_hdr :
        (hdr_at s 0).frame_seq ≡ s.frame_seq
        → (r.active ≡ false) ⊎ ((hdr_at s 0).frame_seq ≢ r.frame_seq)
    fresh_hdr seq = rw seq fresh

-- A frame that `ar8030_chunk_frame` accepts, fed chunk by chunk to a reassembler that is not
-- inside a frame of the same number, comes out once and whole: the same bytes, number, time stamp
-- and flags. The reassembler is well formed and has room for the frame.
pub frame_round_trip :
    (s : Source) (r : Reassembly)
    → IsFrame s
    → IsValid r
    → (r.active ≡ false) ⊎ (s.frame_seq ≢ r.frame_seq)
    → length s.bytes ≤ r.cap
    → Arrived r s (deliver r (chunks_of s (whole s)))
frame_round_trip s r v valid fresh room =
    let (n, e) = some_chunks s v in
    subst (λ k. Arrived r s (deliver r (chunks_from s (whole s) (count_of s) k 0))) (sym e)
      (Arrived-from n s r v e valid fresh room)
