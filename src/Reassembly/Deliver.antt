-- ===== src/Reassembly/Deliver.antt =====
-- Feeding the chunks of one frame in order completes that frame, whole or streamed.
use ar8030_transport.Base.{
  ℕ, suc, ◌+◌, ◌≤◌, ◌<◌, ◌≡◌, ◌≢◌, ◌⊎◌, inl, inr, refl, sym, ap, ◌∙◌, List, [], ◌∷◌, ◌++◌,
  append-nil, append_assoc, true, false, arith, length, if◌then◌else◌, length-append, length-take,
}
use ar8030_transport.Chunk.{ChunkHdr, has_flag, flag_frame_end}
use ar8030_transport.Reassembly.{
  Reassembly, start_frame, ends_frame, extend, give_up, feed, collected, Fed,
}
use ar8030_transport.Reassembly.Invariant.{
  IsValid, feed-IsValid, give_up-IsValid, start_frame-IsValid,
}
use ar8030_transport.Reassembly.Collect.{IsNext, Extended, extend-IsNext}

-- A completed frame, as the caller finds it in the reassembler when a call returns 1.
pub record Frame : Type 0 where
  pub frame_seq : ℕ
  pub bytes : List ℕ
  pub frame_pts : ℕ
  pub flags : ℕ

abbrev pub frame_of : Reassembly → Frame
frame_of r = record {
  frame_seq = r.frame_seq;
  bytes = collected r;
  frame_pts = r.frame_pts;
  flags = r.flags;
}

-- Feeds chunks in order, and lists the frames that were completed on the way.
unfoldable pub deliver : Reassembly → List Fed → List Frame × Reassembly
deliver r [] = ([], r)
deliver r ((h, p) ∷ chunks) =
    let (complete, r') = feed r h p in
    let (frames, last) = deliver r' chunks in
    (if complete then frame_of r' ∷ frames else frames, last)

abbrev pub joined : List Fed → List ℕ
joined [] = []
joined ((h, p) ∷ chunks) = p ++ joined chunks

-- The last chunk of a frame: the count announced at its start, or the end of a streamed frame.
abbrev pub Ends : ℕ → ℕ → ChunkHdr → Type 0
Ends count k h =
    (h.chunk_count ≡ count) × (suc k ≡ count)
    ⊎ (count ≡ 0) × (has_flag h.flags flag_frame_end ≡ true) × (h.chunk_count ≡ suc k)

-- The chunks of frame `seq` from index `k` to its end.
abbrev pub Steps : ℕ → ℕ → ℕ → List Fed → Type 0
Steps seq count k [] = ⊥
Steps seq count k ((h, p) ∷ []) =
    (h.frame_seq ≡ seq) × (h.chunk_idx ≡ k) × (k < 65535) × (length p < 65536) × Ends count k h
Steps seq count k ((h, p) ∷ x ∷ chunks) =
    (h.frame_seq ≡ seq)
    × (h.chunk_idx ≡ k)
    × (k < 65535)
    × (length p < 65536)
    × (h.chunk_count ≡ count)
    × (suc k ≢ count)
    × Steps seq count (suc k) (x ∷ chunks)

-- The reassembler is inside frame `seq`, and waits for chunk `k`.
pub record IsMid (seq count k : ℕ) (r : Reassembly) : Type 0 where
  pub valid : IsValid r
  pub is_active : r.active ≡ true
  pub seq_right : r.frame_seq ≡ seq
  pub count_right : r.chunk_count ≡ count
  pub next_right : r.next_chunk_idx ≡ k

length-collected : (r : Reassembly) → IsValid r → length (collected r) ≡ r.write_off
length-collected r v = omega (arith, length-take r.write_off r.buf)

-- Inside a frame a chunk of the same frame goes straight to `extend`.
feed-mid :
    (r : Reassembly) (h : ChunkHdr) (p : List ℕ)
    → r.active ≡ true
    → h.frame_seq ≡ r.frame_seq
    → feed r h p ≡ extend r h p
unfolding feed
feed-mid r h p a e = ground arith

ends_frame-middle :
    (r : Reassembly) (h : ChunkHdr) (k : ℕ)
    → h.chunk_idx ≡ k
    → h.chunk_count ≡ r.chunk_count
    → ends_frame r h ≡ false
unfolding ends_frame
ends_frame-middle r h k i c = ground arith

ends_frame-last :
    (r : Reassembly) (h : ChunkHdr) (k : ℕ)
    → h.chunk_idx ≡ k
    → r.chunk_count ≡ 0
    → has_flag h.flags flag_frame_end ≡ true
    → h.chunk_count ≡ suc k
    → ends_frame r h ≡ true
unfolding ends_frame
ends_frame-last r h k i z f c = ground arith

-- The chunk that the frame waits for is accepted.
module _ (seq count k : ℕ) (r : Reassembly) (h : ChunkHdr) (p : List ℕ) (m : IsMid seq count k r)
    (same : h.frame_seq ≡ seq) (order : h.chunk_idx ≡ k) (small : k < 65535)
    (room : length (collected r) + length p ≤ r.cap) where
  seq_of_r : h.frame_seq ≡ r.frame_seq
  seq_of_r = same ∙ sym m.seq_right

  middle-IsNext : h.chunk_count ≡ count → IsNext r h p
  middle-IsNext c = record {
    in_order = order ∙ sym m.next_right;
    count_right =
        rw (ends_frame-middle r h k order (c ∙ sym m.count_right)) (c ∙ sym m.count_right);
    room = omega (arith, length-collected r m.valid);
  }

  last-IsNext :
      count ≡ 0 → has_flag h.flags flag_frame_end ≡ true → h.chunk_count ≡ suc k → IsNext r h p
  last-IsNext z f c = record {
    in_order = order ∙ sym m.next_right;
    count_right = rw (ends_frame-last r h k order (m.count_right ∙ z) f c) refl;
    room = omega (arith, length-collected r m.valid);
  }

  Ends-IsNext : Ends count k h → IsNext r h p
  Ends-IsNext (inl (c, e)) = middle-IsNext c
  Ends-IsNext (inr (z, f, c)) = last-IsNext z f c

  Ends-complete : Ends count k h → (feed r h p).0 ≡ true
  Ends-complete (inl (c, e)) =
      let x = extend-IsNext r h p m.valid (middle-IsNext c) in
      rw
        (
          feed-mid r h p m.is_active seq_of_r,
          x.complete,
          ends_frame-middle r h k order (c ∙ sym m.count_right),
        )
        (ground (arith, m.next_right, m.count_right))
  Ends-complete (inr (z, f, c)) =
      let x = extend-IsNext r h p m.valid (last-IsNext z f c) in
      rw
        (
          feed-mid r h p m.is_active seq_of_r,
          x.complete,
          ends_frame-last r h k order (m.count_right ∙ z) f c,
        )
        refl

  middle_goes_on : h.chunk_count ≡ count → suc k ≢ count → (feed r h p).0 ≡ false
  middle_goes_on c ne =
      let x = extend-IsNext r h p m.valid (middle-IsNext c) in
      rw
        (
          feed-mid r h p m.is_active seq_of_r,
          x.complete,
          ends_frame-middle r h k order (c ∙ sym m.count_right),
        )
        (ground (arith, m.next_right, m.count_right))

  fed-Extended : IsNext r h p → Extended r h p (feed r h p)
  fed-Extended n = rw (feed-mid r h p m.is_active seq_of_r) (extend-IsNext r h p m.valid n)

  fed-IsMid : length p < 65536 → IsNext r h p → IsMid seq count (suc k) (feed r h p).1
  fed-IsMid len n =
      let x = fed-Extended n in
      record {
        valid = feed-IsValid r h p len m.valid;
        is_active = x.active_same ∙ m.is_active;
        seq_right = x.seq_same ∙ m.seq_right;
        count_right = x.count_same ∙ m.count_right;
        next_right = omega (arith, x.next, m.next_right);
      }

-- One frame came out, with the bytes that were collected before and the payloads that were fed,
-- and none was dropped.
pub record IsDelivered (r : Reassembly) (chunks : List Fed) (out : List Frame × Reassembly)
    : Type 0 where
  pub frames :
      out.0
      ≡ record {
        frame_seq = r.frame_seq;
        bytes = collected r ++ joined chunks;
        frame_pts = r.frame_pts;
        flags = r.flags;
      }
        ∷ []
  pub valid : IsValid out.1
  pub cap_same : out.1.cap ≡ r.cap
  pub seq_same : out.1.frame_seq ≡ r.frame_seq
  pub dropped_same : out.1.dropped_frames ≡ r.dropped_frames

deliver-Steps :
    (seq count k : ℕ) (r : Reassembly) (chunks : List Fed)
    → IsMid seq count k r
    → Steps seq count k chunks
    → length (collected r) + length (joined chunks) ≤ r.cap
    → IsDelivered r chunks (deliver r chunks)
unfolding deliver
deliver-Steps seq count k r [] m steps room = elim steps [ ]
deliver-Steps seq count k r ((h, p) ∷ []) m (same, order, small, len, ends) room =
    let fits : length (collected r) + length p ≤ r.cap = omega (arith, length-append p []) in
    let next = Ends-IsNext seq count k r h p m same order small fits ends in
    let x = fed-Extended seq count k r h p m same order small fits next in
    record {
      frames =
          rw (Ends-complete seq count k r h p m same order small fits ends)
            (ground (arith, x.bytes, x.seq_same, x.pts_same, x.flags_same, append-nil p));
      valid = feed-IsValid r h p len m.valid;
      cap_same = x.cap_same;
      seq_same = x.seq_same;
      dropped_same = x.dropped_same;
    }
deliver-Steps seq count k r ((h, p) ∷ y ∷ chunks) m (same, order, small, len, cnt, ne, steps) room =
    let fits : length (collected r) + length p ≤ r.cap =
      omega (arith, length-append p (joined (y ∷ chunks))) in
    let next = middle-IsNext seq count k r h p m same order small fits cnt in
    let x = fed-Extended seq count k r h p m same order small fits next in
    let q =
      deliver-Steps seq count (suc k) (feed r h p).1 (y ∷ chunks)
        (fed-IsMid seq count k r h p m same order small fits len next) steps
        (omega (
          arith,
          length-append p (joined (y ∷ chunks)),
          length-append (collected r) p,
          ap length x.bytes,
          x.cap_same,
        )) in
    record {
      frames = rw (middle_goes_on seq count k r h p m same order small fits cnt ne) (
          q.frames
          ∙ rw
              (
                x.bytes,
                x.seq_same,
                x.pts_same,
                x.flags_same,
                append_assoc (collected r) p (joined (y ∷ chunks)),
              )
              refl);
      valid = q.valid;
      cap_same = q.cap_same ∙ x.cap_same;
      seq_same = q.seq_same ∙ x.seq_same;
      dropped_same = q.dropped_same ∙ x.dropped_same;
    }

-- A chunk 0 of another frame starts that frame, and is then fed to it.
feed-start :
    (r : Reassembly) (h : ChunkHdr) (p : List ℕ)
    → (r.active ≡ false) ⊎ (h.frame_seq ≢ r.frame_seq)
    → h.chunk_idx ≡ 0
    → feed r h p ≡ feed (start_frame (give_up r) h) h p
unfolding feed start_frame
feed-start r h p fresh z = ground arith

start-IsMid :
    (r : Reassembly) (h : ChunkHdr)
    → IsValid r
    → IsMid h.frame_seq
        (if has_flag h.flags flag_frame_end then 0 else h.chunk_count)
        0
        (start_frame (give_up r) h)
start-IsMid r h v = record {
  valid = start_frame-IsValid (give_up r) h (give_up-IsValid r v);
  is_active = unfold start_frame in refl;
  seq_right = unfold start_frame in refl;
  count_right = unfold start_frame in refl;
  next_right = unfold start_frame in refl;
}

deliver-start :
    (r : Reassembly) (h : ChunkHdr) (p : List ℕ) (chunks : List Fed)
    → (r.active ≡ false) ⊎ (h.frame_seq ≢ r.frame_seq)
    → h.chunk_idx ≡ 0
    → deliver r ((h, p) ∷ chunks) ≡ deliver (start_frame (give_up r) h) ((h, p) ∷ chunks)
unfolding deliver
deliver-start r h p chunks fresh z = rw (feed-start r h p fresh z) refl

cap-give_up : (r : Reassembly) → (give_up r).cap ≡ r.cap
unfolding give_up
cap-give_up r = ground arith

-- The chunks of a frame, fed in order to a reassembler that is not inside a frame of that
-- number, give exactly that frame: the payloads joined, with the time stamp and flags of its
-- first chunk. It is whole or streamed as the first chunk says; the reassembler is well formed and
-- has room for it.
pub deliver_frame :
    (r : Reassembly) (h : ChunkHdr) (p : List ℕ) (chunks : List Fed)
    → IsValid r
    → (r.active ≡ false) ⊎ (h.frame_seq ≢ r.frame_seq)
    → Steps h.frame_seq
        (if has_flag h.flags flag_frame_end then 0 else h.chunk_count)
        0
        ((h, p) ∷ chunks)
    → h.chunk_idx ≡ 0
    → length (joined ((h, p) ∷ chunks)) ≤ r.cap
    → IsDelivered (start_frame (give_up r) h) ((h, p) ∷ chunks) (deliver r ((h, p) ∷ chunks))
deliver_frame r h p chunks v fresh steps z room = rw (deliver-start r h p chunks fresh z) (
    deliver-Steps h.frame_seq _ 0 (start_frame (give_up r) h) ((h, p) ∷ chunks) (start-IsMid r h v)
      steps (started_room (give_up r) (cap-give_up r)))
  where
    started_room :
        (q : Reassembly)
        → q.cap ≡ r.cap
        → length (collected (start_frame q h)) + length (joined ((h, p) ∷ chunks))
          ≤ (start_frame q h).cap
    started_room q e = unfold start_frame in omega arith
