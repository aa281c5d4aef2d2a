-- ===== src/Reassembly/Tests.antt =====
-- The reassembler at concrete chunks: two whole ones of a frame, after a stray one.
use ar8030_transport.Base.{ℕ, ◌≡◌, refl, List, [], ◌∷◌, true, arith, inl, replicate}
use ar8030_transport.Chunk.{ChunkHdr, chunk_magic}
use ar8030_transport.Reassembly.{
  Reassembly, Fed, init, feed, drop_frame, extend, collected, start_frame, give_up,
}
use ar8030_transport.Reassembly.Invariant.{init-IsValid}
use ar8030_transport.Reassembly.Integrity.{Run, feed_all, feed_integrity}
use ar8030_transport.Reassembly.Deliver.{deliver, IsDelivered, deliver_frame}

abbrev hdr : ℕ → ℕ → ℕ → ℕ → ChunkHdr
hdr seq idx count len = record {
  magic = chunk_magic;
  frame_seq = seq;
  chunk_idx = idx;
  chunk_count = count;
  payload_len = len;
  flags = 0;
  codec = 0;
  frame_pts = 100;
  checksum = 0;
  reserved = 0;
}

abbrev earlier : List Fed
earlier = (hdr 5 0 2 2, 1 ∷ 2 ∷ []) ∷ (hdr 4 1 3 1, 9 ∷ []) ∷ []

completes : (feed (feed_all (init (replicate 8 0) 8) earlier) (hdr 5 1 2 1) (3 ∷ [])).0 ≡ true
unfolding feed_all feed init drop_frame extend start_frame give_up
completes = refl

feed_integrity_example :
    Run 5 2
      ((hdr 5 1 2 1, 3 ∷ []) ∷ earlier)
      (collected (feed (feed_all (init (replicate 8 0) 8) earlier) (hdr 5 1 2 1) (3 ∷ [])).1)
feed_integrity_example =
    feed_integrity (replicate 8 0) 8 earlier (hdr 5 1 2 1) (3 ∷ []) refl (omega arith) (omega arith)
      completes

abbrev idle : Reassembly
idle = init (replicate 8 0) 8

deliver_frame_example :
    IsDelivered
      (start_frame (give_up idle) (hdr 5 0 2 2))
      ((hdr 5 0 2 2, 1 ∷ 2 ∷ []) ∷ (hdr 5 1 2 1, 3 ∷ []) ∷ [])
      (deliver idle ((hdr 5 0 2 2, 1 ∷ 2 ∷ []) ∷ (hdr 5 1 2 1, 3 ∷ []) ∷ []))
deliver_frame_example =
    deliver_frame idle (hdr 5 0 2 2) (1 ∷ 2 ∷ []) ((hdr 5 1 2 1, 3 ∷ []) ∷ [])
      (init-IsValid (replicate 8 0) 8 refl (omega arith)) (inl (unfold init in refl)) (ground arith)
      refl (unfold init in omega arith)
