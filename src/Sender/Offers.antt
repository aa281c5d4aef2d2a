-- ===== src/Sender/Offers.antt =====
-- What the chunker hands to the send function: well-formed chunks and nothing else. So what each of
-- them keeps of the context, a call keeps.
use ar8030_transport.Base.{
  ℕ, zero, suc, ◌+◌, ◌≡◌, Bool, true, false, ◌||◌, List, arith, ltb, ◌==◌, u32,
}
use ar8030_transport.Chunk.{ChunkHdr, hdr_size, chunk_max_payload}
use ar8030_transport.ChunkStream.Front.{IsChunk, chunk_bytes}
use ar8030_transport.Chunker.{
  Source, Placing, Outcome, chunk_hdr, chunk_body, sendbuf, send_from, chunk_run, chunk_frame,
  chunk_part,
}
use ar8030_transport.Chunker.Split.{count_of}
use ar8030_transport.Chunker.Sent.{IsTyped, chunk_hdr-IsChunk}
use ar8030_transport.Sender.Counts.{if-cases}

-- What a well-formed chunk keeps.
module _ {S : Type 0} (send : S → List ℕ → Bool × S) (P : S → Type 0)
    (step : (c : S) (h : ChunkHdr) (p : List ℕ)
      → IsChunk h p
      → P c
      → P (send c (chunk_bytes h p)).1) where
  send_from_keeps :
      (src : Source) (p : Placing) (n i sent : ℕ) (c : S)
      → IsTyped src
      → i + n ≡ count_of src
      → P c
      → P (send_from send src p (count_of src) n i sent c).1
  unfolding send_from sendbuf
  send_from_keeps src p zero i sent c t e k = k
  send_from_keeps src p (suc n) i sent c t e k =
      let h = chunk_hdr src p (count_of src) i in
      let x = send c (chunk_bytes h (chunk_body src i)) in
      let k1 =
        step c h (chunk_body src i) (chunk_hdr-IsChunk src p (count_of src) i t (omega arith)) k in
      if-cases (λ (r : ℕ × S). P r.1) x.0 _ _
        (λ o. send_from_keeps src p n (i + 1) (sent + 1) x.1 t (omega arith) k1) (λ o. k1)

  chunk_run_keeps :
      (src : Source) (p : Placing) (room : ℕ) (c : S)
      → IsTyped src
      → P c
      → P (chunk_run send src p room c).ctx
  unfolding chunk_run
  chunk_run_keeps src p room c t k =
      if-cases (λ (x : Outcome S). P x.ctx)
        (src.chunk_payload == 0 || ltb chunk_max_payload src.chunk_payload) _ _ (λ o. k)
        (λ o.
          if-cases (λ (x : Outcome S). P x.ctx) (ltb room (u32 (hdr_size + src.chunk_payload))) _ _
            (λ o. k)
            (λ o.
              if-cases (λ (x : Outcome S). P x.ctx) (ltb 0xFFFF (u32 (p.first_idx + count_of src)))
                _ _ (λ o. k) (λ o. send_from_keeps src p (count_of src) 0 0 c t (omega arith) k)))

  pub chunk_part_keeps :
      (src : Source) (first_idx : ℕ) (last : Bool) (room : ℕ) (c : S)
      → IsTyped src
      → P c
      → P (chunk_part send src first_idx last room c).ctx
  unfolding chunk_part
  chunk_part_keeps src first_idx last room c t k =
      chunk_run_keeps src
        (record { first_idx = first_idx; total_count = 0; frame_end = last; part = true }) room c t
        k

  pub chunk_frame_keeps :
      (src : Source) (room : ℕ) (c : S) → IsTyped src → P c → P (chunk_frame send src room c).ctx
  unfolding chunk_frame
  chunk_frame_keeps src room c t k =
      if-cases (λ (x : Outcome S). P x.ctx)
        (src.chunk_payload == 0 || ltb chunk_max_payload src.chunk_payload) _ _ (λ o. k)
        (λ o.
          if-cases (λ (x : Outcome S). P x.ctx) (ltb 0xFFFF (count_of src)) _ _ (λ o. k)
            (λ o.
              chunk_run_keeps src
                (record {
                  first_idx = 0;
                  total_count = count_of src;
                  frame_end = false;
                  part = false;
                })
                room c t k))
