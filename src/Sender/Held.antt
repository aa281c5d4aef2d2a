-- ===== src/Sender/Held.antt =====
-- What well-formed chunks keep of the context, the send loop keeps.
use Prim.Native.Nat.{bit_or}
use ar8030_transport.Base.{
  ℕ, ◌+◌, ◌<◌, Bool, true, false, not, ◌&&◌, ◌||◌, List, [], ◌∷◌, All, arith, ◌==◌, if◌then◌else◌,
  length, u64, Option, some,
}
use ar8030_transport.Chunk.{ChunkHdr, flag_idr, flag_gdr, flag_enhance, codec_h265}
use ar8030_transport.ChunkStream.Front.{IsChunk, chunk_bytes}
use ar8030_transport.Chunker.{chunk_frame}
use ar8030_transport.Chunker.Sent.{IsTyped}
use ar8030_transport.Sender.Offers.{chunk_part_keeps, chunk_frame_keeps}
use ar8030_transport.Sender.Counts.{if-cases}
use ar8030_transport.Sender.Slices.{
  Entry, Sending, LoopState, frame_flags, all_sent, count_or_0, lose_open, count_frame, open_slices,
  slice_source, whole_source, send_slice, after_frame, send_whole, on_slice, on_entry, on_entries,
}

-- An entry of the ring whose fields have their types.
pub record IsEntry (e : Entry) : Type 0 where
  pub pts_fits : e.pts < 4294967296
  pub bytes_fit : length e.bytes < 4294901760

flags_or_lt :
    (a b c : Bool)
    → bit_or
        (bit_or (if a then flag_idr else 0) (if b then flag_gdr else 0))
        (if c then flag_enhance else 0)
      < 256
flags_or_lt false false false = omega arith
flags_or_lt false false true = omega arith
flags_or_lt false true false = omega arith
flags_or_lt false true true = omega arith
flags_or_lt true false false = omega arith
flags_or_lt true false true = omega arith
flags_or_lt true true false = omega arith
flags_or_lt true true true = omega arith

frame_flags-lt : (e : Entry) → frame_flags e < 256
unfolding frame_flags
frame_flags-lt e = flags_or_lt e.is_idr e.is_gdr e.is_enhance

-- The loop's state, with what its context keeps.
pub record Holds {S : Type 0} (P : S → Type 0) (st : LoopState S) : Type 0 where
  pub kept : P st.ctx
  pub seq_fits : st.frame_seq < 65536
  pub flags_fit : st.sf.flags < 256

module _ {S : Type 0} (l : Sending S) (P : S → Type 0) (chunk_payload scratch : ℕ)
    (step : (c : S) (h : ChunkHdr) (p : List ℕ)
      → IsChunk h p
      → P c
      → P (l.send c (chunk_bytes h p)).1)
    (clear : (c : S) → P c → P (l.clear_ret c)) (payload : 0 < chunk_payload)
    (payload_fits : chunk_payload < 65536) where
  lose_open-Holds : (e : Entry) (st : LoopState S) → Holds P st → Holds P (lose_open e st)
  unfolding lose_open
  lose_open-Holds e st h =
      if-cases (Holds P) (st.sf.is_open && not (e.pts == st.sf.pts)) _ _
        (λ o. record { kept = h.kept; seq_fits = omega arith; flags_fit = h.flags_fit }) (λ o. h)

  close-Holds :
      (sent : Option ℕ) (expected : ℕ) (st : LoopState S)
      → Holds P st
      → Holds P (after_frame l sent (count_frame sent expected st))
  unfolding after_frame count_frame
  close-Holds sent expected st h =
      if-cases (λ x. Holds P (after_frame l sent x)) (all_sent sent expected) _ _
        (λ o. record { kept = h.kept; seq_fits = omega arith; flags_fit = h.flags_fit })
        (λ o. record { kept = h.kept; seq_fits = omega arith; flags_fit = h.flags_fit })

  open_slices-Holds : (e : Entry) (st : LoopState S) → Holds P st → Holds P (open_slices l e st)
  unfolding open_slices
  open_slices-Holds e st h =
      if-cases (Holds P) st.sf.is_open _ _ (λ o. h)
        (λ o. record {
          kept = clear st.ctx h.kept;
          seq_fits = h.seq_fits;
          flags_fit = frame_flags-lt e;
        })

  typed :
      (seq flags : ℕ) (e : Entry)
      → IsEntry e
      → seq < 65536
      → flags < 256
      → IsTyped (record {
        frame_seq = seq;
        flags = flags;
        codec = codec_h265;
        frame_pts = e.pts;
        bytes = e.bytes;
        chunk_payload = chunk_payload;
      })
  typed seq flags e v s f = record {
    source = record { payload_pos = payload; payload_fits = payload_fits; bytes_fit = v.bytes_fit };
    seq_fits = s;
    flags_fits = f;
    codec_fits = omega arith;
    pts_fits = v.pts_fits;
  }

  send_slice-Holds :
      (e : Entry) (st : LoopState S)
      → IsEntry e
      → Holds P st
      → Holds P (send_slice l chunk_payload scratch e st)
  unfolding send_slice
  send_slice-Holds e st v h =
      if-cases (Holds P) st.sf.failed _ _
        (λ o. record { kept = h.kept; seq_fits = h.seq_fits; flags_fit = h.flags_fit })
        (λ o. record {
          kept =
              chunk_part_keeps l.send P step (slice_source l chunk_payload e st) st.sf.next_idx
                (not e.is_partial) scratch st.ctx
                (typed st.frame_seq st.sf.flags e v h.seq_fits h.flags_fit) h.kept;
          seq_fits = h.seq_fits;
          flags_fit = h.flags_fit;
        })

  on_slice-Holds :
      (e : Entry) (st : LoopState S)
      → IsEntry e
      → Holds P st
      → Holds P (on_slice l chunk_payload scratch e st)
  unfolding on_slice
  on_slice-Holds e st v h =
      let st1 = send_slice l chunk_payload scratch e (open_slices l e st) in
      let h1 = send_slice-Holds e (open_slices l e st) v (open_slices-Holds e st h) in
      let st2 = record st1 {
        sf = record st1.sf { is_open = false };
        entries_per_frame = st1.sf.entries;
      } in
      if-cases (Holds P) e.is_partial st1
        (after_frame l (some st1.sf.sent) (count_frame (some st1.sf.sent) st1.sf.next_idx st2))
        (λ o. h1)
        (λ o.
          close-Holds (some st1.sf.sent) st1.sf.next_idx st2
            (record { kept = h1.kept; seq_fits = h1.seq_fits; flags_fit = h1.flags_fit }))

  send_whole-Holds :
      (e : Entry) (st : LoopState S)
      → IsEntry e
      → Holds P st
      → Holds P (send_whole l chunk_payload scratch e st)
  unfolding send_whole
  send_whole-Holds e st v h =
      let src = whole_source l chunk_payload e st in
      let o = chunk_frame l.send src scratch (l.clear_ret st.ctx) in
      close-Holds o.ret (count_or_0 o.out_count)
        (record st { ctx = o.ctx; frames_in = u64 (st.frames_in + 1); entries_per_frame = 1 })
        (record {
          kept =
              chunk_frame_keeps l.send P step src scratch (l.clear_ret st.ctx)
                (typed st.frame_seq (frame_flags e) e v h.seq_fits (frame_flags-lt e))
                (clear st.ctx h.kept);
          seq_fits = h.seq_fits;
          flags_fit = h.flags_fit;
        })

  -- What every well-formed chunk keeps of the context, and the clearing of the last result too, a run
  -- of the loop over any entries keeps.
  pub on_entries-Holds :
      (es : List Entry) (st : LoopState S)
      → All IsEntry es
      → Holds P st
      → Holds P (on_entries l chunk_payload scratch es st)
  unfolding on_entries on_entry
  on_entries-Holds [] st v h = h
  on_entries-Holds (e ∷ es) st v h =
      let st1 = lose_open e st in
      let h1 = lose_open-Holds e st h in
      on_entries-Holds es (on_entry l chunk_payload scratch e st) v.1 (
        if-cases (Holds P) (e.is_partial || st1.sf.is_open) _ _ (λ o. on_slice-Holds e st1 v.0 h1)
          (λ o. send_whole-Holds e st1 v.0 h1))
