-- ===== src/Sender/Items.antt =====
-- One queued item: its chunk, or the reason why there is none.
use mathlib.Core.Path.{subst}
use ar8030_transport.Base.{
  ℕ, ap, ◌++◌, append-nil, leb, true, false, ◌+◌, ◌≤◌, ◌<◌, ◌≡◌, refl, sym, ◌∙◌, ◌||◌, Option, none,
  some, List, [], ◌∷◌, arith, ltb, ◌==◌, length, Bool-cases, inl, inr, u16,
}
use ar8030_transport.Chunk.{ChunkHdr, ctrl_max_payload}
use ar8030_transport.ChunkStream.Front.{IsChunk, chunk_bytes, length-chunk_bytes}
use ar8030_transport.ChunkStream.Deliver.{wire}
use ar8030_transport.Chunker.{Source, chunk_hdr, chunk_body}
use ar8030_transport.Chunker.Split.{count_of}
use ar8030_transport.Chunker.Sent.{IsTyped, send_all, chunk_hdr-IsChunk}
use ar8030_transport.Outq.{Item}
use ar8030_transport.Sender.Written.{Sends}
use ar8030_transport.Sender.Carried.{
  IsPayload, its_bytes, its_text, Carries, left_out, text_too_long, no_room, carried, one_chunk,
  one_body, one_from,
}
use ar8030_transport.Sender.Staged.{IsItem, IsCtx, Staged, start_of, chunk_frame_run}
use ar8030_transport.Sender.Write.{
  Link, SendCtx, Sizes, aux_scratch, append_to_combo, syncr_text, payload_of, aux_source,
  stage_payload, stage_item,
}

module _ {W : Type 0} (l : Link W) (sent : W → List ℕ) (s : Sends l sent) where
  -- What one item adds, and that only whole chunks are added.
  pub record OneStaged (z : Sizes) (item : Item) (c c' : SendCtx W) : Type 0 where
    pub staged : Staged sent c c'
    pub carries : Carries l z item c.aux_seq (length c.combo) c'.aux_seq staged.chunks
    pub same_queue : c'.outq ≡ c.outq

  -- The one chunk of a payload, if the buffer has room.
  add_chunk :
      (z : Sizes) (item : Item) (c : SendCtx W) (h : ChunkHdr) (payload : List ℕ)
      → IsCtx c
      → IsChunk h payload
      → IsPayload l item payload
      → (h.codec ≡ item.codec) × (h.frame_seq ≡ c.aux_seq) × (h.chunk_idx ≡ 0) × (h.chunk_count ≡ 1)
      → OneStaged z item c
          (send_all
            (append_to_combo z)
            ((h, payload) ∷ [])
            0
            (record c { aux_seq = u16 (c.aux_seq + 1) })).1
  unfolding send_all append_to_combo
  add_chunk z item c h payload v right p named =
      elim (Bool-cases (ltb z.combo_cap (length c.combo + length (chunk_bytes h payload)))) [
        | inl full ↦ rw full (record {
          staged = record {
            ctx = record { items_typed = v.items_typed; seq_fits = omega arith };
            chunks = [];
            right = tt;
            appended = sym (append-nil c.combo);
            silent = refl;
          };
          carries = no_room payload p (ground (arith, length-chunk_bytes h payload)) refl refl;
          same_queue = refl;
        })
        | inr room ↦ rw room (record {
          staged = record {
            ctx = record { items_typed = v.items_typed; seq_fits = omega arith };
            chunks = (h, payload) ∷ [];
            right = (right, tt);
            appended = ap (λ x. c.combo ++ x) (sym (append-nil (chunk_bytes h payload)));
            silent = refl;
          };
          carries =
              carried h payload p named (ground (arith, length-chunk_bytes h payload)) refl refl;
          same_queue = refl;
        })
      ]

  stage_payload-OneStaged :
      (z : Sizes) (item : Item) (c : SendCtx W) (payload : List ℕ)
      → z.aux_payload_max ≤ 512
      → IsItem item
      → IsCtx c
      → IsPayload l item payload
      → OneStaged z item c (stage_payload l z item c (some payload))
  unfolding stage_payload
  stage_payload-OneStaged z item c payload small i v p =
      elim (Bool-cases (length payload == 0 || ltb z.aux_payload_max (length payload))) [
        | inl skip ↦ rw skip (record {
          staged = record {
            ctx = v;
            chunks = [];
            right = tt;
            appended = sym (append-nil c.combo);
            silent = refl;
          };
          carries = left_out payload p (ground (arith, skip)) refl refl;
          same_queue = refl;
        })
        | inr good ↦
            let src = aux_source l z c item payload in
            let some_room : 0 < z.aux_payload_max = ground arith in
            let t : IsTyped src = record {
              source = record {
                payload_pos = some_room;
                payload_fits = omega arith;
                bytes_fit = ground arith;
              };
              seq_fits = v.seq_fits;
              flags_fits = omega arith;
              codec_fits = i.codec_fits;
              pts_fits = omega arith;
            } in
            let one : count_of src ≡ 1 =
              one_chunk (length payload) z.aux_payload_max (ground arith) (ground arith)
                (omega arith) in
            let h = chunk_hdr src (start_of src) (count_of src) 0 in
            let body : chunk_body src 0 ≡ payload = one_body src t.source one in
            let right : IsChunk h payload =
              subst (IsChunk h) body
                (chunk_hdr-IsChunk src (start_of src) (count_of src) 0 t (omega (arith, one))) in
            let named : (h.codec ≡ item.codec)
                × (h.frame_seq ≡ c.aux_seq)
                × (h.chunk_idx ≡ 0)
                × (h.chunk_count ≡ 1) =
              header_names src one in
            let c1 = record c { aux_seq = u16 (c.aux_seq + 1) } in
            let same =
              chunk_frame_run (append_to_combo z) src aux_scratch c1 t (omega (arith, one))
                (omega arith)
              ∙ ap (λ cs. (send_all (append_to_combo z) cs 0 c1).1)
                  (one_from src (start_of src) (count_of src) (count_of src) one
                    ∙ ap (λ b. (h, b) ∷ []) body) in
            rw good
              (subst (OneStaged z item c) (sym same) (add_chunk z item c h payload v right p named))
      ]
    where
      header_names :
          (src : Source)
          → count_of src ≡ 1
          → let h = chunk_hdr src (start_of src) (count_of src) 0 in
            (h.codec ≡ src.codec)
            × (h.frame_seq ≡ src.frame_seq)
            × (h.chunk_idx ≡ 0)
            × (h.chunk_count ≡ 1)
      header_names src e = unfold chunk_hdr in (refl, refl, refl, rw e refl)

  -- An item in a context whose clock may have moved on.
  OneStaged-from :
      (z : Sizes) (item : Item) (c c1 d : SendCtx W)
      → OneStaged z item c1 d
      → c1.combo ≡ c.combo
      → c1.aux_seq ≡ c.aux_seq
      → c1.outq ≡ c.outq
      → sent c1.world ≡ sent c.world
      → OneStaged z item c d
  OneStaged-from z item c c1 d o combo seq queue world = record {
    staged = record {
      ctx = o.staged.ctx;
      chunks = o.staged.chunks;
      right = o.staged.right;
      appended = o.staged.appended ∙ ap (λ b. b ++ wire o.staged.chunks) combo;
      silent = o.staged.silent ∙ world;
    };
    carries =
        subst (λ n. Carries l z item n (length c.combo) d.aux_seq o.staged.chunks) seq
          (subst (λ b. Carries l z item c1.aux_seq (length b) d.aux_seq o.staged.chunks) combo
            o.carries);
    same_queue = o.same_queue ∙ queue;
  }

  -- What `payload_of` gives in each case.
  payload_plain :
      (item : Item) (w : W) → item.is_syncr ≡ false → payload_of l item w ≡ (some item.bytes, w)
  unfolding payload_of
  payload_plain item w e = ground (arith, e)

  payload_long :
      (item : Item) (w : W)
      → item.is_syncr ≡ true
      → leb ctrl_max_payload
          (length (syncr_text item.sync_seq item.t1_us item.t2_us (l.now_us w).0))
        ≡ true
      → payload_of l item w ≡ (none, (l.now_us w).1)
  unfolding payload_of
  payload_long item w e long = ground (arith, e, long)

  payload_text :
      (item : Item) (w : W)
      → item.is_syncr ≡ true
      → leb ctrl_max_payload
          (length (syncr_text item.sync_seq item.t1_us item.t2_us (l.now_us w).0))
        ≡ false
      → payload_of l item w
        ≡ (some (syncr_text item.sync_seq item.t1_us item.t2_us (l.now_us w).0), (l.now_us w).1)
  unfolding payload_of
  payload_text item w e short = ground (arith, e, short)

  -- No payload, after the clock was read.
  none-OneStaged :
      (z : Sizes) (item : Item) (c : SendCtx W)
      → IsCtx c
      → item.is_syncr ≡ true
      → ctrl_max_payload
        ≤ length (syncr_text item.sync_seq item.t1_us item.t2_us (l.now_us c.world).0)
      → OneStaged z item c (stage_payload l z item (record c { world = (l.now_us c.world).1 }) none)
  unfolding stage_payload
  none-OneStaged z item c v syncr long = record {
    staged = record {
      ctx = record { items_typed = v.items_typed; seq_fits = v.seq_fits };
      chunks = [];
      right = tt;
      appended = sym (append-nil c.combo);
      silent = s.clock_silent c.world;
    };
    carries = text_too_long c.world syncr long refl refl;
    same_queue = refl;
  }

  pub stage_item-OneStaged :
      (z : Sizes) (item : Item) (c : SendCtx W)
      → z.aux_payload_max ≤ 512
      → IsItem item
      → IsCtx c
      → OneStaged z item c (stage_item l z item c)
  unfolding stage_item
  stage_item-OneStaged z item c small i v =
      let text = syncr_text item.sync_seq item.t1_us item.t2_us (l.now_us c.world).0 in
      let c1 = record c { world = (l.now_us c.world).1 } in
      let v1 : IsCtx c1 = record { items_typed = v.items_typed; seq_fits = v.seq_fits } in
      elim (Bool-cases item.is_syncr) [
        | inr plain ↦
            staged_by (payload_plain item c.world plain)
              (stage_payload-OneStaged z item c item.bytes small i v (its_bytes plain refl))
        | inl syncr ↦ elim (Bool-cases (leb ctrl_max_payload (length text))) [
          | inl long ↦
              staged_by (payload_long item c.world syncr long)
                (none-OneStaged z item c v syncr (ground (arith, long)))
          | inr short ↦ staged_by (payload_text item c.world syncr short) (
              OneStaged-from z item c c1 (stage_payload l z item c1 (some text))
                (stage_payload-OneStaged z item c1 text small i v1 (its_text c.world syncr refl))
                refl refl refl (s.clock_silent c.world))
        ]
      ]
    where
      staged_by :
          {x : Option (List ℕ) × W}
          → payload_of l item c.world ≡ x
          → OneStaged z item c (stage_payload l z item (record c { world = x.1 }) x.0)
          → OneStaged z item c (
              stage_payload l z item
                (record c { world = (payload_of l item c.world).1 })
                (payload_of l item c.world).0)
      staged_by e o =
          subst (λ y. OneStaged z item c (stage_payload l z item (record c { world = y.1 }) y.0))
            (sym e) o
