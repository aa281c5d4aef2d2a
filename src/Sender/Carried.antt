-- ===== src/Sender/Carried.antt =====
-- What becomes of the queued items: one chunk each, or a reason why there is none.
use native.Mathlib.Nat.{div-add-mod'}
use ar8030_transport.Base.{
  ℕ, zero, suc, ◌+◌, ◌-◌, ◌*◌, ◌/◌, ◌%◌, ◌≤◌, ◌<◌, ◌≡◌, ◌⊎◌, refl, sym, ap, ◌∙◌, true, false, List,
  [], ◌∷◌, ◌++◌, append-nil, arith, ◌==◌, if◌then◌else◌, length, u16, u32, sub32,
}
use ar8030_transport.Chunk.{ChunkHdr, hdr_size, ctrl_max_payload}
use ar8030_transport.ChunkStream.Deliver.{wire}
use ar8030_transport.Chunker.{Source, Placing, count_chunks, chunk_hdr, chunk_body}
use ar8030_transport.Chunker.Split.{IsSource, count_of, bodies, bodies_lem}
use ar8030_transport.Chunker.Sent.{chunks_from}
use ar8030_transport.Outq.{Item}
use ar8030_transport.Sender.Write.{Link, Sizes, syncr_text}

module _ {W : Type 0} (l : Link W) where
  -- An item's payload: its bytes, or the text of a SYNCR with the clock's reading.
  pub data IsPayload (item : Item) (payload : List ℕ) : Type 0 where
    its_bytes : item.is_syncr ≡ false → payload ≡ item.bytes → IsPayload item payload
    its_text :
        (w : W)
        → item.is_syncr ≡ true
        → payload ≡ syncr_text item.sync_seq item.t1_us item.t2_us (l.now_us w).0
        → IsPayload item payload

  -- What one item adds to the `used` bytes of the buffer: a chunk with its payload and codec and the
  -- next number, or nothing. No chunk is made of an empty payload, one above the limit, or a text
  -- that is too long, and none fits a full buffer, which uses up a number.
  pub data Carries (z : Sizes) (item : Item) (seq used seq' : ℕ) (here : List (ChunkHdr × List ℕ))
      : Type 0 where
    left_out :
        (payload : List ℕ)
        → IsPayload item payload
        → (length payload ≡ 0) ⊎ (z.aux_payload_max < length payload)
        → seq' ≡ seq
        → here ≡ []
        → Carries z item seq used seq' here
    text_too_long :
        (w : W)
        → item.is_syncr ≡ true
        → ctrl_max_payload ≤ length (syncr_text item.sync_seq item.t1_us item.t2_us (l.now_us w).0)
        → seq' ≡ seq
        → here ≡ []
        → Carries z item seq used seq' here
    no_room :
        (payload : List ℕ)
        → IsPayload item payload
        → z.combo_cap < used + (hdr_size + length payload)
        → seq' ≡ u16 (seq + 1)
        → here ≡ []
        → Carries z item seq used seq' here
    carried :
        (h : ChunkHdr) (payload : List ℕ)
        → IsPayload item payload
        → (h.codec ≡ item.codec) × (h.frame_seq ≡ seq) × (h.chunk_idx ≡ 0) × (h.chunk_count ≡ 1)
        → used + (hdr_size + length payload) ≤ z.combo_cap
        → seq' ≡ u16 (seq + 1)
        → here ≡ (h, payload) ∷ []
        → Carries z item seq used seq' here

  -- The chunks of some items, in their order.
  abbrev pub Carried : Sizes → ℕ → ℕ → List Item → List (ChunkHdr × List ℕ) → Type 0
  Carried z seq used [] chunks = chunks ≡ []
  Carried z seq used (item ∷ items) chunks =
      (seq' : ℕ) × (here : List (ChunkHdr × List ℕ)) × (rest : List (ChunkHdr × List ℕ)) × Carries z
        item seq used seq' here
      × (chunks ≡ here ++ rest)
      × Carried z seq' (used + length (wire here)) items rest

-- A payload within the limit is one chunk.
pub one_chunk : (len cp : ℕ) → 0 < len → len ≤ cp → cp < 65536 → count_chunks len cp ≡ 1
unfolding count_chunks
one_chunk len cp pos fits small =
    let e : sub32 (u32 (len + cp)) 1 ≡ len + cp - 1 = omega arith in
    rw e (by ((len + cp - 1) / cp) (div-add-mod' (len + cp - 1) cp))
  where
    by : (q : ℕ) → q * cp + (len + cp - 1) % cp ≡ len + cp - 1 → (if q == 0 then 1 else q) ≡ 1
    by zero d = refl
    by (suc zero) d = refl
    by (suc (suc q)) d = absurd (omega (arith, d))

-- One chunk has all of the payload.
pub one_body : (src : Source) → IsSource src → count_of src ≡ 1 → chunk_body src 0 ≡ src.bytes
one_body src v e =
    sym (append-nil (chunk_body src 0)) ∙ ap (λ n. bodies src n 0) (sym e) ∙ (bodies_lem src v).0

pub one_from :
    (src : Source) (p : Placing) (count n : ℕ)
    → n ≡ 1
    → chunks_from src p count n 0 ≡ (chunk_hdr src p count 0, chunk_body src 0) ∷ []
one_from src p count n e = ap (λ k. chunks_from src p count k 0) e
