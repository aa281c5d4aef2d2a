-- ===== src/Sender/Staged.antt =====
-- What staging does to the buffer: whole chunks are appended, and nothing is sent.
use ar8030_transport.Base.{
  ℕ, ◌+◌, ◌≤◌, ◌<◌, ◌≡◌, refl, sym, ap, ◌∙◌, Bool, false, ◌||◌, List, [], ◌∷◌, ◌++◌, append-nil,
  append_assoc, arith, ltb, ◌==◌, All, All-append,
}
use ar8030_transport.Chunk.{ChunkHdr, hdr_size}
use ar8030_transport.ChunkStream.Front.{IsChunk, chunk_bytes}
use ar8030_transport.ChunkStream.Deliver.{wire}
use ar8030_transport.Chunker.{Source, Placing, chunk_run, chunk_frame}
use ar8030_transport.Chunker.Split.{count_of}
use ar8030_transport.Chunker.Sent.{IsTyped, chunks_of, send_all, chunk_run-send_all}
use ar8030_transport.Outq.{Item}
use ar8030_transport.Sender.Write.{SendCtx}

-- The staged chunks of a context whose items are typed.
pub record IsItem (item : Item) : Type 0 where
  pub codec_fits : item.codec < 256

pub record IsCtx {W : Type 0} (c : SendCtx W) : Type 0 where
  pub items_typed : All IsItem c.outq.items
  pub seq_fits : c.aux_seq < 65536

-- Whole chunks were appended to the buffer, and nothing was sent.
pub record Staged {W : Type 0} (sent : W → List ℕ) (c c' : SendCtx W) : Type 0 where
  pub ctx : IsCtx c'
  pub chunks : List (ChunkHdr × List ℕ)
  pub right : All (λ x. IsChunk x.0 x.1) chunks
  pub appended : c'.combo ≡ c.combo ++ wire chunks
  pub silent : sent c'.world ≡ sent c.world

pub wire-append : (xs ys : List (ChunkHdr × List ℕ)) → wire (xs ++ ys) ≡ wire xs ++ wire ys
wire-append [] ys = refl
wire-append ((h, p) ∷ xs) ys =
    ap (λ x. chunk_bytes h p ++ x) (wire-append xs ys)
    ∙ sym (append_assoc (chunk_bytes h p) (wire xs) (wire ys))

module _ {W : Type 0} (sent : W → List ℕ) where
  -- Two stages in a row add the chunks of both.
  pub Staged-joined :
      {a b c : SendCtx W} (p : Staged sent a b) (q : Staged sent b c)
      → (t : Staged sent a c) × (t.chunks ≡ p.chunks ++ q.chunks)
  Staged-joined {a} {b} {c} p q = (
    record {
      ctx = q.ctx;
      chunks = p.chunks ++ q.chunks;
      right = All-append (λ x. IsChunk x.0 x.1) p.chunks q.chunks p.right q.right;
      appended =
          q.appended
          ∙ ap (λ x. x ++ wire q.chunks) p.appended
          ∙ append_assoc a.combo (wire p.chunks) (wire q.chunks)
          ∙ ap (λ x. a.combo ++ x) (sym (wire-append p.chunks q.chunks));
      silent = q.silent ∙ p.silent;
    },
    refl,
  )

  pub Staged-trans : {a b c : SendCtx W} → Staged sent a b → Staged sent b c → Staged sent a c
  Staged-trans p q = (Staged-joined p q).0

  pub Staged-self : (c : SendCtx W) → IsCtx c → Staged sent c c
  Staged-self c v = record {
    ctx = v;
    chunks = [];
    right = tt;
    appended = sym (append-nil c.combo);
    silent = refl;
  }

  -- The buffer and the world are those of another context.
  pub Staged-from :
      (c c1 : SendCtx W) {d : SendCtx W}
      → Staged sent c1 d
      → c1.combo ≡ c.combo
      → sent c1.world ≡ sent c.world
      → Staged sent c d
  Staged-from c c1 st e f = record {
    ctx = st.ctx;
    chunks = st.chunks;
    right = st.right;
    appended = st.appended ∙ ap (λ x. x ++ wire st.chunks) e;
    silent = st.silent ∙ f;
  }

abbrev pub start_of : Source → Placing
start_of src = record { first_idx = 0; total_count = count_of src; frame_end = false; part = false }

opened :
    {S : Type 0} (send : S → List ℕ → Bool × S) (src : Source) (cap : ℕ) (c : S)
    → IsTyped src
    → count_of src ≤ 65535
    → chunk_frame send src cap c ≡ chunk_run send src (start_of src) cap c
unfolding chunk_frame
opened send src cap c t few =
    let sizes : (src.chunk_payload == 0 || ltb 65535 src.chunk_payload) ≡ false =
      ground (arith, t.source.payload_pos, t.source.payload_fits) in
    let short : ltb 65535 (count_of src) ≡ false = ground arith in rw (sizes, short) refl

-- Within its limits a whole frame is a run of its chunks.
pub chunk_frame_run :
    {S : Type 0} (send : S → List ℕ → Bool × S) (src : Source) (cap : ℕ) (c : S)
    → IsTyped src
    → count_of src ≤ 65535
    → hdr_size + src.chunk_payload ≤ cap
    → (chunk_frame send src cap c).ctx ≡ (send_all send (chunks_of src (start_of src)) 0 c).1
unfolding chunk_frame
chunk_frame_run send src cap c t few room =
    ap (λ x. x.ctx)
      (opened send src cap c t few
        ∙ chunk_run-send_all send src (start_of src) cap c t.source room (omega arith))
