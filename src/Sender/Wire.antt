-- ===== src/Sender/Wire.antt =====
-- What the write path leaves on the wire: the staged chunks, whole, and then the chunk.
use mathlib.Core.Path.{subst}
use ar8030_transport.Base.{
  ℕ, ◌+◌, ◌≤◌, ◌≡◌, refl, sym, ap, ◌∙◌, Bool, true, false, List, [], ◌∷◌, ◌++◌, arith, leb, ◌==◌,
  if◌then◌else◌, length, length-append, take, take-append_le, take-length_append,
  drop-length_append, All, Bool-cases, inl, inr,
}
use ar8030_transport.Chunk.{ChunkHdr}
use ar8030_transport.ChunkStream.Front.{IsChunk}
use ar8030_transport.ChunkStream.Deliver.{wire}
use ar8030_transport.Sender.Written.{Sends, Written, whole, cut, Written-after, write_all-Written}
use ar8030_transport.Sender.Staged.{IsItem, IsCtx, Staged}
use ar8030_transport.Sender.Stages.{stage_from-Staged, stage_from-Queued}
use ar8030_transport.Sender.Carried.{Carried}
use ar8030_transport.Outq.Fifo.{IsValid, contents}
use ar8030_transport.Sender.Write.{
  Link, SendCtx, Sizes, write_all, stage_outq, write_staged, chunk_send_to_socket,
}

module _ {W : Type 0} (l : Link W) (sent : W → List ℕ) (s : Sends l sent) where
  -- The second of two buffers after the first, if that went out.
  both :
      (z : Sizes) (buf : List ℕ) (c : SendCtx W)
      → let x = write_all l c.combo c in
        let y = (if x.0 then write_all l buf x.1 else (false, x.1)) in
        Written sent c.world (c.combo ++ buf) y.0 y.1.world
  both z buf c = first (write_all-Written l sent s c.combo c)
    where
      x : Bool × SendCtx W
      x = write_all l c.combo c

      first :
          Written sent c.world c.combo x.0 x.1.world
          → Written sent c.world
              (c.combo ++ buf)
              (if x.0 then write_all l buf x.1 else (false, x.1)).0
              (if x.0 then write_all l buf x.1 else (false, x.1)).1.world
      first (whole ok f) = rw ok (
          Written-after l sent s (length c.combo) (c.combo ++ buf) c.world x.1.world
            (omega (arith, length-append c.combo buf))
            (f ∙ ap (λ t. sent c.world ++ t) (sym (take-length_append c.combo buf)))
            (subst
              (λ t. Written sent x.1.world t (write_all l buf x.1).0 (write_all l buf x.1).1.world)
              (sym (drop-length_append c.combo buf)) (write_all-Written l sent s buf x.1)))
      first (cut k ok lt f) = rw ok (
          cut k refl (omega (arith, length-append c.combo buf))
            (f ∙ ap (λ t. sent c.world ++ t) (sym (take-append_le k c.combo buf (omega arith)))))

  nothing_staged : (combo : List ℕ) → (length combo == 0) ≡ true → combo ≡ []
  nothing_staged [] h = refl
  nothing_staged (x ∷ combo) h = absurd (ground arith)

  write_staged-Written :
      (z : Sizes) (buf : List ℕ) (c : SendCtx W)
      → Written sent c.world
          (c.combo ++ buf)
          (write_staged l z buf c).0
          (write_staged l z buf c).1.world
  unfolding write_staged
  write_staged-Written z buf c = elim (Bool-cases (length c.combo == 0)) [
    | inl empty ↦ rw empty (
        subst
          (λ t. Written sent c.world (t ++ buf) (write_all l buf c).0 (write_all l buf c).1.world)
          (sym (nothing_staged c.combo empty)) (write_all-Written l sent s buf c))
    | inr full ↦ elim (Bool-cases (leb (length c.combo + length buf) z.combo_cap)) [
      | inl fits ↦ rw (full, fits) (write_all-Written l sent s (c.combo ++ buf) c)
      | inr long ↦ rw (full, long) (both z buf c)
    ]
  ]

  write_all-IsCtx : (buf : List ℕ) (c : SendCtx W) → IsCtx c → IsCtx (write_all l buf c).1
  unfolding write_all
  write_all-IsCtx buf c v = record { items_typed = v.items_typed; seq_fits = v.seq_fits }

  write_staged-IsCtx :
      (z : Sizes) (buf : List ℕ) (c : SendCtx W) → IsCtx c → IsCtx (write_staged l z buf c).1
  unfolding write_staged
  write_staged-IsCtx z buf c v = elim (Bool-cases (length c.combo == 0)) [
    | inl empty ↦ rw empty (write_all-IsCtx buf c v)
    | inr full ↦ elim (Bool-cases (leb (length c.combo + length buf) z.combo_cap)) [
      | inl fits ↦ rw (full, fits) (write_all-IsCtx (c.combo ++ buf) c v)
      | inr long ↦ elim (Bool-cases (write_all l c.combo c).0) [
        | inl ok ↦ rw (full, long, ok) (write_all-IsCtx buf _ (write_all-IsCtx c.combo c v))
        | inr bad ↦ rw (full, long, bad) (write_all-IsCtx c.combo c v)
      ]
    ]
  ]

  Written-from :
      (w w1 : W) (a b : List ℕ) {ok : Bool} {w2 : W}
      → sent w1 ≡ sent w
      → a ≡ b
      → Written sent w1 a ok w2
      → Written sent w b ok w2
  Written-from w w1 a b {ok} {w2} e f x = subst (λ t. Written sent w t ok w2) f (moved x)
    where
      moved : Written sent w1 a ok w2 → Written sent w a ok w2
      moved (whole o g) = whole o (g ∙ ap (λ t. t ++ a) e)
      moved (cut k o lt g) = cut k o lt (g ∙ ap (λ t. t ++ take k a) e)

  -- What one call of the send function does: whole chunks, and then the given one, go out in this
  -- order, or a part of that and the call fails.
  pub record IsSent (c : SendCtx W) (buf : List ℕ) (x : Bool × SendCtx W) : Type 0 where
    pub ctx : IsCtx x.1
    pub chunks : List (ChunkHdr × List ℕ)
    pub right : All (λ y. IsChunk y.0 y.1) chunks
    pub written : Written sent c.world (wire chunks ++ buf) x.0 x.1.world

  -- The end of a call, after the staging.
  sent_after :
      (z : Sizes) (c staged : SendCtx W) (buf : List ℕ)
      → (st : Staged sent (record c { combo = [] }) staged)
      → Written sent c.world
          (wire st.chunks ++ buf)
          (write_staged l z buf staged).0
          (write_staged l z buf staged).1.world
  sent_after z c staged buf st =
      Written-from c.world staged.world (staged.combo ++ buf) (wire st.chunks ++ buf) st.silent
        (ap (λ t. t ++ buf) st.appended) (write_staged-Written z buf staged)

  -- The result, the queue and the wire are those of `write_staged`.
  pub record SameEnd (x y : Bool × SendCtx W) : Type 0 where
    pub same_ok : x.0 ≡ y.0
    pub same_world : x.1.world ≡ y.1.world
    pub same_queue : x.1.outq ≡ y.1.outq
    pub same_seq : x.1.aux_seq ≡ y.1.aux_seq

  chunk_send_to_socket-SameEnd :
      (z : Sizes) (c : SendCtx W) (buf : List ℕ)
      → SameEnd
          (chunk_send_to_socket l z c buf)
          (write_staged l z buf (stage_outq l z (record c { combo = [] })))
  unfolding chunk_send_to_socket
  chunk_send_to_socket-SameEnd z c buf =
      elim (Bool-cases (write_staged l z buf (stage_outq l z (record c { combo = [] }))).0) [
        | inl ok ↦
            rw ok
              (record { same_ok = sym ok; same_world = refl; same_queue = refl; same_seq = refl })
        | inr bad ↦
            rw bad
              (record { same_ok = sym bad; same_world = refl; same_queue = refl; same_seq = refl })
      ]

  -- A call's result, of what was staged.
  IsSent-of :
      (z : Sizes) (c : SendCtx W) (buf : List ℕ)
      → (st : Staged sent (record c { combo = [] }) (stage_outq l z (record c { combo = [] })))
      → (r : IsSent c buf (chunk_send_to_socket l z c buf)) × (r.chunks ≡ st.chunks)
  IsSent-of z c buf st =
      let staged = stage_outq l z (record c { combo = [] }) in
      let e = chunk_send_to_socket-SameEnd z c buf in
      let ctx = write_staged-IsCtx z buf staged st.ctx in
      (
        record {
          ctx = record {
            items_typed = subst (λ q. All IsItem q.items) (sym e.same_queue) ctx.items_typed;
            seq_fits = omega (arith, e.same_seq, ctx.seq_fits);
          };
          chunks = st.chunks;
          right = st.right;
          written =
              subst
                (λ b.
                  Written sent c.world (wire st.chunks ++ buf) b
                    (chunk_send_to_socket l z c buf).1.world)
                (sym e.same_ok)
                (subst
                  (Written sent c.world (wire st.chunks ++ buf) (write_staged l z buf staged).0)
                  (sym e.same_world) (sent_after z c staged buf st));
        },
        refl,
      )

  -- For any queued items of their types, without the queue being well formed: whole chunks and the
  -- given one go out, or a part of that and the call fails.
  pub chunk_send_to_socket-IsSent :
      (z : Sizes) (c : SendCtx W) (buf : List ℕ)
      → z.aux_payload_max ≤ 512
      → IsCtx c
      → IsSent c buf (chunk_send_to_socket l z c buf)
  unfolding stage_outq
  chunk_send_to_socket-IsSent z c buf small v =
      let c0 = record c { combo = [] } in
      let v0 : IsCtx c0 = record { items_typed = v.items_typed; seq_fits = v.seq_fits } in
      (IsSent-of z c buf (stage_from-Staged l sent s c.outq.count z c0 small v0)).0

  write_staged_queue :
      (z : Sizes) (buf : List ℕ) (c : SendCtx W) → (write_staged l z buf c).1.outq ≡ c.outq
  unfolding write_staged write_all
  write_staged_queue z buf c = ground arith

  -- What a call sends: the chunks of all that was queued, before the given one.
  pub record SendsQueue (z : Sizes) (c : SendCtx W) (buf : List ℕ) (x : Bool × SendCtx W)
      : Type 0 where
    pub is_sent : IsSent c buf x
    pub carried_all : Carried l z c.aux_seq 0 (contents c.outq) is_sent.chunks
    pub emptied : contents x.1.outq ≡ []

  -- If the socket appends what it takes to the stream and reading the clock sends nothing, the queue is
  -- well formed, its items and the next number have their types, and at most 512 bytes are allowed for
  -- an item: a call of the send function takes every item out
  -- of the queue and makes one chunk of each, in order, with its payload, except of an empty one, one
  -- that is too long, or one that the buffer has no more room for. A call that succeeds appends these
  -- chunks and after them the given one, whole, however the socket cuts the writes; one that fails
  -- appends a proper part of the same bytes.
  pub chunk_send_to_socket-SendsQueue :
      (z : Sizes) (c : SendCtx W) (buf : List ℕ)
      → z.aux_payload_max ≤ 512
      → IsCtx c
      → IsValid c.outq
      → SendsQueue z c buf (chunk_send_to_socket l z c buf)
  unfolding stage_outq
  chunk_send_to_socket-SendsQueue z c buf small v q =
      let c0 = record c { combo = [] } in
      let v0 : IsCtx c0 = record { items_typed = v.items_typed; seq_fits = v.seq_fits } in
      let r = stage_from-Queued l sent s c.outq.count z c0 small v0 q refl in
      let (sent_chunks, same) = IsSent-of z c buf r.staged in
      record {
        is_sent = sent_chunks;
        carried_all = subst (Carried l z c.aux_seq 0 (contents c.outq)) (sym same) r.carried_all;
        emptied =
            ap contents (
              (chunk_send_to_socket-SameEnd z c buf).same_queue
              ∙ write_staged_queue z buf (stage_outq l z c0))
            ∙ r.emptied;
      }
