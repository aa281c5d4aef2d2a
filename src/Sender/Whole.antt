-- ===== src/Sender/Whole.antt =====
-- The send loop over a socket that takes something of each write: whole chunks go out.
use ar8030_transport.Base.{
  ℕ, zero, suc, ◌+◌, ◌≤◌, ◌<◌, ◌≡◌, refl, sym, ap, ◌∙◌, Bool, true, false, not, ◌&&◌, List, [], ◌∷◌,
  ◌++◌, append-nil, append_assoc, All, All-append, arith, leb, ◌==◌, length, length-drop, drop,
  Bool-cases, inl, inr,
}
use ar8030_transport.Base.Int.{ℤ, pos}
use ar8030_transport.Chunk.{ChunkHdr}
use ar8030_transport.ChunkStream.Front.{IsChunk, chunk_bytes}
use ar8030_transport.ChunkStream.Deliver.{wire}
use ar8030_transport.Sender.Write.{
  Link, SendCtx, Sizes, write_from, write_all, stage_outq, write_staged, chunk_send_to_socket,
}
use ar8030_transport.Sender.Written.{Sends, Written, whole, cut}
use ar8030_transport.Sender.Staged.{IsCtx, wire-append}
use ar8030_transport.Sender.Wire.{chunk_send_to_socket-IsSent}
use ar8030_transport.Sender.Slices.{Entry, LoopState, on_entries, socket_sending}
use ar8030_transport.Sender.Held.{IsEntry, Holds, on_entries-Holds}

-- The program is not told to stop, and each write of at least a byte takes one or more.
pub record Flows {W : Type 0} (l : Link W) : Type 0 where
  pub runs : (w : W) → l.stopped w ≡ false
  pub takes :
      (w : W) (b : ℕ) (buf : List ℕ) → (n : ℕ) × (0 < n) × ((l.socket_write w (b ∷ buf)).0 ≡ pos n)

module _ {W : Type 0} (l : Link W) (flows : Flows l) where
  write_from_ok :
      (fuel : ℕ) (buf : List ℕ) (last : ℤ) (w : W)
      → length buf ≤ fuel
      → (write_from l fuel buf last w).0 ≡ true
  unfolding write_from
  write_from_ok fuel [] last w h = refl
  write_from_ok zero (b ∷ buf) last w h = absurd (omega arith)
  write_from_ok (suc fuel) (b ∷ buf) last w h =
      let (n, took, e) = flows.takes w b buf in
      let something : (n == 0) ≡ false = ground arith in
      rw (flows.runs w, e, something, write_from)
        (write_from_ok fuel (drop n (b ∷ buf)) last (l.socket_write w (b ∷ buf)).1
          (ground (arith, length-drop n (b ∷ buf))))

  write_all_ok : (buf : List ℕ) (c : SendCtx W) → (write_all l buf c).0 ≡ true
  unfolding write_all
  write_all_ok buf c = write_from_ok (length buf) buf c.last_write_ret c.world (omega arith)

  write_staged_ok : (z : Sizes) (buf : List ℕ) (c : SendCtx W) → (write_staged l z buf c).0 ≡ true
  unfolding write_staged
  write_staged_ok z buf c =
      elim (Bool-cases
        (not (length c.combo == 0) && leb (length c.combo + length buf) z.combo_cap)) [
          | inl joined ↦ rw joined (write_all_ok (c.combo ++ buf) c)
          | inr apart ↦ elim (Bool-cases (length c.combo == 0)) [
            | inl empty ↦ rw (apart, empty) (write_all_ok buf c)
            | inr staged ↦
                rw (apart, staged, write_all_ok c.combo c)
                  (write_all_ok buf (write_all l c.combo c).1)
          ]
        ]

  chunk_send_to_socket_ok :
      (z : Sizes) (buf : List ℕ) (c : SendCtx W) → (chunk_send_to_socket l z c buf).0 ≡ true
  unfolding chunk_send_to_socket
  chunk_send_to_socket_ok z buf c =
      rw (write_staged_ok z buf (stage_outq l z (record c { combo = [] }))) refl

-- The bytes sent after `base` are whole well-formed chunks.
pub record SendsWhole {W : Type 0} (sent : W → List ℕ) (base : List ℕ) (c : SendCtx W)
    : Type 0 where
  pub ctx : IsCtx c
  pub chunks : List (ChunkHdr × List ℕ)
  pub right : All (λ x. IsChunk x.0 x.1) chunks
  pub on_wire : sent c.world ≡ base ++ wire chunks

module _ {W : Type 0} (l : Link W) (sent : W → List ℕ) (s : Sends l sent) (flows : Flows l)
    (base : List ℕ) (z : Sizes) (small : z.aux_payload_max ≤ 512) where
  after_write :
      (c : SendCtx W) (buf : List ℕ) {ok : Bool} {w : W}
      → ok ≡ true
      → Written sent c.world buf ok w
      → sent w ≡ sent c.world ++ buf
  after_write c buf e (whole o f) = f
  after_write c buf e (cut k o lt f) = absurd (ground (arith, e, o))

  chunk_send_to_socket-SendsWhole :
      (c : SendCtx W) (h : ChunkHdr) (p : List ℕ)
      → IsChunk h p
      → SendsWhole sent base c
      → SendsWhole sent base (chunk_send_to_socket l z c (chunk_bytes h p)).1
  chunk_send_to_socket-SendsWhole c h p right v =
      let buf = chunk_bytes h p in
      let r = chunk_send_to_socket-IsSent l sent s z c buf small v.ctx in
      let now : List (ChunkHdr × List ℕ) = r.chunks ++ (h, p) ∷ [] in
      let went =
        after_write c (wire r.chunks ++ buf) (chunk_send_to_socket_ok l flows z buf c) r.written in
      record {
        ctx = r.ctx;
        chunks = v.chunks ++ now;
        right =
            All-append (λ x. IsChunk x.0 x.1) v.chunks now v.right
              (All-append (λ x. IsChunk x.0 x.1) r.chunks ((h, p) ∷ []) r.right (right, tt));
        on_wire =
            went
            ∙ ap (λ t. t ++ (wire r.chunks ++ buf)) v.on_wire
            ∙ append_assoc base (wire v.chunks) (wire r.chunks ++ buf)
            ∙ ap (λ t. base ++ t)
                (ap (λ t. wire v.chunks ++ (wire r.chunks ++ t)) (sym (append-nil buf))
                  ∙ ap (λ t. wire v.chunks ++ t) (sym (wire-append r.chunks ((h, p) ∷ [])))
                  ∙ sym (wire-append v.chunks now));
      }

  -- Over a socket that takes a byte or more of each write and puts what it takes on the wire, while the
  -- program is not told to stop, with 1 to 65535 bytes a chunk and at most 512 for a queued one: if
  -- only whole chunks went out before, then any entries of the ring, whole frames and slices, whose
  -- fields have their types, put whole chunks that the receiver accepts on the wire, one after the
  -- other, and no other byte.
  pub on_entries-SendsWhole :
      (chunk_payload scratch : ℕ) (es : List Entry) (st : LoopState (SendCtx W))
      → 0 < chunk_payload
      → chunk_payload < 65536
      → All IsEntry es
      → Holds (SendsWhole sent base) st
      → Holds (SendsWhole sent base) (on_entries (socket_sending l z) chunk_payload scratch es st)
  unfolding socket_sending
  on_entries-SendsWhole chunk_payload scratch es st pos_payload payload_fits v h =
      on_entries-Holds (socket_sending l z) (SendsWhole sent base) chunk_payload scratch
        chunk_send_to_socket-SendsWhole
        (λ c w. record {
          ctx = record { items_typed = w.ctx.items_typed; seq_fits = w.ctx.seq_fits };
          chunks = w.chunks;
          right = w.right;
          on_wire = w.on_wire;
        })
        pos_payload payload_fits es st v h
