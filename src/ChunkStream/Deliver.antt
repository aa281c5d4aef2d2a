-- ===== src/ChunkStream/Deliver.antt =====
-- Whatever way the socket cuts the stream, the chunks that were written come out of it, in order,
-- each with its header and payload, and nothing is dropped.
use native.Mathlib.Decide.{dec_le}
use ar8030_transport.Base.{
  ℕ, zero, suc, ◌+◌, ◌-◌, ◌≤◌, ◌<◌, ◌≡◌, refl, ap, ◌∙◌, List, [], ◌∷◌, ◌++◌, append_assoc, Bool,
  true, false, Option, none, some, arith, length, length-append,
}
use ar8030_transport.Chunk.{ChunkHdr}
use ar8030_transport.ChunkStream.{Stream, Reply, chunk, nothing, misconfigured, fill, read}
use ar8030_transport.ChunkStream.Front.{
  IsChunk, chunk_bytes, length-chunk_bytes, look_partial, look_complete, taken, taken_rest,
}

-- A chunk that the reader's two buffers can hold.
pub record IsHeld (limit cap : ℕ) (h : ChunkHdr) (p : List ℕ) : Type 0 where
  pub right : IsChunk h p
  pub payload_fits : length p ≤ limit
  pub chunk_fits : 22 + length p ≤ cap

abbrev pub AllHeld : ℕ → ℕ → List (ChunkHdr × List ℕ) → Type 0
AllHeld limit cap [] = Unit
AllHeld limit cap ((h, p) ∷ chunks) = IsHeld limit cap h p × AllHeld limit cap chunks

-- What the sender writes for some chunks.
abbrev pub wire : List (ChunkHdr × List ℕ) → List ℕ
wire [] = []
wire ((h, p) ∷ chunks) = chunk_bytes h p ++ wire chunks

-- The chunks that `n` calls of the reader return, with the stream and the world after them;
-- `none` if a call returns none, or runs out of its fuel.
module _ {R : Type 0} (read_fn : R → ℕ → List ℕ × R) (stopped : R → Bool) where
  abbrev Chunks : Type 0
  Chunks = Option (List (ChunkHdr × List ℕ) × Stream × R)

  abbrev add_chunk : ChunkHdr → List ℕ → Chunks → Chunks
  add_chunk h p none = none
  add_chunk h p (some (chunks, s, r)) = some ((h, p) ∷ chunks, s, r)

  unfoldable pub received : ℕ → ℕ → ℕ → Stream → R → Chunks
  received zero fuel limit s r = some ([], s, r)
  received (suc n) fuel limit s r = elim (read read_fn stopped fuel limit s r) [
    | none ↦ none
    | some (a, s', r') ↦ elim a [
      | chunk h p ↦ add_chunk h p (received n fuel limit s' r')
      | nothing ↦ none
      | misconfigured ↦ none
    ]
  ]

-- A socket that holds the bytes `content r` still to be read: a read takes some of them off the
-- front, no more than there is room for, and at least one if there are any.
pub record Delivers {R : Type 0} (read_fn : R → ℕ → List ℕ × R) (stopped : R → Bool) : Type 1 where
  pub content : R → List ℕ
  pub front : (r : R) (room : ℕ) → (read_fn r room).0 ++ content (read_fn r room).1 ≡ content r
  pub fits : (r : R) (room : ℕ) → length (read_fn r room).0 ≤ room
  pub some_come :
      (r : R) (room : ℕ) → 0 < room → 0 < length (content r) → 0 < length (read_fn r room).0
  pub running : (r : R) → stopped r ≡ false

module _ {R : Type 0} (read_fn : R → ℕ → List ℕ × R) (stopped : R → Bool)
    (d : Delivers read_fn stopped) where
  open d use {content, front, fits, some_come, running}

  -- The reply is the chunk, the bytes after it are still there, and nothing was dropped.
  pub record IsReply (s : Stream) (h : ChunkHdr) (p : List ℕ) (rest : List ℕ)
      (out : Option (Reply × Stream × R)) : Type 0 where
    pub stream : Stream
    pub world : R
    pub is_chunk : out ≡ some (chunk h p, stream, world)
    pub left : stream.buf ++ content world ≡ rest
    pub cap_same : stream.cap ≡ s.cap
    pub drops_same : stream.resync_dropped_bytes ≡ s.resync_dropped_bytes
    pub fails_same : stream.checksum_fails ≡ s.checksum_fails

  -- What `fill` makes of the stream and the world while bytes come.
  abbrev come : Stream → R → List ℕ
  come s r = (read_fn r (s.cap - length s.buf)).0

  abbrev filled : Stream → R → Stream
  filled s r = record s { buf = s.buf ++ come s r }

  abbrev world_after : Stream → R → R
  world_after s r = (read_fn r (s.cap - length s.buf)).1

  fill_got :
      (s : Stream) (r : R)
      → length s.buf < s.cap
      → 0 < length (content r)
      → let (got, s', r') = fill read_fn stopped s r in
        (got ≡ true) × (s' ≡ filled s r) × (r' ≡ world_after s r)
  unfolding fill
  fill_got s r room to_come =
      ground (arith, some_come r (s.cap - length s.buf) (omega arith) to_come)

  -- A reply to the filled stream is one to the stream before.
  of_filled :
      (s : Stream) (r : R) {h : ChunkHdr} {p rest : List ℕ} {out : Option (Reply × Stream × R)}
      → IsReply (filled s r) h p rest out
      → IsReply s h p rest out
  of_filled s r q = record {
    stream = q.stream;
    world = q.world;
    is_chunk = q.is_chunk;
    left = q.left;
    cap_same = q.cap_same;
    drops_same = q.drops_same;
    fails_same = q.fails_same;
  }

  module _ (h : ChunkHdr) (p rest : List ℕ) (c : IsChunk h p) where
    abbrev Front : Stream → R → Type 0
    Front s r = s.buf ++ content r ≡ chunk_bytes h p ++ rest

    -- While part of the chunk is missing, bytes are still to come, and what is filled in makes
    -- the missing part smaller.
    to_come :
        (s : Stream) (r : R) → Front s r → length s.buf < 22 + length p → 0 < length (content r)
    to_come s r e short = omega (
      arith,
      ap length e,
      length-append s.buf (content r),
      length-append (chunk_bytes h p) rest,
      length-chunk_bytes h p,
    )

    Front-filled : (s : Stream) (r : R) → Front s r → Front (filled s r) (world_after s r)
    Front-filled s r e =
        append_assoc s.buf (come s r) (content (world_after s r))
        ∙ ap (λ t. s.buf ++ t) (front r (s.cap - length s.buf))
        ∙ e

    grows :
        (s : Stream) (r : R)
        → Front s r
        → length s.buf < 22 + length p
        → 22 + length p ≤ s.cap
        → length s.buf < length (filled s r).buf
    grows s r e short room = omega (
      arith,
      length-append s.buf (come s r),
      some_come r (s.cap - length s.buf) (omega arith) (to_come s r e short),
    )

    read_chunk :
        (fuel limit : ℕ) (s : Stream) (r : R)
        → Front s r
        → length p ≤ limit
        → 22 + length p ≤ s.cap
        → 22 + length p - length s.buf < fuel
        → IsReply s h p rest (read read_fn stopped fuel limit s r)
    unfolding read
    read_chunk zero limit s r e fits_p room lt = absurd (omega arith)
    read_chunk (suc fuel) limit s r e fits_p room lt =
        elim (dec_le (22 + length p) (length s.buf)) [
          | yes long ↦
              rw (running r, look_complete s h p (content r) rest c e limit long fits_p, read)
                (record {
                  stream = taken s h p (content r) rest c e;
                  world = r;
                  is_chunk = refl;
                  left = taken_rest s h p (content r) rest c e long;
                  cap_same = refl;
                  drops_same = refl;
                  fails_same = refl;
                })
          | no short ↦
              let (got, now_filled, now_world) =
                fill_got s r (omega arith) (to_come s r e (omega arith)) in
              rw (running r, look_partial s h p (content r) rest c e limit (omega arith), read)
                (rw (got, now_filled, now_world)
                  (of_filled s r (
                    read_chunk fuel limit (filled s r) (world_after s r) (Front-filled s r e) fits_p
                      room (omega (arith, grows s r e (omega arith) room)))))
        ]

  -- Every chunk that was written is returned, in order, and what follows stays to be read.
  pub record IsReceived (chunks : List (ChunkHdr × List ℕ)) (rest : List ℕ) (s : Stream)
      (out : Option (List (ChunkHdr × List ℕ) × Stream × R)) : Type 0 where
    pub stream : Stream
    pub world : R
    pub all_chunks : out ≡ some (chunks, stream, world)
    pub left : stream.buf ++ content world ≡ rest
    pub drops_same : stream.resync_dropped_bytes ≡ s.resync_dropped_bytes
    pub fails_same : stream.checksum_fails ≡ s.checksum_fails

  received_nil :
      (fuel limit : ℕ) (s : Stream) (r : R)
      → received read_fn stopped 0 fuel limit s r ≡ some ([], s, r)
  unfolding received
  received_nil fuel limit s r = refl

  received-cons :
      (n fuel limit : ℕ) (s s' : Stream) (r r' : R) (h : ChunkHdr) (p : List ℕ)
      → read read_fn stopped fuel limit s r ≡ some (chunk h p, s', r')
      → received read_fn stopped (suc n) fuel limit s r
        ≡ add_chunk read_fn stopped h p (received read_fn stopped n fuel limit s' r')
  unfolding received
  received-cons n fuel limit s s' r r' h p e = rw (e, received)

  -- Over a socket that hands out the written bytes in whatever pieces it likes, reading as many
  -- times as there are chunks, if the buffers hold them, returns exactly those, in order, each call within
  -- `limit + 23` rounds; no byte is dropped, no checksum fails, and the bytes after the last
  -- chunk are still to be read.
  pub received-wire :
      (chunks : List (ChunkHdr × List ℕ)) (rest : List ℕ) (fuel limit : ℕ) (s : Stream) (r : R)
      → AllHeld limit s.cap chunks
      → 22 + limit < fuel
      → s.buf ++ content r ≡ wire chunks ++ rest
      → IsReceived chunks rest s (received read_fn stopped (length chunks) fuel limit s r)
  received-wire [] rest fuel limit s r held lt e = record {
    stream = s;
    world = r;
    all_chunks = received_nil fuel limit s r;
    left = e;
    drops_same = refl;
    fails_same = refl;
  }
  received-wire ((h, p) ∷ chunks) rest fuel limit s r (one, held) lt e =
      let q =
        read_chunk h p (wire chunks ++ rest) one.right fuel limit s r
          (e ∙ append_assoc (chunk_bytes h p) (wire chunks) rest) one.payload_fits one.chunk_fits
          (omega (arith, one.payload_fits)) in
      let t =
        received-wire chunks rest fuel limit q.stream q.world (rw q.cap_same held) lt q.left in
      record {
        stream = t.stream;
        world = t.world;
        all_chunks =
            received-cons (length chunks) fuel limit s q.stream r q.world h p q.is_chunk
            ∙ ap (add_chunk read_fn stopped h p) t.all_chunks;
        left = t.left;
        drops_same = t.drops_same ∙ q.drops_same;
        fails_same = t.fails_same ∙ q.fails_same;
      }
