-- ===== src/Transport/Sequence.antt =====
-- A sequence of frames over the socket: chunked, written, read back and reassembled.
use ar8030_transport.Base.{
  ℕ, zero, suc, ◌+◌, ◌≤◌, ◌≡◌, ◌≢◌, ◌⊎◌, inl, inr, refl, ◌∙◌, List, [], ◌∷◌, ◌++◌, map, Bool, false,
  Option, none, some, arith, length,
}
use ar8030_transport.Chunk.{ChunkHdr}
use ar8030_transport.ChunkStream.{Stream}
use ar8030_transport.ChunkStream.Deliver.{Delivers, received, wire, AllHeld, received-wire}
use ar8030_transport.Chunker.{Source}
use ar8030_transport.Chunker.Split.{count_of, bodies_lem}
use ar8030_transport.Chunker.Sent.{chunk_hdr-IsChunk, chunks_from, chunks_of}
use ar8030_transport.Reassembly.{Reassembly, Fed, feed}
use ar8030_transport.Reassembly.Invariant.{IsValid}
use ar8030_transport.Reassembly.Deliver.{Frame, deliver}
use ar8030_transport.Transport.{whole, frame_sent, all_chunks}
use ar8030_transport.Transport.Whole.{IsFrame, frame_round_trip}

deliver-append :
    (r : Reassembly) (xs ys : List Fed)
    → let (frames, r') = deliver r xs in
      let (more, r'') = deliver r' ys in deliver r (xs ++ ys) ≡ (frames ++ more, r'')
unfolding deliver
deliver-append r [] ys = refl
deliver-append r ((h, p) ∷ xs) ys = ground (arith, deliver-append (feed r h p).1 xs ys)

-- Frames that the sender and the receiver accept, no two in a row of one number.
abbrev pub Sequence : ℕ → List Source → Type 0
Sequence cap [] = Unit
Sequence cap (s ∷ []) = IsFrame s × (length s.bytes ≤ cap)
Sequence cap (s ∷ t ∷ ss) =
    IsFrame s × (length s.bytes ≤ cap) × (t.frame_seq ≢ s.frame_seq) × Sequence cap (t ∷ ss)

abbrev StartsFresh : Reassembly → List Source → Type 0
StartsFresh r [] = Unit
StartsFresh r (s ∷ ss) = (r.active ≡ false) ⊎ (s.frame_seq ≢ r.frame_seq)

frames_from :
    (r : Reassembly) (ss : List Source) (cap : ℕ)
    → r.cap ≡ cap
    → IsValid r
    → StartsFresh r ss
    → Sequence cap ss
    → (deliver r (all_chunks ss)).0 ≡ map frame_sent ss
frames_from r [] cap e v fresh h = unfold deliver in refl
frames_from r (s ∷ []) cap e v fresh (f, room) =
    let a = frame_round_trip s r f v fresh (omega arith) in
    let d = deliver-append r (chunks_of s (whole s)) [] in rw (d, a.frames) (unfold deliver in refl)
frames_from r (s ∷ t ∷ ss) cap e v fresh (f, room, ne, h) =
    let a = frame_round_trip s r f v fresh (omega arith) in
    let d = deliver-append r (chunks_of s (whole s)) (all_chunks (t ∷ ss)) in
    let q =
      frames_from (deliver r (chunks_of s (whole s))).1 (t ∷ ss) cap (a.cap_same ∙ e) a.valid
        (inr (λ p. ne (p ∙ a.seq_now))) h in
    rw (d, a.frames, q) refl

-- The reader's payload buffer holds any chunk of the frame, and so does its stream buffer.
pub chunks_from-AllHeld :
    (s : Source) (n i limit cap : ℕ)
    → IsFrame s
    → i + n ≡ count_of s
    → s.chunk_payload ≤ limit
    → 22 + limit ≤ cap
    → AllHeld limit cap (chunks_from s (whole s) (count_of s) n i)
chunks_from-AllHeld s zero i limit cap f e a b = tt
chunks_from-AllHeld s (suc n) i limit cap f e a b =
    let small = (bodies_lem s f.typed.source).1 i (omega arith) in
    (
      record {
        right = chunk_hdr-IsChunk s (whole s) (count_of s) i f.typed (omega arith);
        payload_fits = omega arith;
        chunk_fits = omega arith;
      },
      chunks_from-AllHeld s n (i + 1) limit cap f (omega arith) a b,
    )

AllHeld-append :
    (limit cap : ℕ) (xs ys : List Fed)
    → AllHeld limit cap xs
    → AllHeld limit cap ys
    → AllHeld limit cap (xs ++ ys)
AllHeld-append limit cap [] ys h k = k
AllHeld-append limit cap ((h, p) ∷ xs) ys (one, more) k =
    (one, AllHeld-append limit cap xs ys more k)

abbrev pub AllPayloads : ℕ → List Source → Type 0
AllPayloads limit [] = Unit
AllPayloads limit (s ∷ ss) = (s.chunk_payload ≤ limit) × AllPayloads limit ss

all_chunks-AllHeld :
    (ss : List Source) (limit cap room : ℕ)
    → Sequence room ss
    → AllPayloads limit ss
    → 22 + limit ≤ cap
    → AllHeld limit cap (all_chunks ss)
all_chunks-AllHeld [] limit cap room h a b = tt
all_chunks-AllHeld (s ∷ []) limit cap room (f, fits) (a, more) b =
    AllHeld-append limit cap (chunks_of s (whole s)) []
      (chunks_from-AllHeld s (count_of s) 0 limit cap f (omega arith) a b) tt
all_chunks-AllHeld (s ∷ t ∷ ss) limit cap room (f, fits, ne, h) (a, more) b =
    AllHeld-append limit cap (chunks_of s (whole s)) (all_chunks (t ∷ ss))
      (chunks_from-AllHeld s (count_of s) 0 limit cap f (omega arith) a b)
      (all_chunks-AllHeld (t ∷ ss) limit cap room h more b)

-- The frames that the chunks read give when they are fed in order; none if the reading stopped.
unfoldable pub frames_of :
    {R : Type 0} → Option (List (ChunkHdr × List ℕ) × Stream × R) → Reassembly → List Frame
frames_of none q = []
frames_of (some (chunks, s, r)) q = (deliver q chunks).0

-- Any sequence of frames that the sender accepts, no two in a row of one number, written to a
-- socket that hands the bytes over in whatever pieces it likes, comes out of the receiver as the
-- same sequence: every frame once, in order, with its bytes, number, time stamp and flags. The
-- reader's buffers hold every chunk, and the reassembler, which is well formed and idle, has room
-- for every frame.
pub end_to_end :
    {R : Type 0} (read_fn : R → ℕ → List ℕ × R) (stopped : R → Bool) (d : Delivers read_fn stopped)
    (ss : List Source) (rest : List ℕ) (limit room : ℕ) (s : Stream) (r : R) (q : Reassembly)
    → Sequence room ss
    → AllPayloads limit ss
    → 22 + limit ≤ s.cap
    → s.buf ++ d.content r ≡ wire (all_chunks ss) ++ rest
    → q.cap ≡ room
    → IsValid q
    → q.active ≡ false
    → frames_of (received read_fn stopped (length (all_chunks ss)) (limit + 23) limit s r) q
      ≡ map frame_sent ss
unfolding frames_of
end_to_end read_fn stopped d ss rest limit room s r q h a fits e same v idle =
    let t =
      received-wire read_fn stopped d (all_chunks ss) rest (limit + 23) limit s r
        (all_chunks-AllHeld ss limit s.cap room h a fits) (omega arith) e in
    rw (t.all_chunks, frames_of) (frames_from q ss room same v (idle_fresh ss) h)
  where
    idle_fresh : (ss : List Source) → StartsFresh q ss
    idle_fresh [] = tt
    idle_fresh (x ∷ xs) = inl idle
