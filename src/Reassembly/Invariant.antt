-- ===== src/Reassembly/Invariant.antt =====
-- The buffer is never overrun, on any sequence of chunks.
use ar8030_transport.Base.{
  ℕ, ◌+◌, ◌≤◌, ◌<◌, ◌≡◌, List, ◌++◌, arith, length, take, drop, length-append, length-take,
  length-drop,
}
use ar8030_transport.Chunk.{ChunkHdr}
use ar8030_transport.Reassembly.{
  Reassembly, init, note_dropped, copy_at, start_frame, drop_frame, extend, give_up, feed,
}

pub record IsValid (r : Reassembly) : Type 0 where
  pub storage : length r.buf ≡ r.cap
  pub small : r.cap < 2147483648
  pub inside : r.write_off ≤ r.cap
  pub count_fits : r.next_chunk_idx < 65536

pub length-copy_at :
    (buf : List ℕ) (off : ℕ) (xs : List ℕ)
    → off + length xs ≤ length buf
    → length (copy_at buf off xs) ≡ length buf
unfolding copy_at
length-copy_at buf off xs h = omega (
  arith,
  length-append (take off buf) (xs ++ drop (off + length xs) buf),
  length-append xs (drop (off + length xs) buf),
  length-take off buf,
  length-drop (off + length xs) buf,
)

pub init-IsValid :
    (buf : List ℕ) (cap : ℕ) → length buf ≡ cap → cap < 2147483648 → IsValid (init buf cap)
unfolding init
init-IsValid buf cap h k = omega arith

note_dropped-IsValid : (r : Reassembly) (seq : ℕ) → IsValid r → IsValid (note_dropped r seq)
unfolding note_dropped
note_dropped-IsValid r seq v = ground arith

drop_frame-IsValid : (r : Reassembly) (hdr : ChunkHdr) → IsValid r → IsValid (drop_frame r hdr).1
unfolding drop_frame
drop_frame-IsValid r hdr v = ground arith

pub give_up-IsValid : (r : Reassembly) → IsValid r → IsValid (give_up r)
unfolding give_up
give_up-IsValid r v = ground arith

extend-IsValid :
    (r : Reassembly) (hdr : ChunkHdr) (payload : List ℕ)
    → length payload < 65536
    → IsValid r
    → IsValid (extend r hdr payload).1
unfolding extend
extend-IsValid r hdr payload h v = ground (arith, length-copy_at r.buf r.write_off payload)

pub start_frame-IsValid :
    (r : Reassembly) (hdr : ChunkHdr) → IsValid r → IsValid (start_frame r hdr)
unfolding start_frame
start_frame-IsValid r hdr v = omega arith

-- No chunk with a payload shorter than 65536 bytes, whatever its header says, makes a well-formed
-- reassembler write outside its buffer: it stays well formed.
pub feed-IsValid :
    (r : Reassembly) (hdr : ChunkHdr) (payload : List ℕ)
    → length payload < 65536
    → IsValid r
    → IsValid (feed r hdr payload).1
unfolding feed
feed-IsValid r hdr payload h v = ground (
  arith,
  extend-IsValid r hdr payload h v,
  give_up-IsValid r v,
  drop_frame-IsValid (give_up r) hdr,
  extend-IsValid (start_frame (give_up r) hdr) hdr payload h,
  start_frame-IsValid (give_up r) hdr,
)
