-- ===== src/Samples.antt =====
-- Concrete frames, buffers and a socket, for the tests of several components.
use ar8030_transport.Base.{
  ℕ, ◌≤◌, min, ◌≡◌, refl, List, [], ◌∷◌, ◌++◌, Bool, false, arith, take, drop, replicate,
  take-append-drop, length-take,
}
use ar8030_transport.ChunkStream.{Stream, init}
use ar8030_transport.ChunkStream.Deliver.{Delivers}
use ar8030_transport.Chunker.{Source, count_chunks}
use ar8030_transport.Chunker.Split.{count_of}
use ar8030_transport.Reassembly
use ar8030_transport.Reassembly.{Reassembly}
use ar8030_transport.Reassembly.Invariant.{IsValid, init-IsValid}
use ar8030_transport.Transport.Whole.{IsFrame}

-- Five bytes in chunks of two: three chunks, the last one short.
abbrev pub frame_1 : Source
frame_1 = record {
  frame_seq = 7;
  flags = 1;
  codec = 0;
  frame_pts = 90000;
  bytes = 10 ∷ 11 ∷ 12 ∷ 13 ∷ 14 ∷ [];
  chunk_payload = 2;
}

abbrev pub frame_2 : Source
frame_2 = record {
  frame_seq = 8;
  flags = 0;
  codec = 0;
  frame_pts = 91500;
  bytes = 20 ∷ 21 ∷ 22 ∷ [];
  chunk_payload = 2;
}

pub count_1 : count_of frame_1 ≡ 3
unfolding count_chunks
count_1 = refl

pub count_2 : count_of frame_2 ≡ 2
unfolding count_chunks
count_2 = refl

pub frame_1-IsFrame : IsFrame frame_1
frame_1-IsFrame = omega (arith, count_1)

pub frame_2-IsFrame : IsFrame frame_2
frame_2-IsFrame = omega (arith, count_2)

-- A reassembler with room for eight bytes.
abbrev pub store : List ℕ
store = replicate 8 0

unfoldable pub fresh : Reassembly
fresh = Reassembly.init store 8

pub fresh-IsValid : IsValid fresh
unfolding fresh
fresh-IsValid = init-IsValid store 8 refl (omega arith)

pub fresh_idle : fresh.active ≡ false
unfolding fresh Reassembly.init
fresh_idle = refl

pub fresh_cap : fresh.cap ≡ 8
unfolding fresh Reassembly.init
fresh_cap = refl

-- A socket that hands out at most seven bytes at a time.
unfoldable pub read_seven : List ℕ → ℕ → List ℕ × List ℕ
read_seven r room = (take (min 7 room) r, drop (min 7 room) r)

abbrev pub never_stopped : List ℕ → Bool
never_stopped r = false

unfoldable pub seven : Delivers read_seven never_stopped
unfolding read_seven
seven = record {
  content = λ r. r;
  front = λ r room. take-append-drop (min 7 room) r;
  fits = λ r room. omega (arith, length-take (min 7 room) r);
  some_come = λ r room h k. omega (arith, length-take (min 7 room) r);
  running = λ r. refl;
}

-- A reader with room for one chunk of two bytes.
abbrev pub empty_stream : Stream
empty_stream = init 24

pub empty_stream_cap : 24 ≤ empty_stream.cap
unfolding init
empty_stream_cap = omega arith

pub empty_stream_buf : empty_stream.buf ≡ []
unfolding init
empty_stream_buf = refl

pub bytes_wait : (xs : List ℕ) → empty_stream.buf ++ seven.content xs ≡ xs
unfolding init seven
bytes_wait xs = refl
