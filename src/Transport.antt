-- ===== src/Transport.antt =====
-- The video path from the sender's frame to the receiver's: common/chunker.c writes chunks,
-- common/chunk_stream.c reads them back, and common/reassembly.c joins them.
pub mod Whole
pub mod Sequence
mod Tests
use ar8030_transport.Base.{ℕ, List, [], ◌∷◌, ◌++◌, false, length}
use ar8030_transport.Chunker.{Source, Placing}
use ar8030_transport.Chunker.Split.{count_of}
use ar8030_transport.Chunker.Sent.{chunks_of}
use ar8030_transport.Reassembly.{Fed}
use ar8030_transport.Reassembly.Deliver.{Frame}

-- How `chunk_frame` places the chunks of a frame that is sent whole.
abbrev pub whole : Source → Placing
whole s = record { first_idx = 0; total_count = count_of s; frame_end = false; part = false }

-- What the receiver is to find.
abbrev pub frame_sent : Source → Frame
frame_sent s = record {
  frame_seq = s.frame_seq;
  bytes = s.bytes;
  frame_pts = s.frame_pts;
  flags = s.flags;
}

-- The chunks of some frames, in sending order.
abbrev pub all_chunks : List Source → List Fed
all_chunks [] = []
all_chunks (s ∷ ss) = chunks_of s (whole s) ++ all_chunks ss
