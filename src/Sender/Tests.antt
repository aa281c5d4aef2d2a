-- ===== src/Sender/Tests.antt =====
-- The send loop at a socket that takes one byte of each write, with one sidecar's answer queued.
use ar8030_transport.Base.{
  ℕ, zero, suc, replicate, ◌≤◌, ◌<◌, All, ◌≡◌, refl, sym, Bool, true, false, List, [], ◌∷◌, ◌++◌,
  arith, length, take, append-nil,
}
use ar8030_transport.Base.Int.{ℤ, pos, pos_part}
use ar8030_transport.Chunk.{hdr_bytes}
use ar8030_transport.Chunker.{chunk_part, chunk_frame, count_chunks, sendbuf}
use ar8030_transport.Outq.{pop, blank}
use ar8030_transport.Sender.Write.{Link, SendCtx, Sizes}
use ar8030_transport.Sender.Written.{Sends}
use ar8030_transport.Sender.Staged.{IsItem, IsCtx}
use ar8030_transport.Sender.Wire.{SendsQueue, chunk_send_to_socket-SendsQueue}
use ar8030_transport.Outq.Fifo.{IsValid}
use ar8030_transport.Sender.Write.{chunk_send_to_socket}
use ar8030_transport.Sender.Slices.{Entry, loop_init, on_entries, socket_sending}
use ar8030_transport.Sender.Held.{IsEntry, Holds}
use ar8030_transport.Sender.Whole.{Flows, SendsWhole, on_entries-SendsWhole}
use ar8030_transport.Sender.Counts.{AddsUp, on_entries-AddsUp}

abbrev one_byte : List ℕ → List ℕ → ℤ × List ℕ
one_byte w [] = (pos 0, w)
one_byte w (b ∷ buf) = (pos 1, w ++ (b ∷ []))

abbrev link : Link (List ℕ)
link = record { stopped = λ w. false; socket_write = one_byte; now_us = λ w. (5, w) }

fits : (w buf : List ℕ) → pos_part (one_byte w buf).0 ≤ length buf
fits w [] = omega arith
fits w (b ∷ buf) = omega arith

appends : (w buf : List ℕ) → (one_byte w buf).1 ≡ w ++ take (pos_part (one_byte w buf).0) buf
appends w [] = sym (append-nil w)
appends w (b ∷ buf) = refl

link-Sends : Sends link (λ w. w)
link-Sends = record { fits = fits; appends = appends; clock_silent = λ w. refl }

abbrev ctx : SendCtx (List ℕ)
ctx = record {
  last_write_ret = pos 0;
  outq = record {
    items = record blank { codec = 7; bytes = 1 ∷ 2 ∷ [] } ∷ blank ∷ [];
    head = 0;
    count = 1;
    dropped = 0;
  };
  aux_seq = 65535;
  combo = [];
  chunks_sent = 0;
  chunks_failed = 0;
  bytes_sent = 0;
  world = [];
}

ctx-IsCtx : IsCtx ctx
ctx-IsCtx = record {
  items_typed = (record { codec_fits = omega arith }, (record { codec_fits = omega arith }, tt));
  seq_fits = omega arith;
}

abbrev sizes : Sizes
sizes = record { aux_payload_max = 256; combo_cap = 4096 }

-- The same context with a queue that the threads filled.
abbrev queued : SendCtx (List ℕ)
queued = record ctx {
  outq = record {
    items = record blank { codec = 7; bytes = 1 ∷ 2 ∷ [] } ∷ replicate 15 blank;
    head = 0;
    count = 1;
    dropped = 0;
  };
}

blank-IsItem : IsItem blank
blank-IsItem = record { codec_fits = omega arith }

All-blank : (n : ℕ) → All IsItem (replicate n blank)
All-blank zero = tt
All-blank (suc n) = (blank-IsItem, All-blank n)

queued-IsCtx : IsCtx queued
queued-IsCtx = record {
  items_typed = (record { codec_fits = omega arith }, All-blank 15);
  seq_fits = omega arith;
}

queued-IsValid : IsValid queued.outq
queued-IsValid = record { storage = refl; head_in = omega arith; count_in = omega arith }

chunk_send_to_socket-SendsQueue_example :
    SendsQueue link
      (λ w. w)
      link-Sends
      sizes
      queued
      (3 ∷ 4 ∷ [])
      (chunk_send_to_socket link sizes queued (3 ∷ 4 ∷ []))
chunk_send_to_socket-SendsQueue_example =
    chunk_send_to_socket-SendsQueue link (λ w. w) link-Sends sizes queued (3 ∷ 4 ∷ []) (omega arith)
      queued-IsCtx queued-IsValid

-- Two slices of one frame, a slice of another, and a whole frame.
abbrev slice : ℕ → Bool → Entry
slice pts part = record {
  pts = pts;
  is_idr = true;
  is_gdr = false;
  is_enhance = false;
  is_partial = part;
  bytes = 1 ∷ 2 ∷ 3 ∷ [];
}

abbrev entries : List Entry
entries = slice 1 true ∷ slice 1 false ∷ slice 2 true ∷ slice 3 false ∷ []

init-AddsUp : AddsUp (loop_init ctx)
unfolding loop_init
init-AddsUp = record { all_counted = refl; numbered = refl }

on_entries-AddsUp_example :
    AddsUp (on_entries (socket_sending link sizes) 1400 1432 entries (loop_init ctx))
on_entries-AddsUp_example =
    on_entries-AddsUp (socket_sending link sizes) 1400 1432 entries (loop_init ctx) init-AddsUp

link-Flows : Flows link
link-Flows = record { runs = λ w. refl; takes = λ w b buf. (1, omega arith, refl) }

init-Holds : Holds (SendsWhole (λ w. w) []) (loop_init ctx)
unfolding loop_init
init-Holds = record {
  kept = record { ctx = ctx-IsCtx; chunks = []; right = tt; on_wire = refl };
  seq_fits = omega arith;
  flags_fit = omega arith;
}

slice-IsEntry : (pts : ℕ) (part : Bool) → pts < 4 → IsEntry (slice pts part)
slice-IsEntry pts part h = record { pts_fits = omega arith; bytes_fit = omega arith }

entries-IsEntry : All IsEntry entries
entries-IsEntry = (
  slice-IsEntry 1 true (omega arith),
  (
    slice-IsEntry 1 false (omega arith),
    (slice-IsEntry 2 true (omega arith), (slice-IsEntry 3 false (omega arith), tt)),
  ),
)

on_entries-SendsWhole_example :
    Holds
      (SendsWhole (λ w. w) [])
      (on_entries (socket_sending link sizes) 1400 1432 entries (loop_init ctx))
on_entries-SendsWhole_example =
    on_entries-SendsWhole link (λ w. w) link-Sends link-Flows [] sizes (omega arith) 1400 1432
      entries (loop_init ctx) (omega arith) (omega arith) entries-IsEntry init-Holds

-- The loop at these entries: the sliced frame, the one given up and the whole one.
loop_at :
    let st = on_entries (socket_sending link sizes) 1400 1432 entries (loop_init ctx) in
    st.frames_in ∷ st.frames_complete ∷ st.frames_incomplete ∷ [] ≡ 3 ∷ 2 ∷ 1 ∷ []
unfolding on_entries loop_init socket_sending chunk_part chunk_frame count_chunks sendbuf pop
    hdr_bytes
loop_at = refl
