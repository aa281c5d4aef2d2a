-- ===== src/Transport/Tests.antt =====
-- The path from frame to frame, at the frames of Samples.
use ar8030_transport.Base.{
  ℕ, ◌+◌, ◌≤◌, ◌≡◌, List, [], ◌∷◌, ◌++◌, map, arith, length, inl, Bool, true, false, some, ◌<◌, ◌⊎◌,
}
use ar8030_transport.Chunk.{ChunkHdr}
use ar8030_transport.ChunkStream.{scan_for_magic, magic_bytes}
use ar8030_transport.ChunkStream.Scan.{ClearTo, NoneLost, magic_at, scan_for_magic_lem}
use ar8030_transport.ChunkStream.Deliver.{wire, received, IsReceived, received-wire}
use ar8030_transport.Chunker.{chunk_hdr, chunk_run}
use ar8030_transport.Chunker.Split.{count_of}
use ar8030_transport.Chunker.Sent.{chunks_of, send_all, chunk_run-send_all}
use ar8030_transport.Reassembly.{feed}
use ar8030_transport.Reassembly.Deliver.{deliver}
use ar8030_transport.Reassembly.Invariant.{IsValid, feed-IsValid}
use ar8030_transport.Transport.{whole, frame_sent, all_chunks}
use ar8030_transport.Transport.Whole.{Arrived, frame_round_trip}
use ar8030_transport.Transport.Sequence.{frames_of, end_to_end, chunks_from-AllHeld}
use ar8030_transport.Samples.{
  frame_1, frame_2, count_1, frame_1-IsFrame, frame_2-IsFrame, fresh, fresh-IsValid, read_seven,
  never_stopped, seven, empty_stream, fresh_idle, fresh_cap, empty_stream_cap, bytes_wait,
}

frame_round_trip_example : Arrived fresh frame_1 (deliver fresh (chunks_of frame_1 (whole frame_1)))
frame_round_trip_example =
    frame_round_trip frame_1 fresh frame_1-IsFrame fresh-IsValid (inl fresh_idle)
      (omega (arith, fresh_cap))

end_to_end_example :
    frames_of
      (received read_seven never_stopped
        (length (all_chunks (frame_1 ∷ frame_2 ∷ [])))
        (2 + 23)
        2
        empty_stream
        (wire (all_chunks (frame_1 ∷ frame_2 ∷ [])) ++ 65 ∷ []))
      fresh
    ≡ map frame_sent (frame_1 ∷ frame_2 ∷ [])
end_to_end_example =
    end_to_end read_seven never_stopped seven (frame_1 ∷ frame_2 ∷ []) (65 ∷ []) 2 8 empty_stream
      (wire (all_chunks (frame_1 ∷ frame_2 ∷ [])) ++ 65 ∷ []) fresh
      (frame_1-IsFrame, omega arith, omega arith, (frame_2-IsFrame, omega arith))
      (omega arith, (omega arith, tt)) empty_stream_cap
      (bytes_wait (wire (all_chunks (frame_1 ∷ frame_2 ∷ [])) ++ 65 ∷ [])) fresh_cap fresh-IsValid
      fresh_idle

received-wire_example :
    IsReceived read_seven never_stopped seven
      (chunks_of frame_1 (whole frame_1))
      (65 ∷ [])
      empty_stream
      (received read_seven never_stopped
        (length (chunks_of frame_1 (whole frame_1)))
        25
        2
        empty_stream
        (wire (chunks_of frame_1 (whole frame_1)) ++ 65 ∷ []))
received-wire_example =
    received-wire read_seven never_stopped seven (chunks_of frame_1 (whole frame_1)) (65 ∷ []) 25 2
      empty_stream (wire (chunks_of frame_1 (whole frame_1)) ++ 65 ∷ [])
      (chunks_from-AllHeld frame_1 (count_of frame_1) 0 2 empty_stream.cap frame_1-IsFrame
        (omega arith) (omega arith) empty_stream_cap)
      (omega arith) (bytes_wait (wire (chunks_of frame_1 (whole frame_1)) ++ 65 ∷ []))

-- The second chunk is refused.
abbrev one_only : List (List ℕ) → List ℕ → Bool × List (List ℕ)
one_only [] c = (true, c ∷ [])
one_only (x ∷ xs) c = (false, x ∷ xs)

chunk_run-send_all_example : chunk_run one_only frame_1 (whole frame_1) 24 [] ≡ record {
  ret = some (send_all one_only (chunks_of frame_1 (whole frame_1)) 0 []).0;
  out_count = some (count_of frame_1);
  ctx = (send_all one_only (chunks_of frame_1 (whole frame_1)) 0 []).1;
}
chunk_run-send_all_example =
    chunk_run-send_all one_only frame_1 (whole frame_1) 24 [] frame_1-IsFrame.typed.source
      (omega arith) (omega (arith, count_1))

-- A broken magic, then a whole one.
abbrev noise : List ℕ
noise = 0x41 ∷ 0x52 ∷ 5 ∷ magic_bytes ++ 9 ∷ []

scan_for_magic_lem_example :
    (scan_for_magic noise ≤ length noise)
    × ClearTo noise 0 (scan_for_magic noise)
    × ((magic_at noise (scan_for_magic noise) ≡ true) ⊎ (length noise < scan_for_magic noise + 4))
    × NoneLost noise (scan_for_magic noise)
scan_for_magic_lem_example = scan_for_magic_lem noise

abbrev first_chunk : ChunkHdr
first_chunk = chunk_hdr frame_1 (whole frame_1) 3 0

feed-IsValid_example : IsValid (feed fresh first_chunk (10 ∷ 11 ∷ [])).1
feed-IsValid_example = feed-IsValid fresh first_chunk (10 ∷ 11 ∷ []) (omega arith) fresh-IsValid
