-- ===== src/Sender/Slices.antt =====
-- tx/main.c, main: an entry of waybeam's ring, whole or one slice of a frame, as chunks. The send
-- function and its context are a parameter; of the context the loop clears and reads
-- `last_write_ret`. Clock readings, the write times and the delay for the PI controller are left out.
use Prim.Native.Nat.{bit_or}
use ar8030_transport.Base.{
  ℕ, ◌+◌, Bool, true, false, not, ◌&&◌, ◌||◌, Option, none, some, List, [], ◌∷◌, ltb, leb, ◌==◌,
  if◌then◌else◌, u16, u32, u64,
}
use ar8030_transport.Base.Int.{ℤ, pos, negsuc}
use ar8030_transport.Chunk.{flag_idr, flag_gdr, flag_enhance, codec_h265}
use ar8030_transport.Chunker.{Source, chunk_frame, chunk_part}
use ar8030_transport.Sender.Write.{Link, SendCtx, Sizes, chunk_send_to_socket}

abbrev is_negative : ℤ → Bool
is_negative (pos n) = false
is_negative (negsuc n) = true

-- An entry of the ring, after its VencFrameMeta was read.
pub record Entry : Type 0 where
  pub pts : ℕ
  pub is_idr : Bool
  pub is_gdr : Bool
  pub is_enhance : Bool
  pub is_partial : Bool
  pub bytes : List ℕ

-- `frame_flags_from_meta`
unfoldable pub frame_flags : Entry → ℕ
frame_flags e =
    bit_or (bit_or (if e.is_idr then flag_idr else 0) (if e.is_gdr then flag_gdr else 0))
      (if e.is_enhance then flag_enhance else 0)

-- `sf`, the frame that is sent slice by slice.
pub record Sliced : Type 0 where
  pub is_open : Bool
  pub failed : Bool
  pub pts : ℕ
  pub flags : ℕ
  pub next_idx : ℕ
  pub sent : ℕ
  pub entries : ℕ

-- What the loop needs of the send function's context.
pub record Sending (S : Type 0) : Type 0 where
  pub send : S → List ℕ → Bool × S
  pub clear_ret : S → S  -- send_ctx.last_write_ret = 0
  pub ret_failed : S → Bool  -- send_ctx.last_write_ret < 0

pub record LoopState (S : Type 0) : Type 0 where
  pub ctx : S
  pub frame_seq : ℕ
  pub sf : Sliced
  pub frames_in : ℕ
  pub frames_complete : ℕ
  pub frames_incomplete : ℕ
  pub entries_per_frame : ℕ
  pub dead_writes : ℕ  -- consecutive_dead_writes
  pub stalls : ℕ  -- consecutive_stalls
  pub pauses : ℕ  -- how often the loop slept BACKOFF_MS

abbrev pub no_slices : Sliced
no_slices = record {
  is_open = false;
  failed = false;
  pts = 0;
  flags = 0;
  next_idx = 0;
  sent = 0;
  entries = 0;
}

unfoldable pub loop_init : {S : Type 0} → S → LoopState S
loop_init ctx = record {
  ctx = ctx;
  frame_seq = 0;
  sf = no_slices;
  frames_in = 0;
  frames_complete = 0;
  frames_incomplete = 0;
  entries_per_frame = 1;
  dead_writes = 0;
  stalls = 0;
  pauses = 0;
}

abbrev pub stalls_max : ℕ
stalls_max = 5

abbrev is_zero : Option ℕ → Bool
is_zero none = false
is_zero (some n) = n == 0

-- `sent >= 0 && (uint32_t)sent == expected_chunks`
abbrev pub all_sent : Option ℕ → ℕ → Bool
all_sent none expected = false
all_sent (some n) expected = n == expected

abbrev pub count_or_0 : Option ℕ → ℕ
count_or_0 none = 0
count_or_0 (some n) = n

module _ {S : Type 0} where
  -- Another frame's entry came while one was open.
  unfoldable pub lose_open : Entry → LoopState S → LoopState S
  lose_open e st =
      if st.sf.is_open && not (e.pts == st.sf.pts)
      then record st {
        frames_incomplete = u64 (st.frames_incomplete + 1);
        frame_seq = u16 (st.frame_seq + 1);
        sf = record st.sf { is_open = false };
      }
      else st

  -- The counts at the end of a frame, with the chunks sent, `none` for -1.
  unfoldable pub count_frame : Option ℕ → ℕ → LoopState S → LoopState S
  count_frame sent expected st =
      if all_sent sent expected
      then record st {
        frames_complete = u64 (st.frames_complete + 1);
        frame_seq = u16 (st.frame_seq + 1);
      }
      else record st {
        frames_incomplete = u64 (st.frames_incomplete + 1);
        frame_seq = u16 (st.frame_seq + 1);
      }

  module _ (l : Sending S) where
    -- The first entry of a sliced frame.
    unfoldable pub open_slices : Entry → LoopState S → LoopState S
    unfolding frame_flags
    open_slices e st = if st.sf.is_open then st else record st {
      sf = record no_slices { is_open = true; pts = e.pts; flags = frame_flags e };
      frames_in = u64 (st.frames_in + 1);
      ctx = l.clear_ret st.ctx;
    }

    abbrev pub slice_source : ℕ → Entry → LoopState S → Source
    slice_source chunk_payload e st = record {
      frame_seq = st.frame_seq;
      flags = st.sf.flags;
      codec = codec_h265;
      frame_pts = e.pts;
      bytes = e.bytes;
      chunk_payload = chunk_payload;
    }

    -- One slice's chunks; after a failed one nothing more of the frame is sent.
    unfoldable pub send_slice : ℕ → ℕ → Entry → LoopState S → LoopState S
    send_slice chunk_payload scratch e st =
        let o =
          chunk_part l.send (slice_source chunk_payload e st) st.sf.next_idx (not e.is_partial)
            scratch st.ctx in
        if st.sf.failed
        then record st { sf = record st.sf { entries = st.sf.entries + 1 } }
        else record st {
          ctx = o.ctx;
          sf = record st.sf {
            failed = not (all_sent o.ret (count_or_0 o.out_count));
            sent = u32 (st.sf.sent + count_or_0 o.ret);
            next_idx = u32 (st.sf.next_idx + count_or_0 o.out_count);
            entries = st.sf.entries + 1;
          };
        }

    -- What follows the sending of a frame.
    unfoldable pub after_frame : Option ℕ → LoopState S → LoopState S
    after_frame sent st =
        let dead =
          (if is_zero sent && l.ret_failed st.ctx
            then st.dead_writes + 1
            else if ltb 0 (count_or_0 sent)
            then 0
            else st.dead_writes) in
        let stalled = is_zero sent in
        let pause = leb stalls_max (st.stalls + 1) in
        record st {
          dead_writes = dead;
          stalls = if stalled && not pause then st.stalls + 1 else 0;
          pauses = if stalled && pause then st.pauses + 1 else st.pauses;
        }

    abbrev pub whole_source : ℕ → Entry → LoopState S → Source
    unfolding frame_flags
    whole_source chunk_payload e st = record {
      frame_seq = st.frame_seq;
      flags = frame_flags e;
      codec = codec_h265;
      frame_pts = e.pts;
      bytes = e.bytes;
      chunk_payload = chunk_payload;
    }

    -- A frame in one entry.
    unfoldable pub send_whole : ℕ → ℕ → Entry → LoopState S → LoopState S
    unfolding frame_flags count_frame after_frame
    send_whole chunk_payload scratch e st =
        let o = chunk_frame l.send (whole_source chunk_payload e st) scratch (l.clear_ret st.ctx) in
        after_frame o.ret (
          count_frame o.ret (count_or_0 o.out_count)
            (record st { ctx = o.ctx; frames_in = u64 (st.frames_in + 1); entries_per_frame = 1 }))

    -- A slice; the last one ends its frame.
    unfoldable pub on_slice : ℕ → ℕ → Entry → LoopState S → LoopState S
    unfolding open_slices send_slice count_frame after_frame
    on_slice chunk_payload scratch e st =
        let st1 = send_slice chunk_payload scratch e (open_slices e st) in
        let st2 = record st1 {
          sf = record st1.sf { is_open = false };
          entries_per_frame = st1.sf.entries;
        } in
        if e.is_partial
        then st1
        else after_frame (some st1.sf.sent) (count_frame (some st1.sf.sent) st1.sf.next_idx st2)

    unfoldable pub on_entry : ℕ → ℕ → Entry → LoopState S → LoopState S
    unfolding lose_open on_slice send_whole
    on_entry chunk_payload scratch e st =
        let st1 = lose_open e st in
        if e.is_partial || st1.sf.is_open
        then on_slice chunk_payload scratch e st1
        else send_whole chunk_payload scratch e st1

    unfoldable pub on_entries : ℕ → ℕ → List Entry → LoopState S → LoopState S
    unfolding on_entry
    on_entries chunk_payload scratch [] st = st
    on_entries chunk_payload scratch (e ∷ es) st =
        on_entries chunk_payload scratch es (on_entry chunk_payload scratch e st)

-- `chunk_frame` and `chunk_part` are called with `chunk_send_to_socket` and its context.
unfoldable pub socket_sending : {W : Type 0} → Link W → Sizes → Sending (SendCtx W)
unfolding chunk_send_to_socket
socket_sending l z = record {
  send = λ c buf. chunk_send_to_socket l z c buf;
  clear_ret = λ c. record c { last_write_ret = pos 0 };
  ret_failed = λ c. is_negative c.last_write_ret;
}
