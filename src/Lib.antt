-- ===== src/Lib.antt =====
-- ar8030-transport: the video bridge between the waybeam encoder on the air unit and the PixelPilot
-- decoder on the ground, over the AR8030's data channel.
--
-- The sender (tx/main.c) takes encoded frames and cuts them into chunks with a header and a
-- checksum; the receiver (rx/main.c) cuts the byte stream back into chunks, joins them to frames,
-- and sends these on as RTP. Around this path the two ends keep their clocks in step, relay
-- keyframe requests, and adapt the encoder's bitrate to the link. On both ends lifecycled follows
-- the chip's link: it confirms connects and drops, applies the tuning, keeps the channel, and sets
-- the output power by the arm state and the heat.
--
-- Files and the code that they model:
--   Crc16          common/crc16.c, ar8030_crc16
--   Chunk          common/ar8030_chunk.h: the constants and struct ar8030_chunk_hdr, with its bytes
--                  in memory on a little-endian machine
--   Chunker        common/chunker.c: chunk_run, ar8030_chunk_frame, ar8030_chunk_part
--   ChunkStream    common/chunk_stream.c: scan_for_magic, fill, ar8030_chunk_stream_read
--   Reassembly     common/reassembly.c: init, reset, note_dropped, ar8030_reassembly_feed
--   Transport      the path from the chunker through the stream to the reassembler
--   ClockSync      rx/clock_sync.c: due, on_reply, get
--   Outq           tx/outq.c: push, pop
--   IdrCtrl        tx/idr_ctrl.c: handle_idr, and the thread's work on one chunk
--   TimingSei      common/timing_sei.c: build, insert, parse
--   RtpH265        rx/rtp_h265.c: next_nal, has_vcl, send_packet, send_nals, send_frame
--   BitrateCtl     tx/bitrate_ctl.c: run_rules, one round a tick, with learn_floor and apply_cut; its
--                  child Pi has run_pi, a round in the order of the code: Stages up to the control
--                  law, Control, and Loop with what is sent; Roi has pi_focus
--   Sender         tx/main.c: Write has write_all, stage_outq, flush_outq and chunk_send_to_socket,
--                  Slices the send loop of main on the entries of waybeam's ring
--   RetxEvent      common/ar8030_retx_event.h, and on_retx_too_many_event of tx/bitrate_ctl.c
--   Sidecar        rx/sidecar_srv.c: subscribe, the thread's work on a datagram, publish
--   Lifecycle      lifecycled/lifecycle.c: lifecycle_init and the loop of lifecycle_thread_main,
--                  with a module for each part of struct lifecycle_ctx: Debounce (the state
--                  machine), Channel, Tuning, Power, Adc (also common/ar8030_rftemp.h and
--                  ar8030_batt.h), Mailbox (lifecycle_request_*, and the admission tests of
--                  lifecycle_tuning.c); Ctx, Init, Drains, Switch and Loop put them together, and
--                  Radio has the SDK calls behind the actions (lifecycle_tuning.c)
--   Peers          lifecycled/lifecycle_pair.c: the known air units; mac_parse and mac_hex (Hex),
--                  lc_peers_load, peers_save, lc_peers_push, lc_peers_note_ap_mac, lc_peers_forget
--   BindButton     lifecycled/lifecycle_bind.c: a round of the bind button's thread
--   Base, Samples  shared helpers, and concrete frames for the tests
--
-- State is a record that each operation takes and returns; int results are options or sums. A
-- uint8_t, uint16_t, uint32_t or uint64_t is a natural number with the wrap-around written out. A
-- mutex that a function holds throughout makes its call one step. Code outside the repository's
-- own sources is a parameter: sockets, waybeam's HTTP answers, the chip's, and the arithmetic in double
-- precision, with what the proofs need of them as named hypotheses (Delivers, Sends, Flows, Refuses,
-- IsTruncated). In IdrCtrl sscanf is a parameter too; in Peers its `%2x` is written out. Of the life
-- cycle daemon, a tick takes what the chip, the clocks and the files answer as a record (Tick), with
-- the link events that come in on another thread at three places between the reads, and gives the
-- new state and the list of what was done; requests come in between two ticks.
--
-- Bounds and fuel: the chunker's loop runs over its count of chunks; scan_from has one round more
-- than there are bytes, and every round moves on; the read loop takes its number of rounds, and
-- received-wire shows that the payload limit and 23 are enough on an intact stream; the scans for
-- start codes have one round for each byte; apply_cut has the five attempts of the source; a NAL
-- unit has at most as many fragments as bytes. write_from has a round for each byte, and each write
-- that does not fail takes one at least; stage_from runs over the queue's count; load_from has a
-- round for each byte of the file, and each line takes one at least.
--
-- Not modelled: in the doubles NaN, and how an operation rounds; of tx/main.c
-- the delay estimate, reconnecting and the option parsing; while chunks are staged, other threads'
-- pushes; in lifecycled the connection at startup, lifecycle_get_status, the files of
-- lifecycle_tuning.c, pairing and the JSON of lifecycle_pair.c, hooks, GPIO and the HTTP control
-- API; tx/sidecar_sub.c, rx/idr_relay.c, common/ar8030_link.c, common/http_get.c,
-- common/ar8030_link_policy.h, the other main programs, linkctl, still and tools, which are I/O
-- around these parts or calls of the vendor's SDK; kmod, which is driver code; and
-- third_party/waybeam_frame_ring, another project's library.
pub mod Base
pub mod Crc16
pub mod Chunk
pub mod Chunker
pub mod Reassembly
pub mod ChunkStream
pub mod Transport
pub mod ClockSync
pub mod Outq
pub mod IdrCtrl
pub mod Lifecycle
pub mod TimingSei
pub mod RtpH265
pub mod BitrateCtl
pub mod Samples
pub mod Peers
pub mod Sender
pub mod Sidecar
pub mod RetxEvent
pub mod BindButton
