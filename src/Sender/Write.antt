-- ===== src/Sender/Write.antt =====
-- tx/main.c: the write path of the send loop. The socket, the stop flag and the clock are parameters
-- over a world `W`. While queued chunks are staged no other thread adds one.
use ar8030_transport.Base.{
  ℕ, zero, suc, ◌+◌, ◌/◌, ◌%◌, Bool, true, false, not, ◌&&◌, ◌||◌, Option, none, some, List, [],
  ◌∷◌, ◌++◌, ltb, leb, ◌==◌, if◌then◌else◌, length, drop, u16, u64,
}
use ar8030_transport.Base.Int.{ℤ, pos, negsuc}
use ar8030_transport.Chunk.{hdr_size, ctrl_max_payload, sidecar_max_payload}
use ar8030_transport.Chunker.{Source, chunk_frame}
use ar8030_transport.Outq.{Outq, Item, pop}

-- What the write path reads of the outside.
pub record Link (W : Type 0) : Type 0 where
  pub stopped : W → Bool  -- *sc->stop_flag
  pub socket_write : W → List ℕ → ℤ × W  -- bb_socket_write
  pub now_us : W → ℕ × W  -- now_monotonic_us

-- `struct tx_send_ctx`, with the counts of `struct tx_stats` that it keeps.
pub record SendCtx (W : Type 0) : Type 0 where
  pub last_write_ret : ℤ
  pub outq : Outq
  pub aux_seq : ℕ
  pub combo : List ℕ
  pub chunks_sent : ℕ
  pub chunks_failed : ℕ
  pub bytes_sent : ℕ
  pub world : W

-- The sizes that are set once.
pub record Sizes : Type 0 where
  pub aux_payload_max : ℕ
  pub combo_cap : ℕ

abbrev pub aux_scratch : ℕ
aux_scratch = hdr_size + sidecar_max_payload

-- `%x` of a number below 2 ^ 64, with `fuel` digits at most.
unfoldable pub hex_from : ℕ → ℕ → List ℕ → List ℕ
hex_from zero n after = after
hex_from (suc fuel) n after =
    let digit = n % 16 in
    let text = (if ltb digit 10 then digit + 48 else digit + 87) ∷ after in
    let rest = hex_from fuel (n / 16) text in if n / 16 == 0 then text else rest

unfoldable pub hex : ℕ → List ℕ
unfolding hex_from
hex n = hex_from 16 n []

-- "SYNCR %x %x %x %x"
unfoldable pub syncr_text : ℕ → ℕ → ℕ → ℕ → List ℕ
unfolding hex
syncr_text seq t1 t2 t3 =
    (b'S' ∷ b'Y' ∷ b'N' ∷ b'C' ∷ b'R' ∷ b' ' ∷ [])
    ++ (hex seq ++ (b' ' ∷ (hex t1 ++ (b' ' ∷ (hex t2 ++ (b' ' ∷ hex t3))))))

-- `append_to_combo`
unfoldable pub append_to_combo : {W : Type 0} → Sizes → SendCtx W → List ℕ → Bool × SendCtx W
append_to_combo z c buf =
    if ltb z.combo_cap (length c.combo + length buf)
    then (false, c)
    else (true, record c { combo = c.combo ++ buf })

module _ {W : Type 0} (l : Link W) where
  -- The loop of `write_all`, with what is left of the buffer; each write takes a byte at least. The
  -- result is true for 0, with the last failing write's.
  unfoldable pub write_from : ℕ → List ℕ → ℤ → W → Bool × (ℤ × W)
  write_from fuel [] last w = (true, (last, w))
  write_from zero (b ∷ buf) last w = (false, (last, w))
  write_from (suc fuel) (b ∷ buf) last w =
      let (wr, w') = l.socket_write w (b ∷ buf) in
      if l.stopped w then (false, (last, w)) else elim wr [
        | negsuc n ↦ (false, (negsuc n, w'))
        | pos n ↦
            if n == 0 then (false, (pos 0, w')) else write_from fuel (drop n (b ∷ buf)) last w'
      ]

  unfoldable pub write_all : List ℕ → SendCtx W → Bool × SendCtx W
  unfolding write_from
  write_all buf c =
      let (ok, left) = write_from (length buf) buf c.last_write_ret c.world in
      (ok, record c { last_write_ret = left.0; world = left.1 })

  -- An item's payload; a SYNCR is stamped now, and none if it is too long.
  unfoldable pub payload_of : Item → W → Option (List ℕ) × W
  unfolding syncr_text
  payload_of item w =
      let (now, w') = l.now_us w in
      let text = syncr_text item.sync_seq item.t1_us item.t2_us now in
      if not item.is_syncr
      then (some item.bytes, w)
      else if leb ctrl_max_payload (length text)
      then (none, w')
      else (some text, w')

  abbrev pub aux_source : Sizes → SendCtx W → Item → List ℕ → Source
  aux_source z c item payload = record {
    frame_seq = c.aux_seq;
    flags = 0;
    codec = item.codec;
    frame_pts = 0;
    bytes = payload;
    chunk_payload = z.aux_payload_max;
  }

  -- A payload as one chunk, if it fits one.
  unfoldable pub stage_payload : Sizes → Item → SendCtx W → Option (List ℕ) → SendCtx W
  unfolding append_to_combo
  stage_payload z item c none = c
  stage_payload z item c (some payload) =
      let sent =
        chunk_frame (append_to_combo z) (aux_source z c item payload) aux_scratch
          (record c { aux_seq = u16 (c.aux_seq + 1) }) in
      if length payload == 0 || ltb z.aux_payload_max (length payload) then c else sent.ctx

  unfoldable pub stage_item : Sizes → Item → SendCtx W → SendCtx W
  unfolding payload_of stage_payload
  stage_item z item c =
      let (payload, w) = payload_of item c.world in
      stage_payload z item (record c { world = w }) payload

  unfoldable pub stage_popped : Sizes → SendCtx W → Option Item → SendCtx W
  unfolding stage_item
  stage_popped z c none = c
  stage_popped z c (some item) = stage_item z item c

  -- The loop of `stage_outq`, of `n` items.
  unfoldable pub stage_from : ℕ → Sizes → SendCtx W → SendCtx W
  unfolding stage_popped
  stage_from zero z c = c
  stage_from (suc n) z c =
      let (item, q) = pop c.outq in stage_from n z (stage_popped z (record c { outq = q }) item)

  unfoldable pub stage_outq : Sizes → SendCtx W → SendCtx W
  unfolding stage_from
  stage_outq z c = stage_from c.outq.count z c

  unfoldable pub flush_outq : Sizes → SendCtx W → SendCtx W
  unfolding stage_outq write_all
  flush_outq z c =
      let staged = stage_outq z (record c { combo = [] }) in
      let written =
        (if length staged.combo == 0 then staged else (write_all staged.combo staged).1) in
      record written { combo = [] }

  -- The staged chunks and the given one, in one write where they fit the buffer.
  unfoldable pub write_staged : Sizes → List ℕ → SendCtx W → Bool × SendCtx W
  unfolding write_all
  write_staged z buf c =
      let (first_ok, c') = write_all c.combo c in
      if not (length c.combo == 0) && leb (length c.combo + length buf) z.combo_cap
      then write_all (c.combo ++ buf) c
      else if length c.combo == 0
      then write_all buf c
      else if first_ok
      then write_all buf c'
      else (false, c')

  unfoldable pub chunk_send_to_socket : Sizes → SendCtx W → List ℕ → Bool × SendCtx W
  unfolding stage_outq write_staged
  chunk_send_to_socket z c buf =
      let (ok, c') = write_staged z buf (stage_outq z (record c { combo = [] })) in
      let done = record c' { combo = [] } in
      if ok
      then (
        true,
        record done {
          chunks_sent = u64 (c'.chunks_sent + 1);
          bytes_sent = u64 (c'.bytes_sent + length buf);
        },
      )
      else (false, record done { chunks_failed = u64 (c'.chunks_failed + 1) })
