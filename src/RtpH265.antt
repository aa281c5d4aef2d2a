-- ===== src/RtpH265.antt =====
-- rx/rtp_h265.c: packetizes an access unit, or some of its NAL units, as RTP (RFC 7798) and sends
-- every packet as one datagram. The socket is a parameter; sizes stay so far below 2^32 that no
-- offset wraps.
pub mod Pieces
pub mod Sent
pub mod Depacketize
mod Tests
use Prim.Native.Nat.{bit_and, bit_or}
use ar8030_transport.Base.{
  ℕ, zero, suc, ◌+◌, ◌-◌, ◌*◌, ◌/◌, ◌%◌, List, [], ◌∷◌, ◌++◌, Bool, true, false, not, ◌&&◌, ◌||◌,
  Option, none, some, ltb, leb, ◌==◌, if◌then◌else◌, length, take, drop, get_or, u8, u16, u32,
}

-- `rtp_h265_ctx_t`, without the socket.
pub record Ctx : Type 0 where
  pub seq : ℕ  -- uint16_t
  pub ssrc : ℕ  -- uint32_t
  pub max_payload : ℕ  -- uint16_t

-- `rtp_h265_init`, with what the random generator gives it.
unfoldable pub init : ℕ → ℕ → ℕ → Ctx
init seq ssrc max_payload = record {
  seq = u16 seq;
  ssrc = u32 ssrc;
  max_payload = if ltb 8192 max_payload then 8192 else max_payload;
}

abbrev pub rtp_hdr_len : ℕ
rtp_hdr_len = 12

abbrev pub send_buf_max : ℕ
send_buf_max = 8207

abbrev pub nal_fu : ℕ
nal_fu = 49

-- `put_rtp_header`
unfoldable pub rtp_header : ℕ → ℕ → ℕ → Bool → List ℕ
rtp_header seq ts ssrc marker =
    0x80
    ∷ u8 (bit_or (if marker then 0x80 else 0) 96)
    ∷ (seq / 256) % 256
    ∷ seq % 256
    ∷ (ts / 16777216) % 256
    ∷ (ts / 65536) % 256
    ∷ (ts / 256) % 256
    ∷ ts % 256
    ∷ (ssrc / 16777216) % 256
    ∷ (ssrc / 65536) % 256
    ∷ (ssrc / 256) % 256
    ∷ ssrc % 256
    ∷ []

abbrev pub byte_at : List ℕ → ℕ → ℕ
byte_at annexb i = get_or annexb i 0

abbrev pub nal_type_of : ℕ → ℕ
nal_type_of b = b / 2 % 64

-- The length of the start code at `i`, 0 if there is none.
unfoldable pub start_code : List ℕ → ℕ → ℕ
start_code annexb i =
    if not (ltb (i + 2) (length annexb) && (byte_at annexb i == 0 && byte_at annexb (i + 1) == 0))
    then 0
    else if byte_at annexb (i + 2) == 1
    then 3
    else if ltb (i + 3) (length annexb)
        && (byte_at annexb (i + 2) == 0 && byte_at annexb (i + 3) == 1)
    then 4
    else 0

-- The first loop of `next_nal`, with `n` offsets left: where the NAL unit starts.
unfoldable pub start_from : List ℕ → ℕ → ℕ → Option ℕ
unfolding start_code
start_from annexb zero i = none
start_from annexb (suc n) i =
    let rest = start_from annexb n (i + 1) in
    if start_code annexb i == 0 then rest else some (i + start_code annexb i)

-- The second loop: where it ends.
unfoldable pub end_from : List ℕ → ℕ → ℕ → ℕ
unfolding start_code
end_from annexb zero j = length annexb
end_from annexb (suc n) j =
    let rest = end_from annexb n (j + 1) in if start_code annexb j == 0 then rest else j

-- `next_nal`: the NAL unit's bytes and the new cursor.
unfoldable pub next_nal : List ℕ → ℕ → Option (List ℕ × ℕ)
unfolding start_from end_from
next_nal annexb from = elim (start_from annexb (length annexb - from) from) [
  | none ↦ none
  | some start ↦
      let end = end_from annexb (length annexb - start) start in
      if leb end start then none else some (take (end - start) (drop start annexb), end)
]

-- The NAL units from a cursor on, at most `n`.
unfoldable pub nals_from : ℕ → List ℕ → ℕ → List (List ℕ)
unfolding next_nal
nals_from zero annexb cursor = []
nals_from (suc n) annexb cursor = elim (next_nal annexb cursor) [
  | none ↦ []
  | some (nal, cursor') ↦ nal ∷ nals_from n annexb cursor'
]

abbrev pub any_vcl : List (List ℕ) → Bool
any_vcl [] = false
any_vcl (nal ∷ nals) = leb (nal_type_of (byte_at nal 0)) 31 || any_vcl nals

-- `rtp_h265_has_vcl`; every NAL unit moves the cursor, so there are at most as many as bytes.
unfoldable pub has_vcl : List ℕ → Bool
unfolding nals_from
has_vcl annexb = any_vcl (nals_from (suc (length annexb)) annexb 0)

-- The two parts of a packet's payload, and its marker bit.
pub record Piece : Type 0 where
  pub prefix : List ℕ
  pub body : List ℕ
  pub marker : Bool

-- The context, the world behind the socket, and the packets counted.
pub record World (S : Type 0) : Type 0 where
  pub ctx : Ctx
  pub net : S
  pub packets : ℕ

-- The length of the fragment at `off`, of what is left of the NAL unit's body.
unfoldable pub frag_len : ℕ → ℕ → ℕ → ℕ
frag_len max_frag body_len off =
    let left = body_len - off in if ltb max_frag left then max_frag else left

-- One round of the fragmentation loop: the FU's payload header and header, and its bytes.
unfoldable pub fu_piece : List ℕ → Bool → ℕ → ℕ → Piece
unfolding frag_len
fu_piece p is_last max_frag off =
    let hdr0 = byte_at p 0 in
    let body = drop 2 p in
    let len = frag_len max_frag (length body) off in
    let at_end = leb (length body) (off + len) in
    record {
      prefix =
          u8 (bit_or (bit_and hdr0 0x81) (bit_and nal_fu 0x3F * 2))
          ∷ byte_at p 1
          ∷ u8 (
              bit_or (bit_or (if off == 0 then 128 else 0) (if at_end then 64 else 0))
                (nal_type_of hdr0))
          ∷ [];
      body = take len (drop off body);
      marker = is_last && at_end;
    }

unfoldable pub max_frag_of : ℕ → ℕ
max_frag_of max_payload = if ltb 3 max_payload then max_payload - 3 else 1

-- `send` is send() on the context's socket; false is a failure.
module _ {S : Type 0} (send : S → List ℕ → Bool × S) where
  -- `send_packet`, and its caller's count of the packets that went out.
  unfoldable pub send_packet : ℕ → Piece → World S → World S
  unfolding rtp_header
  send_packet ts x w =
      let header = rtp_header w.ctx.seq ts w.ctx.ssrc x.marker in
      let (ok, net') = send w.net (header ++ (x.prefix ++ x.body)) in
      if ltb send_buf_max (u32 (rtp_hdr_len + length x.prefix + length x.body)) then w else record {
        ctx = record w.ctx { seq = u16 (w.ctx.seq + 1) };
        net = net';
        packets = if ok then w.packets + 1 else w.packets;
      }

  -- The fragmentation loop from `off`, within `n` rounds.
  unfoldable pub send_frags : ℕ → List ℕ → Bool → ℕ → ℕ → ℕ → World S → World S
  send_frags ts p is_last max_frag zero off w = w
  send_frags ts p is_last max_frag (suc n) off w =
      let len = frag_len max_frag (length (drop 2 p)) off in
      let w' = send_packet ts (fu_piece p is_last max_frag off) w in
      let rest = send_frags ts p is_last max_frag n (off + len) w' in
      if ltb off (length (drop 2 p)) then rest else w

  -- One NAL unit. A fragment takes at least a byte, so there are at most as many as bytes.
  unfoldable pub send_nal : ℕ → List ℕ → Bool → World S → World S
  unfolding send_frags
  send_nal ts p is_last w =
      if ltb (length p) 2
      then w
      else if leb (length p) w.ctx.max_payload
      then send_packet ts (record { prefix = p; body = []; marker = is_last }) w
      else send_frags ts p is_last (max_frag_of w.ctx.max_payload) (length p) 0 w

  -- The loop over the NAL units; the last one may end the access unit.
  unfoldable pub send_each : ℕ → Bool → List (List ℕ) → World S → World S
  send_each ts au_end [] w = w
  send_each ts au_end (p ∷ []) w = send_nal ts p au_end w
  send_each ts au_end (p ∷ q ∷ nals) w = send_each ts au_end (q ∷ nals) (send_nal ts p false w)

  -- `rtp_h265_send_nals`; none is -1, for no NAL unit.
  unfoldable pub send_nals : List ℕ → ℕ → Bool → Ctx → S → Option ℕ × Ctx × S
  unfolding send_each nals_from
  send_nals annexb ts au_end ctx net =
      let nals = nals_from 256 annexb 0 in
      let w = send_each ts au_end nals (record { ctx = ctx; net = net; packets = 0 }) in
      if length nals == 0 then (none, ctx, net) else (some w.packets, w.ctx, w.net)

  -- `rtp_h265_send_frame`
  unfoldable pub send_frame : List ℕ → ℕ → Ctx → S → Option ℕ × Ctx × S
  unfolding send_nals
  send_frame annexb ts ctx net = send_nals annexb ts true ctx net
