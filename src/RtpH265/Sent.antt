-- ===== src/RtpH265/Sent.antt =====
-- What the socket is offered for some NAL units.
use ar8030_transport.Base.{
  ℕ, ◌+◌, ◌≤◌, ◌<◌, ◌≡◌, refl, ap, ◌∙◌, List, [], ◌∷◌, ◌++◌, Bool, false, arith, ltb, length,
  if◌then◌else◌, All, All-append, u16, u32,
}
use ar8030_transport.RtpH265.{
  Piece, World, rtp_header, rtp_hdr_len, send_buf_max, send_packet, send_each,
}
use ar8030_transport.RtpH265.Pieces.{
  Fits, pieces, pieces-Fits, all_pieces, send_pieces, send_each_lem,
}

-- The pieces as datagrams, with sequence numbers from `seq` on.
abbrev pub datagrams : ℕ → ℕ → ℕ → List Piece → List (List ℕ)
datagrams ts ssrc seq [] = []
datagrams ts ssrc seq (x ∷ xs) =
    (rtp_header seq ts ssrc x.marker ++ (x.prefix ++ x.body)) ∷ datagrams ts ssrc (u16 (seq + 1)) xs

-- A socket's answers to some datagrams: how many it took, and its state.
abbrev pub offer : {S : Type 0} → (S → List ℕ → Bool × S) → List (List ℕ) → ℕ → S → ℕ × S
offer send [] taken net = (taken, net)
offer send (d ∷ ds) taken net =
    let (ok, net') = send net d in offer send ds (if ok then taken + 1 else taken) net'

-- The context, the socket and the count after the datagrams were offered.
abbrev pub after_offer : {S : Type 0} → (S → List ℕ → Bool × S) → ℕ → List Piece → World S → World S
after_offer send ts xs w =
    let (taken, net') = offer send (datagrams ts w.ctx.ssrc w.ctx.seq xs) w.packets w.net in
    record { ctx = record w.ctx { seq = u16 (w.ctx.seq + length xs) }; net = net'; packets = taken }

all_pieces-Fits :
    (max_payload : ℕ) (au_end : Bool) (nals : List (List ℕ))
    → 3 < max_payload
    → All (Fits max_payload) (all_pieces max_payload au_end nals)
all_pieces-Fits m au_end [] h = tt
all_pieces-Fits m au_end (p ∷ []) h = pieces-Fits m p au_end h
all_pieces-Fits m au_end (p ∷ q ∷ nals) h =
    All-append (Fits m) (pieces m p false) (all_pieces m au_end (q ∷ nals))
      (pieces-Fits m p false h) (all_pieces-Fits m au_end (q ∷ nals) h)

module _ {S : Type 0} (send : S → List ℕ → Bool × S) (ts : ℕ) where
  -- A piece that fits the send buffer goes out as one datagram.
  send_packet-datagram :
      (m : ℕ) (x : Piece) (w : World S)
      → m ≤ 8192
      → Fits m x
      → let (ok, net') =
          send w.net (rtp_header w.ctx.seq ts w.ctx.ssrc x.marker ++ (x.prefix ++ x.body)) in
        send_packet send ts x w ≡ record {
          ctx = record w.ctx { seq = u16 (w.ctx.seq + 1) };
          net = net';
          packets = if ok then w.packets + 1 else w.packets;
        }
  unfolding send_packet
  send_packet-datagram m x w h f =
      let room : ltb send_buf_max (u32 (rtp_hdr_len + length x.prefix + length x.body)) ≡ false =
        ground arith in
      rw room refl

  send_pieces-offer :
      (m : ℕ) (xs : List Piece) (w : World S)
      → m ≤ 8192
      → w.ctx.seq < 65536
      → All (Fits m) xs
      → send_pieces send ts xs w ≡ after_offer send ts xs w
  unfolding send_pieces
  send_pieces-offer m [] w h s f =
      let same : u16 (w.ctx.seq + 0) ≡ w.ctx.seq = omega arith in rw same refl
  send_pieces-offer m (x ∷ xs) w h s f =
      let next : u16 (u16 (w.ctx.seq + 1) + length xs) ≡ u16 (w.ctx.seq + length (x ∷ xs)) =
        omega arith in
      let one = send_packet-datagram m x w h f.0 in
      ap (send_pieces send ts xs) one ∙ send_pieces-offer m xs _ h (omega arith) f.1 ∙ rw next refl

  -- With 4 to 8192 bytes a payload and a sequence number that fits its type, sending NAL units offers
  -- the socket one datagram for each of their pieces, in order and whatever the socket answers: an RTP header with the next sequence number,
  -- modulo 2^16, the time stamp, the SSRC and the piece's marker, and then the piece. The count is of
  -- those that the socket took.
  pub send_each-datagrams :
      (au_end : Bool) (nals : List (List ℕ)) (w : World S)
      → 3 < w.ctx.max_payload
      → w.ctx.max_payload ≤ 8192
      → w.ctx.seq < 65536
      → send_each send ts au_end nals w
        ≡ after_offer send ts (all_pieces w.ctx.max_payload au_end nals) w
  send_each-datagrams au_end nals w low high s =
      send_each_lem send ts au_end nals w
      ∙ send_pieces-offer w.ctx.max_payload (all_pieces w.ctx.max_payload au_end nals) w high s
          (all_pieces-Fits w.ctx.max_payload au_end nals low)
