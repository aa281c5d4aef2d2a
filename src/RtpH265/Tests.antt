-- ===== src/RtpH265/Tests.antt =====
-- Packets of concrete NAL units, over a socket that refuses every second datagram.
use ar8030_transport.Base.{ℕ, ◌≡◌, map, refl, List, [], ◌∷◌, Bool, true, false, some, arith, All}
use ar8030_transport.RtpH265.{World, send_each, nals_from}
use ar8030_transport.RtpH265.Pieces.{Fits, pieces, all_pieces, pieces-Fits}
use ar8030_transport.RtpH265.Sent.{after_offer, send_each-datagrams}
use ar8030_transport.RtpH265.Depacketize.{payload, nal_of, nal_of-pieces}

abbrev every_second : Bool → List ℕ → Bool × Bool
every_second true x = (true, false)
every_second false x = (false, true)

abbrev start : World Bool
start = record { ctx = record { seq = 65535; ssrc = 7; max_payload = 5 }; net = true; packets = 0 }

abbrev slice : List ℕ
slice = 2 ∷ 1 ∷ 30 ∷ 31 ∷ 32 ∷ 33 ∷ 34 ∷ []

send_each-datagrams_example :
    send_each every_second 9000 true ((64 ∷ 1 ∷ 5 ∷ []) ∷ slice ∷ []) start
    ≡ after_offer every_second 9000 (all_pieces 5 true ((64 ∷ 1 ∷ 5 ∷ []) ∷ slice ∷ [])) start
send_each-datagrams_example =
    send_each-datagrams every_second 9000 true ((64 ∷ 1 ∷ 5 ∷ []) ∷ slice ∷ []) start (omega arith)
      (omega arith) (omega arith)

pieces-Fits_example : All (Fits 5) (pieces 5 slice true)
pieces-Fits_example = pieces-Fits 5 slice true (omega arith)

-- Three fragments, of two, two and one bytes.
nal_of-pieces_example : nal_of (map payload (pieces 5 slice true)) ≡ some slice
nal_of-pieces_example =
    nal_of-pieces 5 2 1 (30 ∷ 31 ∷ 32 ∷ 33 ∷ 34 ∷ []) true (omega arith) (omega arith) (omega arith)

-- Two NAL units behind start codes of both lengths.
two_nals :
    nals_from 256 (0 ∷ 0 ∷ 0 ∷ 1 ∷ 64 ∷ 1 ∷ 5 ∷ 0 ∷ 0 ∷ 1 ∷ 2 ∷ 1 ∷ 9 ∷ []) 0
    ≡ (64 ∷ 1 ∷ 5 ∷ []) ∷ (2 ∷ 1 ∷ 9 ∷ []) ∷ []
unfolding nals_from
two_nals = refl
