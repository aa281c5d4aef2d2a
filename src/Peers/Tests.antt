-- ===== src/Peers/Tests.antt =====
-- A list of two air units, with room for three.
use ar8030_transport.Base.{ℕ, ◌≡◌, ◌⊎◌, none, refl, true, [], ◌∷◌, List, some, arith}
use ar8030_transport.Base.Int.{pos, negsuc}
use ar8030_transport.Peers.Hex.{
  Mac, mac_parse, mac_hex, scan_bytes, scan_byte, digit_of, second_digit, signed_digit,
}
use ar8030_transport.Peers.{mac_in, read_ap_mac, peers_load, peers_text, note_ap_mac, peers_forget}
use ar8030_transport.Peers.Stored.{IsPeers, peers_load-peers_text}
use ar8030_transport.Peers.Known.{Noted, note_ap_mac-Noted}
use ar8030_transport.Peers.Forget.{Forgotten, peers_forget-Forgotten}

abbrev unit_a : Mac
unit_a = 0x12 ∷ 0x34 ∷ 0xab ∷ 0xcd ∷ []

abbrev unit_b : Mac
unit_b = 0 ∷ 0xff ∷ 7 ∷ 0x80 ∷ []

abbrev unit_c : Mac
unit_c = 1 ∷ 2 ∷ 3 ∷ 4 ∷ []

-- "12 4aBCd": a space is skipped, and the last number has one digit.
spaced :
    mac_parse (0x31 ∷ 0x32 ∷ 0x20 ∷ 0x34 ∷ 0x61 ∷ 0x42 ∷ 0x43 ∷ 0x64 ∷ [])
    ≡ some (0x12 ∷ 0x4a ∷ 0xbc ∷ 0xd ∷ [])
unfolding mac_parse scan_bytes scan_byte digit_of second_digit signed_digit
spaced = refl

upper_case : mac_parse (0x31 ∷ 0x32 ∷ 0x33 ∷ 0x34 ∷ 0x41 ∷ 0x42 ∷ 0x43 ∷ 0x44 ∷ []) ≡ some unit_a
unfolding mac_parse scan_bytes scan_byte digit_of second_digit signed_digit
upper_case = refl

abbrev known : List Mac
known = unit_b ∷ unit_c ∷ []

known-IsPeers : IsPeers 3 known
unfolding mac_in
known-IsPeers = record {
  distinct = (refl, (refl, tt));
  short = omega arith;
  macs = ((refl, omega arith), ((refl, omega arith), tt));
}

peers_load-peers_text_example : peers_load 3 (some (peers_text known)) ≡ known
peers_load-peers_text_example = peers_load-peers_text 3 known known-IsPeers

config_a : read_ap_mac (some (mac_hex unit_a)) ≡ some unit_a
unfolding read_ap_mac mac_parse mac_hex scan_bytes scan_byte digit_of second_digit signed_digit
config_a = refl

note_ap_mac-Noted_example :
    Noted 3
      (pos 0)
      (some (peers_text known))
      unit_a
      (peers_load 3 (some (peers_text known)))
      true
      (note_ap_mac 3 true (some (mac_hex unit_a)) (pos 0) (some (peers_text known)))
note_ap_mac-Noted_example =
    note_ap_mac-Noted 3 true (some (mac_hex unit_a)) (pos 0) (some (peers_text known)) unit_a
      (omega arith) config_a

peers_forget-Forgotten_example :
    let r =
      peers_forget 3 true
        (some (mac_hex unit_a))
        (some (peers_text known))
        (some (mac_hex unit_c)) in
    (((text : List ℕ) × (some (mac_hex unit_c) ≡ some text) × (mac_parse text ≡ none))
      × (r.ret ≡ negsuc 0)
      × (r.file ≡ some (peers_text known)))
    ⊎ Forgotten 3 true
        (read_ap_mac (some (mac_hex unit_a)))
        (some (peers_text known))
        (read_ap_mac (some (mac_hex unit_c)))
        r
peers_forget-Forgotten_example =
    peers_forget-Forgotten 3 true (some (mac_hex unit_a)) (some (peers_text known))
      (some (mac_hex unit_c))
