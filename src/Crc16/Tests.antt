-- ===== src/Crc16/Tests.antt =====
-- The checksum at concrete payloads.
use ar8030_transport.Base.{◌≡◌, ◌≢◌, refl, [], ◌∷◌, ◌++◌, arith}
use ar8030_transport.Crc16.{crc16}
use ar8030_transport.Crc16.Detect.{crc16_detects_byte}

-- The standard check value, of the text "123456789".
crc16_check_value :
    crc16 (0x31 ∷ 0x32 ∷ 0x33 ∷ 0x34 ∷ 0x35 ∷ 0x36 ∷ 0x37 ∷ 0x38 ∷ 0x39 ∷ []) ≡ 0x29B1
unfolding crc16
crc16_check_value = refl

-- A flipped byte in the middle of a payload.
crc16_detects_byte_example :
    crc16 ((1 ∷ 2 ∷ []) ++ 3 ∷ 4 ∷ []) ≢ crc16 ((1 ∷ 2 ∷ []) ++ 131 ∷ 4 ∷ [])
crc16_detects_byte_example =
    crc16_detects_byte (1 ∷ 2 ∷ []) (4 ∷ []) 3 131 (omega arith) (omega arith) (omega arith)
      (omega arith)
