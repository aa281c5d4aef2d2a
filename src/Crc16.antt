-- ===== src/Crc16.antt =====
-- common/crc16.c: CRC-16/CCITT-FALSE over the bytes of a payload.
pub mod Detect
mod Tests
use Prim.Native.Nat.{bit_and, bit_xor}
use ar8030_transport.Base.{ℕ, zero, suc, ◌*◌, List, [], ◌∷◌, not, ◌==◌, if◌then◌else◌, u16}

-- One round of the inner loop.
crc_bit : ℕ → ℕ
crc_bit crc =
    if not (bit_and crc 0x8000 == 0) then u16 (bit_xor (crc * 2) 0x1021) else u16 (crc * 2)

crc_bits : ℕ → ℕ → ℕ
crc_bits zero crc = crc
crc_bits (suc n) crc = crc_bits n (crc_bit crc)

-- One round of the outer loop.
crc_byte : ℕ → ℕ → ℕ
crc_byte crc b = crc_bits 8 (u16 (bit_xor crc (u16 (b * 256))))

crc_from : ℕ → List ℕ → ℕ
crc_from crc [] = crc
crc_from crc (b ∷ bs) = crc_from (crc_byte crc b) bs

-- `ar8030_crc16(data, len)`; the list is `data[0..len)`.
unfoldable pub crc16 : List ℕ → ℕ
unfolding crc_from crc_byte crc_bits crc_bit
crc16 bytes = crc_from 0xFFFF bytes
