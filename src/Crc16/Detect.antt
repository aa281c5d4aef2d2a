-- ===== src/Crc16/Detect.antt =====
-- What the checksum promises: a uint16_t, and a different one for a payload in which one byte
-- was changed.
use Prim.Native.Nat.{bit_xor}
use ar8030_transport.Base.{
  ℕ, zero, suc, ◌+◌, ◌-◌, ◌*◌, ◌<◌, ◌≡◌, ◌≢◌, refl, sym, ◌∙◌, List, [], ◌∷◌, ◌++◌, arith, u16,
  AllBytes,
}
use ar8030_transport.Base.Bits.{
  bit_and_top, bit_xor_parts, bit_xor_cancel, bit_xor_cancel_left, bit_xor-lt_pow, bit_xor_step,
}
use ar8030_transport.Crc16.{crc_bit, crc_bits, crc_byte, crc_from, crc16}

-- A round on a register whose top bit is clear or set.
crc_bit_low : (c : ℕ) → c < 32768 → crc_bit c ≡ c * 2
unfolding crc_bit
crc_bit_low c h = ground (arith, bit_and_top c)

crc_bit_high : (c : ℕ) → c < 32768 → crc_bit (32768 + c) ≡ bit_xor (c * 2) 0x1021
unfolding crc_bit
crc_bit_high c h = ground (
  arith,
  bit_and_top (32768 + c),
  bit_xor_parts 16 1 (c * 2) 0 0x1021 (omega arith) (omega arith),
  bit_xor-lt_pow 16 (c * 2) 0x1021 (omega arith) (omega arith),
)

crc_bit-lt : (c : ℕ) → crc_bit c < 65536
unfolding crc_bit
crc_bit-lt c = ground arith

-- The feedback has an odd polynomial, so the low bit tells which way the round went.
crc_bit_inj_at : (c d : ℕ) → c < 65536 → d < 65536 → crc_bit c ≡ crc_bit d → c ≡ d
crc_bit_inj_at c d hc hd e = ground (
  arith,
  crc_bit_low c,
  crc_bit_low d,
  crc_bit_high (c - 32768),
  crc_bit_high (d - 32768),
  bit_xor_step ((c - 32768) * 2) 0x1021,
  bit_xor_step ((d - 32768) * 2) 0x1021,
  bit_xor_cancel ((c - 32768) * 2) ((d - 32768) * 2) 0x1021,
)

crc_bits_inj : (n c d : ℕ) → c < 65536 → d < 65536 → crc_bits n c ≡ crc_bits n d → c ≡ d
unfolding crc_bits
crc_bits_inj zero c d hc hd e = e
crc_bits_inj (suc n) c d hc hd e =
    crc_bit_inj_at c d hc hd
      (crc_bits_inj n (crc_bit c) (crc_bit d) (crc_bit-lt c) (crc_bit-lt d) e)

crc_bits-lt : (n c : ℕ) → c < 65536 → crc_bits n c < 65536
unfolding crc_bits
crc_bits-lt zero c h = h
crc_bits-lt (suc n) c h = crc_bits-lt n (crc_bit c) (crc_bit-lt c)

crc_byte-lt : (c b : ℕ) → crc_byte c b < 65536
unfolding crc_byte
crc_byte-lt c b = crc_bits-lt 8 _ (omega arith)

-- Feeding a byte loses neither the register nor the byte.
crc_byte_inj :
    (c d a b : ℕ)
    → c < 65536
    → d < 65536
    → a < 256
    → b < 256
    → crc_byte c a ≡ crc_byte d b
    → u16 (bit_xor c (u16 (a * 256))) ≡ u16 (bit_xor d (u16 (b * 256)))
unfolding crc_byte
crc_byte_inj c d a b hc hd ha hb e = crc_bits_inj 8 _ _ (omega arith) (omega arith) e

crc_byte_inj_register :
    (c d b : ℕ) → c < 65536 → d < 65536 → b < 256 → crc_byte c b ≡ crc_byte d b → c ≡ d
crc_byte_inj_register c d b hc hd hb e = ground (
  arith,
  crc_byte_inj c d b b hc hd hb hb e,
  bit_xor-lt_pow 16 c (b * 256) (omega arith) (omega arith),
  bit_xor-lt_pow 16 d (b * 256) (omega arith) (omega arith),
  bit_xor_cancel c d (b * 256),
)

crc_byte_inj_byte :
    (c a b : ℕ) → c < 65536 → a < 256 → b < 256 → crc_byte c a ≡ crc_byte c b → a ≡ b
crc_byte_inj_byte c a b hc ha hb e = ground (
  arith,
  crc_byte_inj c c a b hc hc ha hb e,
  bit_xor-lt_pow 16 c (a * 256) (omega arith) (omega arith),
  bit_xor-lt_pow 16 c (b * 256) (omega arith) (omega arith),
  bit_xor_cancel_left (a * 256) (b * 256) c,
)

crc_from-lt : (c : ℕ) (xs : List ℕ) → c < 65536 → crc_from c xs < 65536
unfolding crc_from
crc_from-lt c [] h = h
crc_from-lt c (x ∷ xs) h = crc_from-lt (crc_byte c x) xs (crc_byte-lt c x)

crc_from-append : (c : ℕ) (xs ys : List ℕ) → crc_from c (xs ++ ys) ≡ crc_from (crc_from c xs) ys
unfolding crc_from
crc_from-append c [] ys = refl
crc_from-append c (x ∷ xs) ys = crc_from-append (crc_byte c x) xs ys

crc_from_inj :
    (c d : ℕ) (xs : List ℕ)
    → c < 65536
    → d < 65536
    → AllBytes xs
    → crc_from c xs ≡ crc_from d xs
    → c ≡ d
unfolding crc_from
crc_from_inj c d [] hc hd h e = e
crc_from_inj c d (x ∷ xs) hc hd h e =
    crc_byte_inj_register c d x hc hd h.0
      (crc_from_inj (crc_byte c x) (crc_byte d x) xs (crc_byte-lt c x) (crc_byte-lt d x) h.1 e)

-- The checksum of any payload is a uint16_t.
pub crc16-lt : (xs : List ℕ) → crc16 xs < 65536
unfolding crc16
crc16-lt xs = crc_from-lt 0xFFFF xs (omega arith)

-- Two payloads that differ in exactly one byte, wherever it stands and whatever it was changed
-- to, have different checksums.
pub crc16_detects_byte :
    (xs ys : List ℕ) (a b : ℕ)
    → AllBytes ys
    → a < 256
    → b < 256
    → a ≢ b
    → crc16 (xs ++ a ∷ ys) ≢ crc16 (xs ++ b ∷ ys)
unfolding crc16
crc16_detects_byte xs ys a b hys ha hb ne e = ne (
    crc_byte_inj_byte r a b hr ha hb
      (crc_from_inj (crc_byte r a) (crc_byte r b) ys (crc_byte-lt r a) (crc_byte-lt r b) hys e'))
  where
    r : ℕ
    r = crc_from 0xFFFF xs

    hr : r < 65536
    hr = crc_from-lt 0xFFFF xs (omega arith)

    e' : crc_from (crc_byte r a) ys ≡ crc_from (crc_byte r b) ys
    e' = sym (crc_from-append 0xFFFF xs (a ∷ ys)) ∙ e ∙ crc_from-append 0xFFFF xs (b ∷ ys)
