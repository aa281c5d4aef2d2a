-- ===== src/Base/Bytes.antt =====
-- Little- and big-endian byte strings of fixed width.
use ar8030_transport.Base.{
  ℕ, zero, suc, ◌+◌, ◌*◌, ◌/◌, ◌%◌, ◌≡◌, refl, List, [], ◌∷◌, arith, length, take, drop, AllBytes,
}

-- The `w` bytes of `n`, the lowest first.
abbrev pub le_bytes : ℕ → ℕ → List ℕ
le_bytes zero n = []
le_bytes (suc w) n = n % 256 ∷ le_bytes w (n / 256)

abbrev pub of_le_bytes : List ℕ → ℕ
of_le_bytes [] = 0
of_le_bytes (b ∷ bs) = b + 256 * of_le_bytes bs

-- The field of `w` bytes at offset `off` of a packed struct.
abbrev pub le_field : ℕ → ℕ → List ℕ → ℕ
le_field off w buf = of_le_bytes (take w (drop off buf))

pub length-le_bytes : (w n : ℕ) → length (le_bytes w n) ≡ w
length-le_bytes zero n = refl
length-le_bytes (suc w) n = omega (arith, length-le_bytes w (n / 256))

pub le_bytes-AllBytes : (w n : ℕ) → AllBytes (le_bytes w n)
le_bytes-AllBytes zero n = tt
le_bytes-AllBytes (suc w) n = (omega arith, le_bytes-AllBytes w (n / 256))
