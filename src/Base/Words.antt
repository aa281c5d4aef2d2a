-- ===== src/Base/Words.antt =====
-- Casts to the fixed widths of C, and the subtractions that wrap.
use Prim.Native.Nat.{ℕ, ◌+◌, ◌-◌, ◌%◌, ◌<◌}
use mathlib.Core.List.{List}
use ar8030_transport.Base.Lists.{All}

abbrev pub u8 : ℕ → ℕ
u8 n = n % 256

abbrev pub u16 : ℕ → ℕ
u16 n = n % 65536

abbrev pub u32 : ℕ → ℕ
u32 n = n % 4294967296

abbrev pub u64 : ℕ → ℕ
u64 n = n % 18446744073709551616

-- `a - b` on uint32_t and uint64_t, for values in range.
abbrev pub sub32 : ℕ → ℕ → ℕ
sub32 a b = u32 (a + 4294967296 - b)

abbrev pub sub64 : ℕ → ℕ → ℕ
sub64 a b = u64 (a + 18446744073709551616 - b)

-- A buffer of uint8_t.
abbrev pub AllBytes : List ℕ → Type 0
AllBytes = All (λ b. b < 256)
