-- ===== src/Base/Int.antt =====
-- Signed integers over the native numbers, under the library's names, and int64_t casts.
use ar8030_transport.Base.{
  ℕ, suc, ◌+◌, ◌-◌, ◌*◌, ◌/◌, ◌≤◌, ◌≡◌, ◌⊎◌, inl, inr, refl, arith, ltb, leb, if◌then◌else◌,
}

-- `negsuc n` is -(n + 1).
pub data ℤ : Type 0 where
  pos : ℕ → ℤ
  negsuc : ℕ → ℤ

abbrev pub pos_part : ℤ → ℕ
pos_part (pos n) = n
pos_part (negsuc n) = 0

abbrev pub neg_part : ℤ → ℕ
neg_part (pos n) = 0
neg_part (negsuc n) = suc n

-- a - b, as an integer.
abbrev pub sub_ℕ : ℕ → ℕ → ℤ
sub_ℕ a b = if leb b a then pos (a - b) else negsuc (b - a - 1)

infixl 65 ◌+ℤ◌ ◌-ℤ◌
unfoldable pub ◌+ℤ◌ : ℤ → ℤ → ℤ
a +ℤ b = sub_ℕ (pos_part a + pos_part b) (neg_part a + neg_part b)

unfoldable pub ◌-ℤ◌ : ℤ → ℤ → ℤ
a -ℤ b = sub_ℕ (pos_part a + neg_part b) (neg_part a + pos_part b)

-- |a|
abbrev pub nat_abs : ℤ → ℕ
nat_abs a = pos_part a + neg_part a

-- a / 2 as C divides, towards zero.
unfoldable pub half : ℤ → ℤ
half (pos n) = pos (n / 2)
half (negsuc n) = sub_ℕ 0 (suc n / 2)

-- (int64_t)w for a uint64_t, and back.
abbrev pub int64 : ℕ → ℤ
int64 w = if ltb w 9223372036854775808 then pos w else negsuc (18446744073709551616 - w - 1)

-- `x` and `y` are at most `k` apart.
abbrev pub Within : ℕ → ℤ → ℤ → Type 0
Within k x y =
    (pos_part x + neg_part y ≤ k + (pos_part y + neg_part x))
    × (pos_part y + neg_part x ≤ k + (pos_part x + neg_part y))

-- One lemma for each operation lets `omega` work with the operations shut.
pub -ℤ_parts :
    (a b : ℤ)
    → pos_part (a -ℤ b) + neg_part a + pos_part b ≡ neg_part (a -ℤ b) + pos_part a + neg_part b
unfolding ◌-ℤ◌
-ℤ_parts a b = ground arith

pub +ℤ_parts :
    (a b : ℤ)
    → pos_part (a +ℤ b) + neg_part a + neg_part b ≡ neg_part (a +ℤ b) + pos_part a + pos_part b
unfolding ◌+ℤ◌
+ℤ_parts a b = ground arith

-- Half of a number is at most one half away from it.
pub half_parts :
    (a : ℤ)
    → (pos_part a + 2 * neg_part (half a) ≤ 1 + (2 * pos_part (half a) + neg_part a))
      × (2 * pos_part (half a) + neg_part a ≤ 1 + (pos_part a + 2 * neg_part (half a)))
unfolding half
half_parts (pos n) = ground arith
half_parts (negsuc n) = ground arith

-- At most one of the two parts is not 0.
pub parts_split : (a : ℤ) → (pos_part a ≡ 0) ⊎ (neg_part a ≡ 0)
parts_split (pos n) = inr refl
parts_split (negsuc n) = inl refl
