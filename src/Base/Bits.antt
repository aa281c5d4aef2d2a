-- ===== src/Base/Bits.antt =====
-- `^`, `&` and `|` at variables: one equation for the lowest digit, the cancellation and the
-- range of `^`, the test of one bit, and facts about bytes checked over all of them.
use Prim.Native.Nat.{digits, bitwise, differ, bit_and, bit_xor, bit_and-bitwise, bit_xor-bitwise}
use native.Mathlib.Nat.{pow-suc}
use ar8030_transport.Base.{
  ℕ, zero, suc, ◌+◌, ◌-◌, ◌*◌, ◌/◌, ◌%◌, ◌^◌, ◌≤◌, ◌<◌, min, ◌≡◌, refl, ap, ◌∙◌, ◌⊎◌, inl, inr,
  arith, Bool, true, ◌&&◌,
}

-- The fuel of `digits` beyond the first operand's size changes nothing.
module _ (left : ℕ → ℕ) (op : ℕ → ℕ → ℕ) where
  one_more : (n x y : ℕ) → x ≤ n → digits left op (suc n) x y ≡ digits left op n x y
  one_more zero zero y le = refl
  one_more (suc n) zero y le = refl
  one_more zero (suc x) y le = absurd (omega arith)
  one_more (suc n) (suc x) y le = rw (one_more n (suc x / 2) (y / 2) (omega arith))

  more : (k n m x y : ℕ) → m ≡ k + n → x ≤ n → digits left op m x y ≡ digits left op n x y
  more zero n m x y e le = let same : m ≡ n = omega arith in rw same refl
  more (suc k) n m x y e le =
      let next : m ≡ suc (k + n) = omega arith in
      rw next (one_more (k + n) x y (omega arith) ∙ more k n (k + n) x y refl le)

  lowest_digit :
      (x y : ℕ)
      → bitwise left op (suc x) y ≡ bitwise left op (suc x / 2) (y / 2) * 2 + op (suc x % 2) (y % 2)
  lowest_digit x y =
      let half : ℕ = suc x / 2 in
      omega (arith, more (x - half) half x half (y / 2) (omega arith) (omega arith))

-- `differ` of two binary digits.
differ_digits : (d e : ℕ) → d < 2 → e < 2 → differ d e ≡ (d + e) % 2
differ_digits d e d_lt e_lt = elim (digit_cases d d_lt) [
  | inl p ↦ elim (digit_cases e e_lt) [ inl q ↦ rw (p, q) refl | inr q ↦ rw (p, q) refl ]
  | inr p ↦ elim (digit_cases e e_lt) [ inl q ↦ rw (p, q) refl | inr q ↦ rw (p, q) refl ]
]
  where
    digit_cases : (b : ℕ) → b < 2 → (b ≡ 0) ⊎ (b ≡ 1)
    digit_cases b lt = ground arith

zero-bit_xor : (b : ℕ) → bit_xor 0 b ≡ b
zero-bit_xor b = bit_xor-bitwise 0 b

zero-bit_and : (b : ℕ) → bit_and 0 b ≡ 0
zero-bit_and b = bit_and-bitwise 0 b

-- The lowest digit of `^`.
pub bit_xor_step : (x y : ℕ) → bit_xor x y ≡ bit_xor (x / 2) (y / 2) * 2 + (x + y) % 2
bit_xor_step zero y = omega (arith, zero-bit_xor y, zero-bit_xor (y / 2))
bit_xor_step (suc x) y =
    let parity = differ_digits (suc x % 2) (y % 2) (omega arith) (omega arith) in
    let digit = lowest_digit (λ t. t) differ x y in
    omega (arith, bit_xor-bitwise (suc x) y, bit_xor-bitwise (suc x / 2) (y / 2), digit, parity)

bit_and_step : (x y : ℕ) → bit_and x y ≡ bit_and (x / 2) (y / 2) * 2 + min (x % 2) (y % 2)
bit_and_step zero y = omega (arith, zero-bit_and y, zero-bit_and (y / 2))
bit_and_step (suc x) y =
    let digit = lowest_digit (λ t. 0) min x y in
    omega (arith, bit_and-bitwise (suc x) y, bit_and-bitwise (suc x / 2) (y / 2), digit)

-- Equal halves and equal parities make equal numbers, so both cancellations recur on the halves.
cancel_below :
    (n a b c : ℕ)
    → a + b + c ≤ n
    → (bit_xor a c ≡ bit_xor b c → a ≡ b) × (bit_xor c a ≡ bit_xor c b → a ≡ b)
cancel_below zero a b c size = (λ same. omega arith, λ same. omega arith)
cancel_below (suc n) a b c size = elim (zero_or_half a b c n size) [
  | inl none_left ↦ (λ same. omega arith, λ same. omega arith)
  | inr smaller ↦
      let halves = cancel_below n (a / 2) (b / 2) (c / 2) smaller in
      let right_a = bit_xor_step a c in
      let right_b = bit_xor_step b c in
      let left_a = bit_xor_step c a in
      let left_b = bit_xor_step c b in
      (
        λ same. omega (arith, right_a, right_b, halves.0 (omega (arith, right_a, right_b))),
        λ same. omega (arith, left_a, left_b, halves.1 (omega (arith, left_a, left_b))),
      )
]
  where
    zero_or_half :
        (a b c n : ℕ) → a + b + c ≤ suc n → ((a ≡ 0) × (b ≡ 0)) ⊎ (a / 2 + b / 2 + c / 2 ≤ n)
    zero_or_half a b c n size = ground arith

-- `^ c` loses nothing.
pub bit_xor_cancel : (a b c : ℕ) → bit_xor a c ≡ bit_xor b c → a ≡ b
bit_xor_cancel a b c = (cancel_below (a + b + c) a b c (omega arith)).0

pub bit_xor_cancel_left : (a b c : ℕ) → bit_xor c a ≡ bit_xor c b → a ≡ b
bit_xor_cancel_left a b c = (cancel_below (a + b + c) a b c (omega arith)).1

-- `^` stays within the width of its operands.
pub bit_xor-lt_pow : (k a b : ℕ) → a < 2 ^ k → b < 2 ^ k → bit_xor a b < 2 ^ k
bit_xor-lt_pow zero a b a_lt b_lt =
    let a_zero : a ≡ 0 = omega arith in
    let b_zero : b ≡ 0 = omega arith in rw (a_zero, b_zero) (omega arith)
bit_xor-lt_pow (suc k) a b a_lt b_lt =
    let double = pow-suc 2 k in
    let halves = bit_xor-lt_pow k (a / 2) (b / 2) (omega (arith, double)) (omega (arith, double)) in
    omega (arith, double, bit_xor_step a b, halves)

bit_and-zero_fuel : (bound x : ℕ) → x ≤ bound → bit_and x 0 ≡ 0
bit_and-zero_fuel zero x le = let none_set : x ≡ 0 = omega arith in rw none_set refl
bit_and-zero_fuel (suc bound) x le =
    let upper = bit_and-zero_fuel bound (x / 2) (omega arith) in
    omega (arith, bit_and_step x 0, upper)

mul-two-pow-suc : (high width : ℕ) → high * 2 ^ suc width ≡ 2 * (high * 2 ^ width)
mul-two-pow-suc high width =
    let doubled : high * 2 ^ suc width ≡ high * (2 ^ width * 2) = ap (high *◌) (pow-suc 2 width) in
    omega (arith, doubled)

one-pow : (q : ℕ) → q * 2 ^ 0 + 0 ≡ q
one-pow q = omega arith

-- An operation that works digit by digit works on the high and the low part of a word apart.
module _ (op : ℕ → ℕ → ℕ) (digit : ℕ → ℕ → ℕ)
    (step : (a b : ℕ) → op a b ≡ op (a / 2) (b / 2) * 2 + digit (a % 2) (b % 2))
    (zeros : op 0 0 ≡ 0) where
  op_parts :
      (k h l h' l' : ℕ)
      → l < 2 ^ k
      → l' < 2 ^ k
      → op (h * 2 ^ k + l) (h' * 2 ^ k + l') ≡ op h h' * 2 ^ k + op l l'
  op_parts zero h l h' l' l_lt l'_lt =
      let l_zero : l ≡ 0 = omega arith in
      let l'_zero : l' ≡ 0 = omega arith in
      rw (l_zero, l'_zero, zeros, one-pow h, one-pow h') (omega arith)
  op_parts (suc k) h l h' l' l_lt l'_lt =
      let double = pow-suc 2 k in
      let left : (h * 2 ^ suc k + l) / 2 ≡ h * 2 ^ k + l / 2 = omega (arith, mul-two-pow-suc h k) in
      let right : (h' * 2 ^ suc k + l') / 2 ≡ h' * 2 ^ k + l' / 2 =
        omega (arith, mul-two-pow-suc h' k) in
      let low : (h * 2 ^ suc k + l) % 2 ≡ l % 2 = omega (arith, mul-two-pow-suc h k) in
      let low' : (h' * 2 ^ suc k + l') % 2 ≡ l' % 2 = omega (arith, mul-two-pow-suc h' k) in
      let halves =
        op_parts k h (l / 2) h' (l' / 2) (omega (arith, double)) (omega (arith, double)) in
      let whole = step (h * 2 ^ suc k + l) (h' * 2 ^ suc k + l') in
      omega (
        arith,
        (rw (left, right, low, low') at whole),
        halves,
        step l l',
        mul-two-pow-suc (op h h') k,
      )

pub bit_xor_parts :
    (k h l h' l' : ℕ)
    → l < 2 ^ k
    → l' < 2 ^ k
    → bit_xor (h * 2 ^ k + l) (h' * 2 ^ k + l') ≡ bit_xor h h' * 2 ^ k + bit_xor l l'
bit_xor_parts = op_parts bit_xor (λ d e. (d + e) % 2) parity_step refl
  where
    parity_step : (a b : ℕ) → bit_xor a b ≡ bit_xor (a / 2) (b / 2) * 2 + (a % 2 + b % 2) % 2
    parity_step a b = omega (arith, bit_xor_step a b)

bit_and_parts :
    (k h l h' l' : ℕ)
    → l < 2 ^ k
    → l' < 2 ^ k
    → bit_and (h * 2 ^ k + l) (h' * 2 ^ k + l') ≡ bit_and h h' * 2 ^ k + bit_and l l'
bit_and_parts = op_parts bit_and min bit_and_step refl

-- `a & (1 << 15)`, for a uint16_t.
pub bit_and_top : (a : ℕ) → a < 65536 → bit_and a 0x8000 ≡ a / 32768 * 32768
bit_and_top a h = ground (
  arith,
  bit_and_parts 15 (a / 32768) (a % 32768) 1 0 (omega arith) (omega arith),
  bit_and-zero_fuel (a % 32768) (a % 32768) (omega arith),
  bit_and_step (a / 32768) 1,
  bit_and-zero_fuel 0 0 (omega arith),
)

-- Over a small range, check every value by evaluation.
unfoldable pub all_below : ℕ → (ℕ → Bool) → Bool
all_below zero p = true
all_below (suc n) p = p n && all_below n p

pub all_below_sound :
    (limit : ℕ) (test : ℕ → Bool) (k : ℕ) → all_below limit test ≡ true → k < limit → test k ≡ true
unfolding all_below
all_below_sound zero test k all_pass lt = absurd (omega arith)
all_below_sound (suc limit) test k all_pass lt = ground (arith, all_below_sound limit test k)
