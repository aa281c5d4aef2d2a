-- ===== src/Peers/Hex.antt =====
-- lifecycled/lifecycle_pair.c: mac_parse and mac_hex. A MAC is a list of BB_MAC_LEN = 4 bytes; a text
-- is the list of its characters up to the terminator. `%2x` of sscanf is as the C standard has it.
use mathlib.Core.Path.{subst}
use mathlib.Core.Option.{none-ne-some, some-injective}
use ar8030_transport.Base.{
  ℕ, zero, suc, ◌+◌, ◌-◌, ◌*◌, ◌/◌, ◌%◌, ◌<◌, ◌≡◌, refl, Bool, true, false, not, ◌&&◌, ◌||◌, Option,
  none, some, List, [], ◌∷◌, arith, ltb, leb, ◌==◌, if◌then◌else◌, length, All, u8, ap, Bool-cases,
  Option-cases, inl, inr,
}

abbrev pub Mac : Type 0
Mac = List ℕ

abbrev pub mac_len : ℕ
mac_len = 4

abbrev pub IsMac : Mac → Type 0
IsMac m = (length m ≡ mac_len) × All (λ b. b < 256) m

-- isspace
abbrev is_space : ℕ → Bool
is_space c = c == 32 || (leb 9 c && leb c 13)

abbrev is_sign : ℕ → Bool
is_sign c = c == 43 || c == 45

unfoldable pub digit_of : ℕ → Option ℕ
digit_of c =
    if leb 48 c && leb c 57
    then some (c - 48)
    else if leb 97 c && leb c 102
    then some (c - 87)
    else if leb 65 c && leb c 70
    then some (c - 55)
    else none

-- A sign and one digit; the value is cast to uint8_t.
unfoldable pub signed_digit : ℕ → List ℕ → Option (ℕ × List ℕ)
signed_digit sign [] = none
signed_digit sign (c ∷ rest) = elim (digit_of c) [
  | none ↦ none
  | some d ↦ some ((if sign == 45 then u8 (256 - d) else d), rest)
]

-- The digit `hi`, and another where there is one; `0x` alone is no number.
unfoldable pub second_digit : ℕ → List ℕ → Option (ℕ × List ℕ)
second_digit hi [] = some (hi, [])
second_digit hi (c ∷ rest) = elim (digit_of c) [
  | some lo ↦ some (hi * 16 + lo, rest)
  | none ↦ if hi == 0 && (c == 120 || c == 88) then none else some (hi, c ∷ rest)
]

-- One `%2x`, and what is left of the text.
unfoldable pub scan_byte : List ℕ → Option (ℕ × List ℕ)
scan_byte [] = none
scan_byte (c ∷ rest) =
    let later = scan_byte rest in
    if is_space c
    then later
    else if is_sign c
    then signed_digit c rest
    else elim (digit_of c) [ none ↦ none | some hi ↦ second_digit hi rest ]

-- `n` of them.
unfoldable pub scan_bytes : ℕ → List ℕ → Option Mac
scan_bytes zero s = some []
scan_bytes (suc n) s = elim (scan_byte s) [
  | none ↦ none
  | some (b, rest) ↦ elim (scan_bytes n rest) [ none ↦ none | some m ↦ some (b ∷ m) ]
]

unfoldable pub mac_parse : List ℕ → Option Mac
mac_parse hex = if not (length hex == 2 * mac_len) then none else scan_bytes mac_len hex

-- `%02x`
unfoldable pub hex_digit : ℕ → ℕ
hex_digit d = if ltb d 10 then d + 48 else d + 87

unfoldable pub mac_hex : Mac → List ℕ
unfolding hex_digit
mac_hex [] = []
mac_hex (b ∷ m) = hex_digit (b / 16) ∷ hex_digit (b % 16) ∷ mac_hex m

digit_of-hex_digit : (d : ℕ) → d < 16 → digit_of (hex_digit d) ≡ some d
unfolding digit_of hex_digit
digit_of-hex_digit d h = ground arith

hex_digit_plain :
    (d : ℕ) → d < 16 → (is_space (hex_digit d) ≡ false) × (is_sign (hex_digit d) ≡ false)
unfolding hex_digit
hex_digit_plain d h = (ground arith, ground arith)

second_digit-hex :
    (h l : ℕ) (rest : List ℕ)
    → l < 16
    → second_digit h (hex_digit l ∷ rest) ≡ some (h * 16 + l, rest)
unfolding second_digit
second_digit-hex h l rest hl = rw (digit_of-hex_digit l hl, second_digit) refl

scan_byte-hex :
    (h l : ℕ) (rest : List ℕ)
    → h < 16
    → l < 16
    → scan_byte (hex_digit h ∷ hex_digit l ∷ rest) ≡ some (h * 16 + l, rest)
unfolding scan_byte
scan_byte-hex h l rest hh hl =
    let (space, sign) = hex_digit_plain h hh in
    rw (space, sign, digit_of-hex_digit h hh) (second_digit-hex h l rest hl)

scan_bytes-mac_hex : (m : Mac) → All (λ b. b < 256) m → scan_bytes (length m) (mac_hex m) ≡ some m
unfolding scan_bytes mac_hex
scan_bytes-mac_hex [] a = refl
scan_bytes-mac_hex (b ∷ m) (h, a) =
    let e = scan_byte-hex (b / 16) (b % 16) (mac_hex m) (omega arith) (omega arith) in
    let whole : b / 16 * 16 + b % 16 ≡ b = omega arith in
    rw (e, scan_bytes) (rw (scan_bytes-mac_hex m a) (rw whole refl))

pub length-mac_hex : (m : Mac) → length (mac_hex m) ≡ 2 * length m
unfolding mac_hex
length-mac_hex [] = refl
length-mac_hex (b ∷ m) = omega (arith, length-mac_hex m)

-- A MAC is read back from its text.
pub mac_parse-mac_hex : (m : Mac) → IsMac m → mac_parse (mac_hex m) ≡ some m
unfolding mac_parse
mac_parse-mac_hex m (e, a) =
    let long : (length (mac_hex m) == 2 * mac_len) ≡ true = ground (arith, length-mac_hex m) in
    rw long (subst (λ n. scan_bytes n (mac_hex m) ≡ some m) e (scan_bytes-mac_hex m a))

digit_of_small : (c : ℕ) {d : ℕ} → digit_of c ≡ some d → d < 16
unfolding digit_of
digit_of_small c e = ground arith

second_digit_small :
    (hi : ℕ) (s : List ℕ) {b : ℕ} {r : List ℕ} → hi < 16 → second_digit hi s ≡ some (b, r) → b < 256
unfolding second_digit
second_digit_small hi [] h e = ground arith
second_digit_small hi (c ∷ rest) h e = elim (Option-cases (digit_of c)) [
  | inl n ↦ ground arith
  | inr (d, n) ↦ ground (arith, digit_of_small c n)
]

signed_digit_small :
    (sign : ℕ) (s : List ℕ) {b : ℕ} {r : List ℕ} → signed_digit sign s ≡ some (b, r) → b < 256
unfolding signed_digit
signed_digit_small sign [] e = absurd (none-ne-some _ e)
signed_digit_small sign (c ∷ rest) e = elim (Option-cases (digit_of c)) [
  | inl n ↦ ground arith
  | inr (d, n) ↦ ground (arith, digit_of_small c n)
]

scan_byte_small : (s : List ℕ) {b : ℕ} {r : List ℕ} → scan_byte s ≡ some (b, r) → b < 256
unfolding scan_byte
scan_byte_small [] e = absurd (none-ne-some _ e)
scan_byte_small (c ∷ rest) e = elim (Bool-cases (is_space c)) [
  | inl space ↦ scan_byte_small rest (rw space at e)
  | inr word ↦ elim (Bool-cases (is_sign c)) [
    | inl sign ↦ signed_digit_small c rest (rw (word, sign) at e)
    | inr plain ↦ elim (Option-cases (digit_of c)) [
      | inl n ↦ absurd (none-ne-some _ (rw (word, plain, n) at e))
      | inr (d, n) ↦ second_digit_small d rest (digit_of_small c n) (rw (word, plain, n) at e)
    ]
  ]
]

scan_bytes-All :
    (n : ℕ) (s : List ℕ) {m : Mac} → scan_bytes n s ≡ some m → (length m ≡ n) × All (λ b. b < 256) m
unfolding scan_bytes
scan_bytes-All zero s {m} e =
    subst (λ y. (length y ≡ 0) × All (λ b. b < 256) y) (some-injective _ _ e) (refl, tt)
scan_bytes-All (suc n) s {m} e = elim (Option-cases (scan_byte s)) [
  | inl bad ↦ absurd (none-ne-some _ (rw (bad, scan_bytes) at e))
  | inr (x, ex) ↦ elim (Option-cases (scan_bytes n x.1)) [
    | inl bad ↦ absurd (none-ne-some _ (rw (ex, scan_bytes, bad) at e))
    | inr (m', em) ↦
        let rest = scan_bytes-All n x.1 em in
        subst (λ y. (length y ≡ suc n) × All (λ b. b < 256) y)
          (some-injective _ _ (rw (ex, scan_bytes, em) at e))
          (ap suc rest.0, (scan_byte_small s ex, rest.1))
  ]
]

-- What is parsed is a MAC.
pub mac_parse-IsMac : (hex : List ℕ) {m : Mac} → mac_parse hex ≡ some m → IsMac m
unfolding mac_parse
mac_parse-IsMac hex e = elim (Bool-cases (length hex == 2 * mac_len)) [
  | inl long ↦ scan_bytes-All mac_len hex (rw long at e)
  | inr short ↦ absurd (none-ne-some _ (rw short at e))
]
