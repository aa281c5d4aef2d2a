-- ===== src/ChunkStream/Scan.antt =====
-- The resync scan: it stops at the first complete magic, and passes over none.
use native.Mathlib.Decide.{dec_lt}
use ar8030_transport.Base.{
  ℕ, zero, suc, ◌+◌, ◌-◌, ◌≤◌, ◌<◌, ◌≡◌, ◌⊎◌, inl, inr, refl, ap, ◌∙◌, ◌++◌, ◌==◌, ◌&&◌, List, [],
  ◌∷◌, Bool, true, false, Option, none, some, arith, length, drop, leb, if◌then◌else◌, Bool-cases,
  Option-cases, drop-drop, length-drop, drop-append_le,
}
use ar8030_transport.ChunkStream.{memchr, starts_with, magic_bytes, scan_from, scan_for_magic}

-- A magic stands at offset `k`.
abbrev pub magic_at : List ℕ → ℕ → Bool
magic_at buf k = starts_with (drop k buf) magic_bytes

memchr-none :
    (c n : ℕ) (xs m : List ℕ) (k : ℕ)
    → memchr c n xs ≡ none
    → k < n
    → starts_with (drop k xs) (c ∷ m) ≡ false
unfolding memchr starts_with
memchr-none c zero xs m k e h = absurd (omega arith)
memchr-none c (suc n) [] m zero e h = refl
memchr-none c (suc n) [] m (suc k) e h = refl
memchr-none c (suc n) (x ∷ xs) m zero e h = ground arith
memchr-none c (suc n) (x ∷ xs) m (suc k) e h = ground (arith, memchr-none c n xs m k)

memchr-some :
    (c n : ℕ) (xs m : List ℕ) (p k : ℕ)
    → memchr c n xs ≡ some p
    → (p < n) × (k < p → starts_with (drop k xs) (c ∷ m) ≡ false)
unfolding memchr starts_with
memchr-some c zero xs m p k e = absurd (cc)
memchr-some c (suc n) [] m p k e = absurd (cc)
memchr-some c (suc n) (x ∷ xs) m p zero e = ground (arith, memchr-some c n xs m (p - 1) 0)
memchr-some c (suc n) (x ∷ xs) m p (suc k) e = ground (arith, memchr-some c n xs m (p - 1) k)

starts_with_short : (xs m : List ℕ) → length xs < length m → starts_with xs m ≡ false
unfolding starts_with
starts_with_short xs [] h = absurd (omega arith)
starts_with_short [] (y ∷ m) h = refl
starts_with_short (x ∷ xs) (y ∷ m) h = ground (arith, starts_with_short xs m)

-- No magic from offset `i` up to `j`.
abbrev pub ClearTo : List ℕ → ℕ → ℕ → Type 0
ClearTo buf i j = (k : ℕ) → i ≤ k → k < j → magic_at buf k ≡ false

clear_by_memchr :
    (buf : List ℕ) (i k n : ℕ)
    → i ≤ k
    → memchr 0x41 n (drop i buf) ≡ none
    → k < i + n
    → magic_at buf k ≡ false
clear_by_memchr buf i k n h e lt =
    let d : i + (k - i) ≡ k = omega arith in
    rw (← d, ← drop-drop (k - i) i buf) (memchr-none 0x41 n (drop i buf) _ (k - i) e (omega arith))

clear_before :
    (buf : List ℕ) (i k n p : ℕ)
    → i ≤ k
    → memchr 0x41 n (drop i buf) ≡ some p
    → k < i + p
    → magic_at buf k ≡ false
clear_before buf i k n p h e lt =
    let d : i + (k - i) ≡ k = omega arith in
    rw (← d, ← drop-drop (k - i) i buf)
      ((memchr-some 0x41 n (drop i buf) _ p (k - i) e).1 (omega arith))

magic_short : (buf : List ℕ) (k : ℕ) → length buf < k + 4 → magic_at buf k ≡ false
magic_short buf k h = starts_with_short (drop k buf) magic_bytes (omega (arith, length-drop k buf))

-- What the loop found, started at offset `i`.
abbrev Scanned : List ℕ → ℕ → Option ℕ → Type 0
Scanned buf i none = ClearTo buf i (length buf)
Scanned buf i (some j) = (i ≤ j) × (j + 4 ≤ length buf) × (magic_at buf j ≡ true) × ClearTo buf i j

extend_clear :
    (buf : List ℕ) (i p : ℕ) (o : Option ℕ)
    → ClearTo buf i (i + p + 1)
    → Scanned buf (i + p + 1) o
    → Scanned buf i o
extend_clear buf i p none c h =
    λ k ik kl. elim (dec_lt k (i + p + 1)) [ yes lt ↦ c k ik lt | no ge ↦ h k (omega arith) kl ]
extend_clear buf i p (some j) c h = (
  omega arith,
  h.1,
  h.2,
  λ k ik kj. elim (dec_lt k (i + p + 1)) [ yes lt ↦ c k ik lt | no ge ↦ h.3 k (omega arith) kj ],
)

clear_step :
    (buf : List ℕ) (i n p : ℕ)
    → memchr 0x41 n (drop i buf) ≡ some p
    → magic_at buf (i + p) ≡ false
    → ClearTo buf i (i + p + 1)
clear_step buf i n p e f k ik kl = elim (dec_lt k (i + p)) [
  | yes lt ↦ clear_before buf i k n p ik e lt
  | no ge ↦ let d : k ≡ i + p = omega arith in rw d f
]

scan_from-Scanned :
    (fuel i : ℕ) (buf : List ℕ) → length buf < i + fuel → Scanned buf i (scan_from fuel i buf)
unfolding scan_from
scan_from-Scanned zero i buf h = λ k ik kl. absurd (omega arith)
scan_from-Scanned (suc fuel) i buf h = elim (Bool-cases (leb 4 (length buf - i))) [
  | inl room ↦
      rw (room, Scanned, scan_from)
        (elim (Option-cases (memchr 0x41 (length buf - i - 3) (drop i buf))) [
          | inl e ↦
              rw (e, Scanned, scan_from)
                (λ k ik kl. elim (dec_lt k (i + (length buf - i - 3))) [
                  | yes lt ↦ clear_by_memchr buf i k (length buf - i - 3) ik e lt
                  | no ge ↦ magic_short buf k (ground arith)
                ])
          | inr (p, e) ↦
              rw (e, Scanned, scan_from)
                (elim (Bool-cases (magic_at buf (i + p))) [
                  | inl hit ↦
                      rw (hit, Scanned)
                        (
                          omega arith,
                          ground
                              (arith, memchr-some 0x41 (length buf - i - 3) (drop i buf) [] p 0 e),
                          hit,
                          λ k ik kl. clear_before buf i k (length buf - i - 3) p ik e kl,
                        )
                  | inr miss ↦
                      rw (miss, Scanned)
                        (extend_clear buf i p _ (clear_step buf i (length buf - i - 3) p e miss)
                          (scan_from-Scanned fuel (i + p + 1) buf (omega arith)))
                ])
        ])
  | inr short ↦ rw (short, Scanned, scan_from) (λ k ik kl. magic_short buf k (ground arith))
]

starts_with-append :
    (xs ys m : List ℕ) → length m ≤ length xs → starts_with (xs ++ ys) m ≡ starts_with xs m
unfolding starts_with
starts_with-append [] ys [] h = refl
starts_with-append (x ∷ xs) ys [] h = refl
starts_with-append [] ys (y ∷ m) h = absurd (omega arith)
starts_with-append (x ∷ xs) ys (y ∷ m) h =
    ap (λ b. x == y && b) (starts_with-append xs ys m (omega arith))

-- Whether a magic stands at an offset is settled once its four bytes are there.
magic_at-append :
    (buf later : List ℕ) (k : ℕ) → k + 4 ≤ length buf → magic_at (buf ++ later) k ≡ magic_at buf k
magic_at-append buf later k h =
    rw (drop-append_le k buf later (omega arith))
      (starts_with-append (drop k buf) later magic_bytes (omega (arith, length-drop k buf)))

-- No magic before offset `j`, whatever bytes are read later.
abbrev pub NoneLost : List ℕ → ℕ → Type 0
NoneLost buf j = (later : List ℕ) (k : ℕ) → k < j → magic_at (buf ++ later) k ≡ false

none_lost :
    (buf : List ℕ) (j : ℕ)
    → ClearTo buf 0 j
    → ((k : ℕ) → k < j → k + 4 ≤ length buf)
    → NoneLost buf j
none_lost buf j clear settled later k h =
    magic_at-append buf later k (settled k h) ∙ clear k (omega arith) h

-- `scan_for_magic` returns an offset in the buffer before which no magic stands, nor begins one that
-- bytes still to be read would complete, and at which a complete one does stand unless fewer than four
-- bytes are left.
pub scan_for_magic_lem :
    (buf : List ℕ)
    → (scan_for_magic buf ≤ length buf)
      × ClearTo buf 0 (scan_for_magic buf)
      × ((magic_at buf (scan_for_magic buf) ≡ true) ⊎ (length buf < scan_for_magic buf + 4))
      × NoneLost buf (scan_for_magic buf)
unfolding scan_for_magic
scan_for_magic_lem buf =
    go (scan_from (suc (length buf)) 0 buf)
      (scan_from-Scanned (suc (length buf)) 0 buf (omega arith))
  where
    go :
        (o : Option ℕ)
        → Scanned buf 0 o
        → let j : ℕ = elim o [
          | some i ↦ i
          | none ↦ if leb 3 (length buf) then length buf - 3 else 0
        ] in
          (j ≤ length buf)
          × ClearTo buf 0 j
          × ((magic_at buf j ≡ true) ⊎ (length buf < j + 4))
          × NoneLost buf j
    go none h = elim (Bool-cases (leb 3 (length buf))) [
      | inl e ↦
          let clear : ClearTo buf 0 (length buf - 3) = λ k ik kl. h k ik (omega arith) in
          rw e (
            omega arith,
            clear,
            inr (ground arith),
            none_lost buf (length buf - 3) clear (λ k l. ground arith),
          )
      | inr e ↦ rw e (
        omega arith,
        λ k ik kl. h k ik (omega arith),
        inr (ground arith),
        λ later k l. absurd (omega arith),
      )
    ]
    go (some j) h = (omega arith, h.3, inl h.2, none_lost buf j h.3 (λ k l. omega (arith, h.1)))

-- A buffer that starts with a magic loses nothing.
pub scan_for_magic-zero : (buf : List ℕ) → magic_at buf 0 ≡ true → scan_for_magic buf ≡ 0
scan_for_magic-zero buf m = elim (dec_lt 0 (scan_for_magic buf)) [
  | yes p ↦ absurd (cc ((scan_for_magic_lem buf).1 0 (omega arith) p))
  | no p ↦ omega arith
]
