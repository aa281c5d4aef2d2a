-- ===== src/Lifecycle/Adc/Table.antt =====
-- The thermistor table: warmer for every higher voltage, within its ends.
use native.Mathlib.Nat.{
  div-mul-le_self, le-div_iff_mul-le, div-le_of_le-mul, mul-le-mul_left, mul_comm,
}
use ar8030_transport.Base.{
  ℕ, ◌-◌, ◌*◌, ◌/◌, ◌≤◌, ◌<◌, ◌≡◌, sym, true, false, Option, none, some, List, [], ◌∷◌, ltb, arith,
  Bool-cases, inl, inr, ltb→lt,
}
use ar8030_transport.Lifecycle.Adc.{first, rows, between, lookup_from, mv_to_c10}

div_mono : (k a b : ℕ) → 0 < k → a ≤ b → a / k ≤ b / k
div_mono k a b pos h =
    (le-div_iff_mul-le {x = a / k} {y = b} pos).1 (omega (arith, div-mul-le_self a k))

-- The rows after a row rise with it, and end at 130 degrees at the most.
abbrev Rising : ℕ × ℕ → List (ℕ × ℕ) → Type 0
Rising (c0, v0) [] = c0 ≤ 130
Rising (c0, v0) ((c1, v1) ∷ rows) = (c0 ≤ c1) × (v0 < v1) × Rising (c1, v1) rows

between_le :
    (c0 v0 c1 v1 mv : ℕ) → c0 ≤ c1 → v0 ≤ mv → mv < v1 → between (c0, v0) (c1, v1) mv ≤ c1 * 10
unfolding between
between_le c0 v0 c1 v1 mv hc h k =
    let d = c1 * 10 - c0 * 10 in
    let part : d * (mv - v0) ≤ d * (v1 - v0) = mul-le-mul_left d (omega arith) in
    let swap : d * (v1 - v0) ≡ (v1 - v0) * d = mul_comm d (v1 - v0) in
    let below : d * (mv - v0) / (v1 - v0) ≤ d = div-le_of_le-mul (v1 - v0) (rw (sym swap) part) in
    omega (arith, below, hc)

between_mono :
    (c0 v0 c1 v1 mv mv' : ℕ)
    → v0 < v1
    → mv ≤ mv'
    → between (c0, v0) (c1, v1) mv ≤ between (c0, v0) (c1, v1) mv'
unfolding between
between_mono c0 v0 c1 v1 mv mv' hv h = omega (
  arith,
  div_mono (v1 - v0) ((c1 * 10 - c0 * 10) * (mv - v0)) ((c1 * 10 - c0 * 10) * (mv' - v0))
      (omega arith) (mul-le-mul_left (c1 * 10 - c0 * 10) (omega arith)),
)

between_ge : (c0 v0 c1 v1 mv : ℕ) → c0 * 10 ≤ between (c0, v0) (c1, v1) mv
unfolding between
between_ge c0 v0 c1 v1 mv = omega arith

-- The loop answers within its first row and 130 degrees.
lookup_bounds :
    (c0 v0 : ℕ) (rows : List (ℕ × ℕ)) (mv : ℕ)
    → Rising (c0, v0) rows
    → v0 ≤ mv
    → (c0 * 10 ≤ lookup_from (c0, v0) rows mv) × (lookup_from (c0, v0) rows mv ≤ 1300)
unfolding lookup_from
lookup_bounds c0 v0 [] mv r h = (omega (arith, r), omega arith)
lookup_bounds c0 v0 ((c1, v1) ∷ rows) mv (hc, hv, r) h = elim (Bool-cases (ltb mv v1)) [
  | inl e ↦ rw e (
    between_ge c0 v0 c1 v1 mv,
    omega (
      arith,
      between_le c0 v0 c1 v1 mv hc h (ltb→lt _ _ e),
      lookup_bounds c1 v1 rows v1 r (omega arith),
    ),
  )
  | inr e ↦
      let ih = lookup_bounds c1 v1 rows mv r (ground arith) in rw e (omega (arith, ih.0, hc), ih.1)
]

lookup_mono :
    (c0 v0 : ℕ) (rows : List (ℕ × ℕ)) (mv mv' : ℕ)
    → Rising (c0, v0) rows
    → v0 ≤ mv
    → mv ≤ mv'
    → lookup_from (c0, v0) rows mv ≤ lookup_from (c0, v0) rows mv'
unfolding lookup_from
lookup_mono c0 v0 [] mv mv' r h k = omega arith
lookup_mono c0 v0 ((c1, v1) ∷ rows) mv mv' (hc, hv, r) h k = elim (Bool-cases (ltb mv' v1)) [
  | inl e' ↦
      let e : ltb mv v1 ≡ true = ground (arith, ltb→lt _ _ e') in
      rw (e, e') (between_mono c0 v0 c1 v1 mv mv' hv k)
  | inr e' ↦ elim (Bool-cases (ltb mv v1)) [
    | inl e ↦
        rw (e, e')
          (omega (
            arith,
            between_le c0 v0 c1 v1 mv hc h (ltb→lt _ _ e),
            (lookup_bounds c1 v1 rows mv' r (ground arith)).0,
          ))
    | inr e ↦ rw (e, e') (lookup_mono c1 v1 rows mv mv' r (ground arith) k)
  ]
]

-- A temperature, or none, that is no more than another: only a lower voltage has none.
abbrev pub NoWarmer : Option ℕ → Option ℕ → Type 0
NoWarmer none t = Unit
NoWarmer (some a) none = ⊥
NoWarmer (some a) (some b) = (a ≤ b) × (b ≤ 1300)

-- A higher voltage never reads as a lower temperature, nor as none when the lower one reads as
-- one, and no reading is above 130 degrees.
pub mv_to_c10_mono : (mv mv' : ℕ) → mv ≤ mv' → NoWarmer (mv_to_c10 mv) (mv_to_c10 mv')
unfolding mv_to_c10
mv_to_c10_mono mv mv' h = elim (Bool-cases (ltb mv 500)) [
  | inl e ↦ rw e tt
  | inr e ↦
      let e' : ltb mv' 500 ≡ false = ground arith in
      rw (e, e')
        (
          lookup_mono 0 500 rows mv mv' rising (ground arith) h,
          (lookup_bounds 0 500 rows mv' rising (ground arith)).1,
        )
]
  where
    rising : Rising first rows
    rising = ground arith
