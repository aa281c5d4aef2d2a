-- ===== src/BitrateCtl/Pi/Double.antt =====
-- What tx/bitrate_ctl.c, run_pi, does with a C double. The operations are a parameter; a constant of
-- the source is a quotient of whole numbers, which a correctly rounded division gives as written.
use ar8030_transport.Base.{ℕ, ◌/◌, ◌≤◌, ◌<◌, ◌≡◌, Bool, false, if◌then◌else◌}

pub record Double (D : Type 0) : Type 0 where
  pub of_nat : ℕ → D  -- (double)n
  pub plus : D → D → D
  pub minus : D → D → D
  pub times : D → D → D
  pub over : D → D → D
  pub lt : D → D → Bool  -- a < b
  pub trunc : D → ℕ  -- (uint32_t)a

module _ {D : Type 0} ⦃o : Double D⦄ where
  -- n / d, a constant of the source.
  abbrev pub frac : ℕ → ℕ → D
  frac n d = o.over (o.of_nat n) (o.of_nat d)

  -- `if (x < lo) x = lo; if (x > hi) x = hi;`
  unfoldable pub clamp : D → D → D → D
  clamp lo hi x = let y = (if o.lt x lo then lo else x) in if o.lt hi y then hi else y

  -- Not below `lo` and not above `hi`.
  pub record IsWithin (lo hi x : D) : Type 0 where
    pub not_below : o.lt x lo ≡ false
    pub not_above : o.lt hi x ≡ false

-- What the proofs need: no double is below itself; the cast of a number, not NaN, between a quotient
-- of whole numbers and a uint32_t lies between that quotient, rounded down, and that uint32_t; and a
-- uint32_t survives the two casts.
pub record IsTruncated (D : Type 0) ⦃o : Double D⦄ : Type 0 where
  pub irrefl : (x : D) → o.lt x x ≡ false
  pub trunc_within :
      (x : D) (n d m : ℕ)
      → 0 < d
      → m < 4294967296
      → o.lt x (frac n d) ≡ false
      → o.lt (o.of_nat m) x ≡ false
      → (n / d ≤ o.trunc x) × (o.trunc x ≤ m)
  pub trunc_of_nat : (n : ℕ) → n < 4294967296 → o.trunc (o.of_nat n) ≡ n
