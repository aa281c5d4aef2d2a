-- ===== src/BitrateCtl/Cut.antt =====
-- tx/bitrate_ctl.c, apply_cut: a cut that waybeam refuses is retried closer to the current rate.
use ar8030_transport.Base.{
  ℕ, zero, suc, ◌+◌, ◌-◌, ◌*◌, ◌/◌, ◌≤◌, ◌<◌, ◌≡◌, not, ◌||◌, arith, leb, ◌==◌, if◌then◌else◌,
  Bool-cases, inl, inr, u32,
}
use ar8030_transport.BitrateCtl.Vars.{learn_floor}

-- The requests to waybeam's /api/v1/live/set.
pub data Request : Type 0 where
  bitrate : ℕ → Request
  bitrate_and_roi : ℕ → Request
  roi_on roi_off : Request
  fps_div : ℕ → Request
  fps_div_and_bitrate : ℕ → ℕ → Request

-- What `apply_cut` leaves: its result, `*kbps`, `*floor_kbps`, and the world.
pub record Cut (W : Type 0) : Type 0 where
  pub status : ℕ
  pub kbps : ℕ
  pub floor_kbps : ℕ
  pub world : W

module _ {W : Type 0} (http : W → Request → ℕ × W) where
  -- The loop, with `n` attempts left. `*floor_kbps` is the full frame rate's.
  unfoldable pub cut_from : ℕ → ℕ → ℕ → ℕ → ℕ → ℕ → W → Cut W
  cut_from zero status kbps current floor div w = record {
    status = status;
    kbps = kbps;
    floor_kbps = floor;
    world = w;
  }
  cut_from (suc n) status kbps current floor div w =
      let (answer, w') = http w (bitrate kbps) in
      let floor' = learn_floor floor answer (u32 (kbps * div)) in
      let rest = cut_from n answer (kbps + (current - kbps) / 2) current floor' div w' in
      if not (answer == 409)
      then record { status = answer; kbps = kbps; floor_kbps = floor; world = w' }
      else if leb current kbps || leb (current - kbps) 32
      then record { status = answer; kbps = kbps; floor_kbps = floor'; world = w' }
      else rest

  unfoldable pub apply_cut : ℕ → ℕ → ℕ → ℕ → W → Cut W
  unfolding cut_from
  apply_cut kbps current floor div w = cut_from 5 0 kbps current floor div w

  -- What waybeam documents of 409: the rate is below its own floor, here at most `real` at the full
  -- frame rate.
  pub record Refuses (real : ℕ) : Type 0 where
    pub below : (w : W) (kbps : ℕ) → (http w (bitrate kbps)).0 ≡ 409 → kbps < real
    pub below_roi : (w : W) (kbps : ℕ) → (http w (bitrate_and_roi kbps)).0 ≡ 409 → kbps < real

  -- The rate asked for stays between the one wanted and the current one; the floor only rises, and
  -- never above waybeam's own.
  pub record IsCut (kbps current floor real : ℕ) (c : Cut W) : Type 0 where
    pub not_lower : kbps ≤ c.kbps
    pub not_higher : c.kbps ≤ current
    pub floor_rises : floor ≤ c.floor_kbps
    pub floor_real : c.floor_kbps ≤ real

  pub learn_floor_lem :
      (floor status kbps real : ℕ)
      → (status ≡ 409 → kbps < real)
      → floor ≤ real
      → real < 4294967296
      → (floor ≤ learn_floor floor status kbps) × (learn_floor floor status kbps ≤ real)
  unfolding learn_floor
  learn_floor_lem floor status kbps real low f small = ground arith

  pub le-learn_floor : (floor status kbps : ℕ) → floor ≤ learn_floor floor status kbps
  unfolding learn_floor
  le-learn_floor floor status kbps = ground arith

  -- The rate and the floor of a cut, at any divisor and whatever waybeam answers.
  cut_from_bounds :
      (n status kbps current floor div : ℕ) (w : W)
      → kbps ≤ current
      → let c = cut_from n status kbps current floor div w in
        (kbps ≤ c.kbps) × (c.kbps ≤ current) × (floor ≤ c.floor_kbps)
  unfolding cut_from
  cut_from_bounds zero status kbps current floor div w le = omega arith
  cut_from_bounds (suc n) status kbps current floor div w le =
      let answer : ℕ = (http w (bitrate kbps)).0 in
      let learned = le-learn_floor floor answer (u32 (kbps * div)) in
      let rest =
        cut_from_bounds n answer (kbps + (current - kbps) / 2) current
          (learn_floor floor answer (u32 (kbps * div))) div (http w (bitrate kbps)).1
          (omega arith) in
      elim (Bool-cases (answer == 409)) [
        | inr other ↦ rw other (omega arith)
        | inl refused ↦ elim (Bool-cases (leb current kbps || leb (current - kbps) 32)) [
          | inl near ↦ rw (refused, near) (omega (arith, learned))
          | inr far ↦ rw (refused, far) (omega (arith, learned, rest))
        ]
      ]

  pub apply_cut_bounds :
      (kbps current floor div : ℕ) (w : W)
      → kbps ≤ current
      → let c = apply_cut kbps current floor div w in
        (kbps ≤ c.kbps) × (c.kbps ≤ current) × (floor ≤ c.floor_kbps)
  unfolding apply_cut
  apply_cut_bounds kbps current floor div w le = cut_from_bounds 5 0 kbps current floor div w le

  module _ (real : ℕ) (small : real < 4294967296) (r : Refuses real) where
    cut_from-real :
        (n status kbps current floor : ℕ) (w : W)
        → kbps ≤ current
        → floor ≤ real
        → (cut_from n status kbps current floor 1 w).floor_kbps ≤ real
    unfolding cut_from
    cut_from-real zero status kbps current floor w le f = omega arith
    cut_from-real (suc n) status kbps current floor w le f =
        let answer : ℕ = (http w (bitrate kbps)).0 in
        let learned =
          learn_floor_lem floor answer (u32 (kbps * 1)) real (λ e. omega (arith, r.below w kbps e))
            f small in
        let rest =
          cut_from-real n answer (kbps + (current - kbps) / 2) current
            (learn_floor floor answer (u32 (kbps * 1))) (http w (bitrate kbps)).1 (omega arith)
            learned.1 in
        elim (Bool-cases (answer == 409)) [
          | inr other ↦ rw other (omega arith)
          | inl refused ↦ elim (Bool-cases (leb current kbps || leb (current - kbps) 32)) [
            | inl near ↦ rw (refused, near) (omega (arith, learned))
            | inr far ↦ rw (refused, far) (omega (arith, learned, rest))
          ]
        ]

    -- Whatever waybeam answers, if it refuses only rates below its own floor: the rate a cut at the
    -- full frame rate ends at lies between the one wanted and the current one, and the learned floor
    -- only rises, up to waybeam's own at most.
    pub apply_cut-IsCut :
        (kbps current floor : ℕ) (w : W)
        → kbps ≤ current
        → floor ≤ real
        → IsCut kbps current floor real (apply_cut kbps current floor 1 w)
    unfolding apply_cut
    apply_cut-IsCut kbps current floor w le f =
        let b = cut_from_bounds 5 0 kbps current floor 1 w le in
        record {
          not_lower = b.0;
          not_higher = b.1;
          floor_rises = b.2;
          floor_real = cut_from-real 5 0 kbps current floor w le f;
        }
