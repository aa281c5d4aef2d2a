-- ===== src/BitrateCtl/Pi/Bounds.antt =====
-- What a round of `run_pi` keeps of k, the rate, the floor and the divisor.
use mathlib.Core.Path.{subst}
use ar8030_transport.Base.{
  ℕ, ◌*◌, ◌/◌, ◌≤◌, ◌<◌, ◌≡◌, ◌⊎◌, refl, sym, ap, ==_iff, inl, inr, Bool, false, not, ◌&&◌, arith,
  ltb, leb, ◌==◌, if◌then◌else◌, Bool-cases, some, min, u32,
}
use ar8030_transport.BitrateCtl.Vars.{since, accepted}
use ar8030_transport.BitrateCtl.Cut.{Request, bitrate, apply_cut, apply_cut_bounds, le-learn_floor}
use ar8030_transport.BitrateCtl.Pi.Double.{Double, clamp, frac, IsWithin, IsTruncated}
use ar8030_transport.BitrateCtl.Pi.Vars.{PiConfig, PiState, div_of, full_div}
use ar8030_transport.BitrateCtl.Pi.Stages.{no_divisor, fps_request}
use ar8030_transport.BitrateCtl.Pi.Control.{floor_at, stage, rate_of, held, known}
use ar8030_transport.BitrateCtl.Pi.Loop.{change_div, send_rate, send}

-- A power of two.
pub data IsStage : ℕ → Type 0 where
  full_rate : {n : ℕ} → n ≡ 1 → IsStage n
  half_rate : {n : ℕ} (m : ℕ) → IsStage m → n ≡ m * 2 → IsStage n

pub IsStage-pos : {n : ℕ} → IsStage n → 0 < n
IsStage-pos (full_rate e) = omega arith
IsStage-pos (half_rate m s e) = omega (arith, IsStage-pos s)

IsStage-eq : {n m : ℕ} → n ≡ m → IsStage n → IsStage m
IsStage-eq e s = subst IsStage e s

IsStage-half : {n : ℕ} → IsStage n → 1 < n → IsStage (n / 2)
IsStage-half (full_rate e) h = absurd (omega arith)
IsStage-half (half_rate m s e) h = IsStage-eq (omega arith) s

-- The state of the loop between two rounds.
pub record IsValid {D : Type 0} (cfg : PiConfig D) (st : PiState D) : Type 0 where
  pub applied_le : st.applied_kbps ≤ cfg.max_kbps
  pub floor_ge : cfg.min_kbps ≤ st.floor_kbps
  pub div_stage : IsStage (div_of st.div)
  pub div_le : div_of st.div ≤ full_div cfg
  pub div_max_le : st.div_max ≤ full_div cfg

module _ {D : Type 0} ⦃o : Double D⦄ where
  pub clamp-IsWithin :
      (law : IsTruncated D) (lo hi x : D) → o.lt hi lo ≡ false → IsWithin lo hi (clamp lo hi x)
  unfolding clamp
  clamp-IsWithin law lo hi x h = elim (Bool-cases (o.lt x lo)) [
    | inl below ↦ rw (below, h) (record { not_below = law.irrefl lo; not_above = h })
    | inr fits ↦ elim (Bool-cases (o.lt hi x)) [
      | inl above ↦ rw (fits, above) (record { not_below = h; not_above = law.irrefl hi })
      | inr low ↦ rw (fits, low) (record { not_below = fits; not_above = low })
    ]
  ]

  -- The clamp is at its upper bound, or between the two.
  clamp_cases :
      (law : IsTruncated D) (lo hi x : D) → (clamp lo hi x ≡ hi) ⊎ IsWithin lo hi (clamp lo hi x)
  unfolding clamp
  clamp_cases law lo hi x = elim (Bool-cases (o.lt x lo)) [
    | inl below ↦ elim (Bool-cases (o.lt hi lo)) [
      | inl above ↦ rw (below, above) (inl refl)
      | inr fits ↦ rw (below, fits) (inr (record { not_below = law.irrefl lo; not_above = fits }))
    ]
    | inr high ↦ elim (Bool-cases (o.lt hi x)) [
      | inl above ↦ rw (high, above) (inl refl)
      | inr fits ↦ rw (high, fits) (inr (record { not_below = high; not_above = fits }))
    ]
  ]

  pub rate_of_bounds :
      (law : IsTruncated D) (cfg : PiConfig D) (floor div : ℕ) (target : D)
      → 0 < div
      → cfg.max_kbps < 4294967296
      → (min (floor / div) cfg.max_kbps ≤ rate_of cfg floor div target)
        × (rate_of cfg floor div target ≤ cfg.max_kbps)
  unfolding rate_of
  rate_of_bounds law cfg floor div target pos small =
      let top : D = o.of_nat cfg.max_kbps in
      elim (clamp_cases law (floor_at floor div) top target) [
        | inl e ↦ omega (arith, ap o.trunc e, law.trunc_of_nat cfg.max_kbps small)
        | inr w ↦ omega (
          arith,
          law.trunc_within (clamp (floor_at floor div) top target) floor div cfg.max_kbps pos small
              w.not_below w.not_above,
        )
      ]

  -- The three tests of `stage`.
  is_known : PiState D → Bool
  is_known st = known st.div && ltb 1 st.div_max

  wants_less : PiState D → D → Bool
  wants_less st target =
      o.lt target (floor_at st.floor_kbps (div_of st.div)) && leb (div_of st.div * 2) st.div_max

  wants_more : PiState D → D → Bool
  wants_more st target =
      ltb 1 (div_of st.div)
      && not (o.lt target (o.times (floor_at st.floor_kbps (div_of st.div / 2)) (frac 125 100)))

  -- `stage` moves the timer of a stage up at most, and asks for a stage that is not above the longest
  -- one.
  pub stage_lem :
      (cfg : PiConfig D) (now : ℕ) (target : D) (st : PiState D)
      → IsValid cfg st
      → (up : ℕ) × ((stage cfg now target st).1 ≡ record st { div_up_since_ms = up })
        × IsStage (stage cfg now target st).0
        × ((stage cfg now target st).0 ≤ full_div cfg)
  unfolding stage is_known wants_less wants_more
  stage_lem cfg now target st v = elim (Bool-cases (is_known st)) [
    | inr off ↦ rw off (st.div_up_since_ms, refl, v.div_stage, v.div_le)
    | inl on ↦ elim (Bool-cases (wants_less st target)) [
      | inl less ↦
          rw (on, less) (0, refl, half_rate _ v.div_stage refl, ground (arith, v.div_max_le))
      | inr enough ↦ elim (Bool-cases (wants_more st target)) [
        | inr same ↦ rw (on, enough, same) (0, refl, v.div_stage, v.div_le)
        | inl more ↦
            let up = (if st.div_up_since_ms == 0 then now else st.div_up_since_ms) in
            elim (Bool-cases (leb cfg.fps_recovery_ms (since now up))) [
              | inl due ↦
                  rw (on, enough, more, due)
                    (up, refl, IsStage-half v.div_stage (ground arith), omega (arith, v.div_le))
              | inr wait ↦ rw (on, enough, more, wait) (up, refl, v.div_stage, v.div_le)
            ]
      ]
    ]
  ]

  -- What `send` leaves alone, and the rate it leaves.
  pub record IsSent (cfg : PiConfig D) (t want : ℕ) (st st' : PiState D) : Type 0 where
    pub same_k : st'.k ≡ st.k
    pub same_k_i : st'.k_i ≡ st.k_i
    pub floor_rises : st.floor_kbps ≤ st'.floor_kbps
    pub max_falls : (st'.div_max ≤ st.div_max) ⊎ (st'.div_max ≡ 1)
    pub which_div : (st'.div ≡ st.div) ⊎ (st'.div ≡ some want)
    pub rate :
        (st'.applied_kbps ≡ st.applied_kbps)
        ⊎ ((t ≤ st'.applied_kbps) × (st'.applied_kbps ≤ cfg.max_kbps) × (div_of st'.div ≡ want))

  module _ {W : Type 0} (http : W → Request → ℕ × W) (cfg : PiConfig D) where
    unsent : (t : ℕ) (st : PiState D) → IsSent cfg t (div_of st.div) st st
    unsent t st = record {
      same_k = refl;
      same_k_i = refl;
      floor_rises = omega arith;
      max_falls = inl (omega arith);
      which_div = inl refl;
      rate = inl refl;
    }

    change_div-IsSent :
        (now want t : ℕ) (st : PiState D) (w : W)
        → t ≤ cfg.max_kbps
        → IsSent cfg t want st (change_div http now want t (st, w)).0
    unfolding change_div
    change_div-IsSent now want t st w small =
        let status : ℕ = (http w (fps_request want t)).0 in
        elim (Bool-cases (no_divisor status)) [
          | inl none_there ↦ rw none_there (record {
            same_k = refl;
            same_k_i = refl;
            floor_rises = omega arith;
            max_falls = inr refl;
            which_div = inl refl;
            rate = inl refl;
          })
          | inr there ↦ elim (Bool-cases (accepted status)) [
            | inl ok ↦
                rw (there, ok)
                  (record {
                    same_k = refl;
                    same_k_i = refl;
                    floor_rises = omega arith;
                    max_falls = inl (omega arith);
                    which_div = inr refl;
                    rate = inr (omega arith, omega arith, refl);
                  })
            | inr bad ↦
                rw (there, bad)
                  (record {
                    same_k = refl;
                    same_k_i = refl;
                    floor_rises = le-learn_floor http st.floor_kbps status (u32 (t * want));
                    max_falls = inl (omega arith);
                    which_div = inl refl;
                    rate = inl refl;
                  })
          ]
        ]

    send_rate-IsSent :
        (now t : ℕ) (st : PiState D) (w : W)
        → t ≤ cfg.max_kbps
        → st.applied_kbps ≤ cfg.max_kbps
        → IsSent cfg t (div_of st.div) st (send_rate http now t (st, w)).0
    unfolding send_rate
    send_rate-IsSent now t st w small fits =
        let cut = not (st.applied_kbps == 0) && ltb t st.applied_kbps in
        let c = apply_cut http t st.applied_kbps st.floor_kbps (div_of st.div) w in
        elim (Bool-cases cut) [
          | inl lower ↦
              let b =
                apply_cut_bounds http t st.applied_kbps st.floor_kbps (div_of st.div) w
                  (ground arith) in
              elim (Bool-cases (accepted c.status)) [
                | inl ok ↦
                    rw (lower, ok)
                      (record {
                        same_k = refl;
                        same_k_i = refl;
                        floor_rises = b.2;
                        max_falls = inl (omega arith);
                        which_div = inl refl;
                        rate = inr (b.0, omega (arith, b.1), refl);
                      })
                | inr bad ↦
                    rw (lower, bad)
                      (record {
                        same_k = refl;
                        same_k_i = refl;
                        floor_rises = b.2;
                        max_falls = inl (omega arith);
                        which_div = inl refl;
                        rate = inl refl;
                      })
              ]
          | inr higher ↦ elim (Bool-cases (accepted (http w (bitrate t)).0)) [
            | inl ok ↦
                rw (higher, ok)
                  (record {
                    same_k = refl;
                    same_k_i = refl;
                    floor_rises = omega arith;
                    max_falls = inl (omega arith);
                    which_div = inl refl;
                    rate = inr (omega arith, omega arith, refl);
                  })
            | inr bad ↦ rw (higher, bad) (unsent t st)
          ]
        ]

    pub send-IsSent :
        (now want t : ℕ) (why : Bool) (st : PiState D) (w : W)
        → t ≤ cfg.max_kbps
        → st.applied_kbps ≤ cfg.max_kbps
        → IsSent cfg t want st (send http now want t why (st, w)).0
    unfolding send
    send-IsSent now want t why st w small fits = elim (Bool-cases (want == div_of st.div)) [
      | inr other ↦ rw other (change_div-IsSent now want t st w small)
      | inl same ↦
          let e : div_of st.div ≡ want = sym ((==_iff want (div_of st.div)).0 same) in
          elim (Bool-cases (held now t why st)) [
            | inl hold ↦ rw (same, hold) (subst (λ x. IsSent cfg t x st st) e (unsent t st))
            | inr go ↦
                rw (same, go)
                  (subst (λ x. IsSent cfg t x st (send_rate http now t (st, w)).0) e
                    (send_rate-IsSent now t st w small fits))
          ]
    ]
