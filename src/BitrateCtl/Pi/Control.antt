-- ===== src/BitrateCtl/Pi/Control.antt =====
-- tx/bitrate_ctl.c, run_pi: the control law, the frame-rate stage and the rate to be sent.
use ar8030_transport.Base.{
  ℕ, ◌*◌, ◌/◌, Bool, true, false, not, ◌&&◌, ◌||◌, Option, none, some, ltb, leb, ◌==◌,
  if◌then◌else◌,
}
use ar8030_transport.BitrateCtl.Vars.{since}
use ar8030_transport.BitrateCtl.Pi.Double.{Double, frac, clamp}
use ar8030_transport.BitrateCtl.Pi.Vars.{PiConfig, PiState, div_of}

-- A divisor that is known.
abbrev pub known : Option ℕ → Bool
known none = false
known (some d) = true

module _ {D : Type 0} ⦃o : Double D⦄ where
  abbrev zero_d : D
  zero_d = o.of_nat 0

  -- e, of the delay.
  abbrev error_of : PiConfig D → D → D
  error_of cfg d = o.minus cfg.pi_delay_set_ms d

  abbrev pub base_of : PiConfig D → PiState D → D
  base_of cfg st = o.times (o.of_nat st.cap_kbps) cfg.margin

  -- at_floor
  unfoldable pub at_floor : PiState D → Bool
  at_floor st =
      not (st.applied_kbps == 0)
      && (leb st.applied_kbps (st.floor_kbps / div_of st.div) && leb st.div_max (div_of st.div))

  -- held_up
  unfoldable pub held_up : PiConfig D → PiState D → Bool
  held_up cfg st =
      not (st.applied_kbps == 0)
      && o.lt (o.of_nat st.applied_kbps) (o.times (o.times (base_of cfg st) st.k) (frac 9 10))

  -- The integrator's step, with anti-windup.
  unfoldable pub integrate : PiConfig D → D → D → PiState D → D
  unfolding at_floor held_up
  integrate cfg e dt st =
      let ki = (if o.lt e zero_d then cfg.pi_ki_down else cfg.pi_ki_up) in
      if (o.lt zero_d e && (not (held_up cfg st) && ltb st.applied_kbps cfg.max_kbps))
        || (o.lt e zero_d && not (at_floor st))
      then o.plus st.k_i (o.times (o.times ki e) dt)
      else st.k_i

  -- The least climb after a disturbance.
  unfoldable pub recover : PiConfig D → ℕ → D → D → PiState D → D → D
  recover cfg now e dt st k_i =
      if o.lt zero_d cfg.pi_recover_per_s
        && (o.lt zero_d e
            && (not (held_up cfg st)
                && (o.lt k_i (o.of_nat 1)
                    && (st.last_disturb_ms == 0 || leb 1000 (since now st.last_disturb_ms)))))
      then o.plus k_i (o.times cfg.pi_recover_per_s dt)
      else k_i

  -- k's lower bound.
  abbrev pub k_min_of : PiConfig D → PiState D → D
  k_min_of cfg st = o.over cfg.pi_k_min (o.of_nat st.div_max)

  -- The integrator and k, of the delay and the time since the last round.
  unfoldable pub control : PiConfig D → ℕ → D → D → PiState D → PiState D
  unfolding integrate recover clamp
  control cfg now d dt st =
      let e = error_of cfg d in
      let kp = (if o.lt e zero_d then cfg.pi_kp_down else cfg.pi_kp_up) in
      let climbed = recover cfg now e dt st (integrate cfg e dt st) in
      let k_i = clamp (k_min_of cfg st) cfg.pi_k_max climbed in
      record st { k_i = k_i; k = clamp (k_min_of cfg st) cfg.pi_k_max (o.plus k_i (o.times kp e)) }

  -- Whether the round marks the link as congested.
  unfoldable pub is_congested : PiConfig D → ℕ → D → PiState D → Bool
  is_congested cfg now d st =
      o.lt (o.times cfg.pi_delay_set_ms (o.of_nat 2)) d
      || (not (st.last_severe_ms == 0) && ltb (since now st.last_severe_ms) 1500)

  -- The floor of the frame rate that a divisor leaves.
  abbrev pub floor_at : ℕ → ℕ → D
  floor_at floor div = o.over (o.of_nat floor) (o.of_nat div)

  -- The divisor wanted, and the timer of a stage up.
  unfoldable pub stage : PiConfig D → ℕ → D → PiState D → ℕ × PiState D
  stage cfg now target st =
      let cur = div_of st.div in
      let up_since = (if st.div_up_since_ms == 0 then now else st.div_up_since_ms) in
      let reset = record st { div_up_since_ms = 0 } in
      if not (known st.div && ltb 1 st.div_max)
      then (cur, st)
      else if o.lt target (floor_at st.floor_kbps cur) && leb (cur * 2) st.div_max
      then (cur * 2, reset)
      else if ltb 1 cur
          && not (o.lt target (o.times (floor_at st.floor_kbps (cur / 2)) (frac 125 100)))
      then (
        (if leb cfg.fps_recovery_ms (since now up_since) then cur / 2 else cur),
        record st { div_up_since_ms = up_since },
      )
      else (cur, reset)

  -- The slew limit upward.
  unfoldable pub slewed : PiConfig D → D → PiState D → D → D
  slewed cfg dt st target =
      let cap_up =
        o.times (o.of_nat st.applied_kbps) (o.plus (o.of_nat 1) (o.times cfg.pi_slew_up dt)) in
      if not (st.applied_kbps == 0)
        && (o.lt (o.of_nat st.applied_kbps) target && o.lt cap_up target)
      then cap_up
      else target

  -- t: the target above the floor of the frame rate it is sent with, and below the maximum.
  unfoldable pub rate_of : PiConfig D → ℕ → ℕ → D → ℕ
  unfolding clamp
  rate_of cfg floor div target = o.trunc (clamp (floor_at floor div) (o.of_nat cfg.max_kbps) target)

  -- A change too small to be sent: an increase under 5% less than a second after the last change, a
  -- decrease under 3% with no disturbance, or none at all.
  unfoldable pub held : ℕ → ℕ → Bool → PiState D → Bool
  held now t why st =
      let applied = o.of_nat st.applied_kbps in
      let rel = o.over (o.minus (o.of_nat t) applied) applied in
      let small =
        (if o.lt zero_d rel
          then o.lt rel (frac 5 100) && not (leb 1000 (since now st.last_apply_ms))
          else o.lt (o.minus zero_d rel) (frac 3 100) && not why) in
      not (st.applied_kbps == 0) && (small || t == st.applied_kbps)
