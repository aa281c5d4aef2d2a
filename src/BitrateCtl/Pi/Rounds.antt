-- ===== src/BitrateCtl/Pi/Rounds.antt =====
-- Rounds of `run_pi` from the start.
use ar8030_transport.Base.{
  ℕ, ◌<◌, ◌≡◌, ◌==◌, refl, Bool-cases, inl, inr, List, [], ◌∷◌, if◌then◌else◌, ltb, arith, some,
  none,
}
use ar8030_transport.BitrateCtl.Vars.{since}
use ar8030_transport.BitrateCtl.Cut.{Request}
use ar8030_transport.BitrateCtl.Pi.Double.{Double, IsTruncated, frac}
use ar8030_transport.BitrateCtl.Pi.Vars.{PiConfig, PiState, Readings, div_of, full_div, pi_init}
use ar8030_transport.BitrateCtl.Pi.Roi.{pi_focus}
use ar8030_transport.BitrateCtl.Pi.Stages.{
  disturb, ring_cut, restart, reset_div, delay_ms, poll_capacity,
}
use ar8030_transport.BitrateCtl.Pi.Loop.{react, pi_tick, pi_ticks}
use ar8030_transport.BitrateCtl.Pi.Bounds.{full_rate, IsValid}
use ar8030_transport.BitrateCtl.Pi.Kept.{
  to, Same-trans, carry, disturb-Same, ring_cut-Same, restart-IsValid, reset_div-IsValid, poll-Same,
}
use ar8030_transport.BitrateCtl.Pi.Limits.{regulate_parts}

first_div : (n : ℕ) → div_of (if ltb 1 n then none else some 1) ≡ 1
first_div n = ground arith

full_div_pos : {D : Type 0} (cfg : PiConfig D) → 0 < full_div cfg
full_div_pos cfg = ground arith

module _ {D : Type 0} ⦃o : Double D⦄ (cfg : PiConfig D) where
  pub pi_init-IsValid : (now gen : ℕ) → IsValid cfg (pi_init cfg now gen)
  unfolding pi_init
  pi_init-IsValid now gen = record {
    applied_le = omega arith;
    floor_ge = omega arith;
    div_stage = full_rate (first_div (full_div cfg));
    div_le = omega (arith, first_div (full_div cfg), full_div_pos cfg);
    div_max_le = omega arith;
  }

  module _ (law : IsTruncated D) (small : cfg.max_kbps < 4294967296) {W : Type 0}
      (http : W → Request → ℕ × W) where
    react-IsValid :
        (i : Readings D) (dt : D) (st : PiState D) (w : W)
        → IsValid cfg st
        → IsValid cfg (react http cfg i dt (st, w)).0
    unfolding react
    react-IsValid i dt st w v =
        let x = disturb cfg i st in
        let y = ring_cut cfg i x in
        let st1 = y.0 in
        let p = Same-trans (disturb-Same cfg i st) (ring_cut-Same cfg i x) in
        let f =
          pi_focus http cfg.roi_max_kbps cfg.roi_recovery_ms st1.applied_kbps i.now (st1.roi, w) in
        let st2 = record st1 { roi = f.0 } in
        let v2 = carry cfg st2 v (to st st2 p.same_applied p.same_floor p.same_div p.same_max) in
        (regulate_parts law cfg small http i.now (delay_ms i) dt y.1 st2 f.1 v2).0

    pi_tick-IsValid :
        (i : Readings D) (st : PiState D) (w : W)
        → IsValid cfg st
        → IsValid cfg (pi_tick http cfg i (st, w)).0
    unfolding pi_tick
    pi_tick-IsValid i st w v =
        let dt : D = frac (since i.now st.last_tick_ms) 1000 in
        let st0 = record st { last_tick_ms = i.now } in
        let v0 = carry cfg st0 v (to st st0 refl refl refl refl) in
        let st1 = restart cfg i st0 in
        let x = reset_div http i.now (st1, w) in
        let v1 = reset_div-IsValid cfg http i.now st1 w (restart-IsValid cfg i st0 v0) in
        let st2 = poll_capacity cfg i x.0 in
        let v2 = carry cfg st2 v1 (poll-Same cfg i x.0) in
        elim (Bool-cases (st2.cap_kbps == 0)) [
          | inl e ↦ rw e v2
          | inr e ↦ rw e (react-IsValid i dt st2 x.1 v2)
        ]

    pi_ticks-from :
        (is : List (Readings D)) (st : PiState D) (w : W)
        → IsValid cfg st
        → IsValid cfg (pi_ticks http cfg is (st, w)).0
    unfolding pi_ticks
    pi_ticks-from [] st w v = v
    pi_ticks-from (i ∷ is) st w v =
        let x = pi_tick http cfg i (st, w) in pi_ticks-from is x.0 x.1 (pi_tick-IsValid i st w v)

    -- From the start of the PI controller, after any rounds with any readings and any answers of
    -- waybeam, if max_kbps is a uint32_t and doubles truncate as C says: the applied rate is at most
    -- max_kbps, the learned floor at least min_kbps, and the frame-rate divisor a power of two not
    -- above fps_div_max, or 1.
    pub pi_ticks-IsValid :
        (is : List (Readings D)) (now gen : ℕ) (w : W)
        → IsValid cfg (pi_ticks http cfg is (pi_init cfg now gen, w)).0
    pi_ticks-IsValid is now gen w =
        pi_ticks-from is (pi_init cfg now gen) w (pi_init-IsValid now gen)
