-- ===== src/BitrateCtl/Pi/Loop.antt =====
-- tx/bitrate_ctl.c, run_pi: sending the rate, and the rounds put together. A `continue` of the loop
-- is the end of a round's last stage.
use ar8030_transport.Base.{
  ℕ, ◌+◌, ◌*◌, List, [], ◌∷◌, Bool, not, ◌&&◌, ltb, ◌==◌, if◌then◌else◌, some, u32, u64,
}
use ar8030_transport.BitrateCtl.Vars.{since, accepted, learn_floor}
use ar8030_transport.BitrateCtl.Cut.{Request, bitrate, apply_cut}
use ar8030_transport.BitrateCtl.Pi.Double.{Double, frac}
use ar8030_transport.BitrateCtl.Pi.Vars.{PiConfig, PiState, Readings, div_of}
use ar8030_transport.BitrateCtl.Pi.Roi.{pi_focus}
use ar8030_transport.BitrateCtl.Pi.Stages.{
  no_divisor, fps_request, restart, reset_div, delay_ms, poll_capacity, disturb, ring_cut,
}
use ar8030_transport.BitrateCtl.Pi.Control.{
  base_of, control, is_congested, stage, slewed, rate_of, held,
}

module _ {D : Type 0} ⦃o : Double D⦄ {W : Type 0} (http : W → Request → ℕ × W) where
  -- Another frame rate, with its rate in the same request.
  unfoldable pub change_div : ℕ → ℕ → ℕ → PiState D × W → PiState D × W
  change_div now want t (st, w) =
      let (status, w') = http w (fps_request want t) in
      if no_divisor status
      then (record st { div_max = 1 }, w')
      else if accepted status
      then (
        record st { div = some want; div_up_since_ms = 0; applied_kbps = t; last_apply_ms = now },
        w',
      )
      else (record st { floor_kbps = learn_floor st.floor_kbps status (u32 (t * want)) }, w')

  -- A lower rate is a cut, any other a plain request.
  unfoldable pub send_rate : ℕ → ℕ → PiState D × W → PiState D × W
  send_rate now t (st, w) =
      let c = apply_cut http t st.applied_kbps st.floor_kbps (div_of st.div) w in
      let learned = record st { floor_kbps = c.floor_kbps } in
      let (status, w') = http w (bitrate t) in
      if not (st.applied_kbps == 0) && ltb t st.applied_kbps
      then (if accepted c.status
          then (record learned { applied_kbps = c.kbps; last_apply_ms = now }, c.world)
          else (learned, c.world))
      else if accepted status
      then (record st { applied_kbps = t; last_apply_ms = now }, w')
      else (st, w')

  -- The target of a round, with the divisor wanted, is sent.
  unfoldable pub send : ℕ → ℕ → ℕ → Bool → PiState D × W → PiState D × W
  unfolding change_div send_rate held
  send now want t why (st, w) =
      if not (want == div_of st.div)
      then change_div now want t (st, w)
      else if held now t why st
      then (st, w)
      else send_rate now t (st, w)

  -- The control law, the frame-rate stage and the rate, of the delay and the time passed.
  unfoldable pub regulate : PiConfig D → ℕ → D → D → Bool → PiState D × W → PiState D × W
  unfolding control is_congested stage slewed rate_of send
  regulate cfg now d dt why (st, w) =
      let st1 = control cfg now d dt st in
      let st2 =
        (if is_congested cfg now d st1
          then record st1 { congested_until_ms = u64 (now + 1500) }
          else st1) in
      let target = o.times (base_of cfg st2) st2.k in
      let (want, st3) = stage cfg now target st2 in
      let t = rate_of cfg st3.floor_kbps want (slewed cfg dt st3 target) in
      send now want t why (st3, w)

  -- The signals of the radio and the ring, and the focus, once the capacity is known.
  unfoldable pub react : PiConfig D → Readings D → D → PiState D × W → PiState D × W
  unfolding disturb ring_cut pi_focus delay_ms regulate
  react cfg i dt (st, w) =
      let (st1, why) = ring_cut cfg i (disturb cfg i st) in
      let (roi, w') =
        pi_focus http cfg.roi_max_kbps cfg.roi_recovery_ms st1.applied_kbps i.now (st1.roi, w) in
      regulate cfg i.now (delay_ms i) dt why (record st1 { roi = roi }, w')

  -- One round.
  unfoldable pub pi_tick : PiConfig D → Readings D → PiState D × W → PiState D × W
  unfolding restart reset_div poll_capacity react
  pi_tick cfg i (st, w) =
      let dt : D = frac (since i.now st.last_tick_ms) 1000 in
      let (st1, w1) =
        reset_div http i.now (restart cfg i (record st { last_tick_ms = i.now }), w) in
      let st2 = poll_capacity cfg i st1 in
      if st2.cap_kbps == 0 then (st2, w1) else react cfg i dt (st2, w1)

  unfoldable pub pi_ticks : PiConfig D → List (Readings D) → PiState D × W → PiState D × W
  unfolding pi_tick
  pi_ticks cfg [] x = x
  pi_ticks cfg (i ∷ is) x = pi_ticks cfg is (pi_tick cfg i x)
