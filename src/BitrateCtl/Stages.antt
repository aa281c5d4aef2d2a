-- ===== src/BitrateCtl/Stages.antt =====
-- tx/bitrate_ctl.c, run_rules: what one round does, signal by signal. A `continue` of the loop is
-- the end of the last stage.
pub mod Bounds
pub mod Follow
use ar8030_transport.Base.{
  ℕ, zero, suc, ◌+◌, ◌-◌, ◌*◌, ◌%◌, List, [], ◌∷◌, Bool, true, false, not, ◌&&◌, ◌||◌, Option, none,
  some, ltb, leb, ◌==◌, if◌then◌else◌, set, u64,
}
use ar8030_transport.BitrateCtl.Vars.{
  Config, State, retx_event_history, clamp_u32, learn_floor, since, accepted, mark_congested,
  cut_to,
}
use ar8030_transport.BitrateCtl.Cut.{
  Request, bitrate, bitrate_and_roi, roi_on, roi_off, Cut, apply_cut,
}

-- What a round reads from outside.
pub record Inputs : Type 0 where
  pub now : ℕ
  pub ring_slots : Option ℕ  -- ring_low_water, if a ring is attached
  pub ldpc : Option (Bool × Bool)  -- ratio >= ldpc_ratio_high, and severe; none if it cannot be read
  pub retx_too_many : ℕ  -- g_retx_too_many
  pub wake : ℕ  -- g_wake
  pub link_kbps : Option ℕ  -- BB_GET_MCS, none if it fails

-- The target of a fast cut, of the scaled rate.
abbrev pub target_of : Config → State → ℕ → ℕ
target_of cfg st scaled = clamp_u32 scaled st.floor_kbps cfg.max_kbps

-- Lines of the ring stage that only set variables.
abbrev pub probe_from : Config → ℕ → State → State
probe_from cfg now st =
    if cfg.probe_on
    then record st {
      probe_ceiling_kbps = cfg.probe_scaled st.last_applied_kbps;
      probe_ceiling_until_ms = u64 (now + cfg.probe_hold_ms);
    }
    else st

abbrev pub urgent_cut : Config → ℕ → ℕ → State → State
urgent_cut cfg now target st = record (cut_to now target (probe_from cfg now st)) {
  last_urgent_cut_ms = now;
}

abbrev pub roi_now_on : ℕ → State → State
roi_now_on now st = record st { roi_enabled = true; roi_enabled_ms = now }

-- The loop that stamps each event not yet counted, `n` of them.
unfoldable pub stamp : ℕ → ℕ → State → State
stamp zero now st = st
stamp (suc n) now st = stamp n now (record st {
  retx_counted = st.retx_counted + 1;
  retx_event_ms = set st.retx_event_ms (st.retx_event_pos % retx_event_history) now;
  retx_event_pos = st.retx_event_pos + 1;
})

unfoldable pub note_retx : Inputs → State → State
unfolding stamp
note_retx i st = stamp (i.retx_too_many - st.retx_counted) i.now st

-- The events of the last second.
unfoldable pub recent : ℕ → List ℕ → ℕ
recent now [] = 0
recent now (e ∷ es) = (if not (e == 0) && ltb (since now e) 1000 then 1 else 0) + recent now es

-- The link swing detection; the comparisons with 1.5 are exact in doubles.
unfoldable pub note_link : Config → ℕ → ℕ → State → State
note_link cfg now link st =
    let prev = st.prev_link_kbps in
    let st' = record st { prev_link_kbps = link } in
    if not (prev == 0) && leb (prev * 3) (link * 2)
    then record st' { last_link_rise_ms = now }
    else if not (prev == 0)
        && (leb (link * 3) (prev * 2)
            && (not (st.last_link_rise_ms == 0)
                && ltb (since now st.last_link_rise_ms) cfg.unstable_window_ms))
    then record st' { last_link_swing_ms = now }
    else st'

-- The highest rate that one increase may reach.
unfoldable pub step_cap_of : Config → ℕ → State → ℕ → ℕ
step_cap_of cfg now st target =
    let last = st.last_applied_kbps in
    let unstable =
      not (st.last_link_swing_ms == 0)
      && ltb (since now st.last_link_swing_ms) cfg.unstable_window_ms in
    let cautious = unstable && cfg.unstable_on in
    let step = (if cautious then cfg.unstable_scaled last else cfg.ramp_scaled last) in
    let jump = cfg.jump_scaled target in
    let cap = (if not unstable && (leb (last * 2) target && ltb step jump) then jump else step) in
    if not (cautious || cfg.ramp_on) then target else if leb cap last then last + 1 else cap

-- The target of an increase, under the step and the probe ceiling.
unfoldable pub increase_of : Config → ℕ → State → ℕ → ℕ
unfolding step_cap_of
increase_of cfg now st target =
    let cap = step_cap_of cfg now st target in
    let ramped = (if ltb cap target then cap else target) in
    if not (st.probe_ceiling_kbps == 0)
      && (ltb now st.probe_ceiling_until_ms && ltb st.probe_ceiling_kbps ramped)
    then st.probe_ceiling_kbps
    else ramped

-- The tests that hold an increase back.
unfoldable pub held_back : Config → ℕ → State → Bool
held_back cfg now st =
    ltb (since now st.last_increase_ms) cfg.min_interval_ms
    || (ltb (since now st.last_backlog_ms) cfg.ramp_settle_ms
        || ltb (since now st.last_cut_ms) cfg.ramp_settle_ms)

module _ {W : Type 0} (http : W → Request → ℕ × W) where
  -- The ROI safety net.
  unfoldable pub roi_abort : ℕ → State × W → State × W
  roi_abort now (st, w) =
      let (status, w') = http w roi_off in
      if not (st.roi_enabled && leb 2000 (since now st.roi_enabled_ms))
      then (st, w)
      else if accepted status
      then (record st { roi_enabled = false; roi_banned = true }, w')
      else (st, w')

  -- The request of a backlog, where `cut` and `roi` say what it is to change.
  unfoldable pub ask : Config → ℕ → ℕ → Bool → Bool → State × W → State × W
  ask cfg now target cut roi (st, w) =
      let request =
        (if cut then (if roi then bitrate_and_roi target else bitrate target) else roi_on) in
      let (status, w') = http w request in
      let st' = (if cut then urgent_cut cfg now target st else st) in
      if not (cut || roi)
      then (st, w)
      else if accepted status
      then (if roi then roi_now_on now st' else st', w')
      else if cut
      then (record st { floor_kbps = learn_floor st.floor_kbps status target }, w')
      else (st, w')

  -- The ring is backlogged.
  unfoldable pub backlog : Config → ℕ → State × W → State × W
  backlog cfg now (st, w) =
      let st1 = mark_congested now (record st { last_backlog_ms = now }) in
      let target = target_of cfg st1 (cfg.ring_scaled st1.last_applied_kbps) in
      let cut =
        ltb target st1.last_applied_kbps
        && (st1.last_urgent_cut_ms == 0 || leb 1500 (since now st1.last_urgent_cut_ms)) in
      let (st2, w') = roi_abort now (st1, w) in
      let want_roi = not st2.roi_banned && ltb st2.last_applied_kbps cfg.roi_max_kbps in
      ask cfg now target cut (want_roi && not st2.roi_enabled) (st2, w')

  -- The backlog is gone and the rate has recovered: the whole frame gets its detail back.
  unfoldable pub roi_recover : Config → ℕ → State × W → State × W
  roi_recover cfg now (st, w) =
      let st' = record st { last_roi_disable_attempt_ms = now } in
      let (status, w') = http w roi_off in
      if not (
        st.roi_enabled
        && (leb cfg.roi_max_kbps st.last_applied_kbps
            && (leb cfg.roi_recovery_ms (since now st.last_backlog_ms)
                && leb 250 (since now st.last_roi_disable_attempt_ms))))
      then (st, w)
      else if accepted status
      then (record st' { roi_enabled = false }, w')
      else (st', w')

  -- The ring stage, with a ring attached.
  unfoldable pub ring_attached : Config → ℕ → ℕ → State × W → State × W
  ring_attached cfg now slots (st, w) =
      if not (st.have_applied && leb 250 (since now st.last_apply_ms))
      then (st, w)
      else if leb cfg.ring_backlog_high_slots slots
      then backlog cfg now (st, w)
      else roi_recover cfg now (st, w)

  unfoldable pub ring_react : Config → ℕ → Option ℕ → State × W → State × W
  ring_react cfg now none x = x
  ring_react cfg now (some slots) x = ring_attached cfg now slots x

  unfoldable pub ring_stage : Config → Inputs → State × W → State × W
  ring_stage cfg i x = ring_react cfg i.now i.ring_slots x

  -- The cut that the LDPC and RETX stages share.
  unfoldable pub fast_cut : Config → ℕ → ℕ → State × W → State × W
  fast_cut cfg now scaled (st, w) =
      let target = target_of cfg st scaled in
      let c = apply_cut http target st.last_applied_kbps st.floor_kbps 1 w in
      let st' = record st { floor_kbps = c.floor_kbps } in
      if not (ltb target st.last_applied_kbps)
      then (st, w)
      else if accepted c.status
      then (mark_congested now (cut_to now c.kbps st'), c.world)
      else (st', c.world)

  -- What the LDPC stage does with its reading.
  unfoldable pub ldpc_react : Config → ℕ → Option (Bool × Bool) → State × W → State × W
  ldpc_react cfg now none x = x
  ldpc_react cfg now (some (high, severe)) (st, w) =
      let scaled =
        (if severe
          then cfg.severe_scaled st.last_applied_kbps
          else cfg.ldpc_scaled st.last_applied_kbps) in
      if high then fast_cut cfg now scaled (st, w) else (st, w)

  unfoldable pub ldpc_stage : Config → Inputs → State × W → State × W
  ldpc_stage cfg i (st, w) =
      let st' = record st { last_ldpc_apply_ms = i.now } in
      if not (
        cfg.ldpc_on
        && (st.have_applied
            && (leb 250 (since i.now st.last_ldpc_apply_ms)
                && leb 500 (since i.now st.last_cut_ms))))
      then (st, w)
      else ldpc_react cfg i.now i.ldpc (st', w)

  unfoldable pub retx_stage : Config → Inputs → State × W → State × W
  unfolding recent
  retx_stage cfg i (st, w) =
      let st' = record st {
        last_seen_retx_too_many = i.retx_too_many;
        last_retx_event_apply_ms = i.now;
      } in
      let severe =
        not (cfg.retx_severe_events == 0)
        && leb cfg.retx_severe_events (recent i.now st.retx_event_ms) in
      if not (
        cfg.retx_on
        && (st.have_applied
            && (leb 250 (since i.now st.last_retx_event_apply_ms)
                && (leb 500 (since i.now st.last_cut_ms)
                    && not (i.retx_too_many == st.last_seen_retx_too_many)))))
      then (st, w)
      else fast_cut cfg i.now
          (if severe
            then cfg.severe_scaled st.last_applied_kbps
            else cfg.retx_scaled st.last_applied_kbps)
          (st', w)

  -- A decrease to what the link carries.
  unfoldable pub mcs_cut : Config → ℕ → ℕ → State × W → State × W
  mcs_cut cfg now target (st, w) =
      let c = apply_cut http target st.last_applied_kbps st.floor_kbps 1 w in
      let st' = record st { floor_kbps = c.floor_kbps } in
      if ltb (since now st.last_mcs_cut_ms) 250
      then (st, w)
      else if accepted c.status
      then (mark_congested now (record (cut_to now c.kbps st') { last_mcs_cut_ms = now }), c.world)
      else (st', c.world)

  -- Any other rate goes out as it is.
  unfoldable pub mcs_set : ℕ → ℕ → State × W → State × W
  mcs_set now target (st, w) =
      let (status, w') = http w (bitrate target) in
      if accepted status
      then (
        record st {
          last_increase_ms = now;
          last_applied_kbps = target;
          have_applied = true;
          last_apply_ms = now;
        },
        w',
      )
      else (st, w')

  -- From the capacity on.
  unfoldable pub follow_link : Config → ℕ → ℕ → State × W → State × W
  follow_link cfg now link (st, w) =
      let target = target_of cfg st (cfg.margin_scaled link) in
      let raised = increase_of cfg now st target in
      if not st.have_applied
      then mcs_set now target (st, w)
      else if cfg.small_change target st.last_applied_kbps
      then (st, w)
      else if ltb target st.last_applied_kbps
      then mcs_cut cfg now target (st, w)
      else if held_back cfg now st || leb raised st.last_applied_kbps
      then (st, w)
      else mcs_set now raised (st, w)

  -- With the link's throughput, if it was read.
  unfoldable pub mcs_react : Config → ℕ → Option ℕ → State × W → State × W
  mcs_react cfg now none x = x
  mcs_react cfg now (some link) (st, w) = follow_link cfg now link (note_link cfg now link st, w)

  unfoldable pub mcs_stage : Config → Inputs → State × W → State × W
  mcs_stage cfg i (st, w) =
      let woken = not (i.wake == st.last_seen_wake) in
      let st1 = record st { last_seen_wake = i.wake } in
      let st2 = record st1 { last_mcs_poll_ms = i.now } in
      if st.have_applied
        && (not woken && ltb (since i.now st.last_mcs_poll_ms) cfg.poll_interval_ms)
      then (st1, w)
      else mcs_react cfg i.now i.link_kbps (st2, w)
