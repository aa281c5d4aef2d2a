-- ===== src/BitrateCtl/Pi/Stages.antt =====
-- tx/bitrate_ctl.c, run_pi: what a round does before and in the control law. The `why` of the
-- source, which says that a disturbance was acted on, is a Bool.
use ar8030_transport.Base.{
  ℕ, zero, suc, ◌+◌, ◌-◌, ◌%◌, Bool, true, false, not, ◌&&◌, ◌||◌, Option, none, some, ltb, leb,
  ◌==◌, if◌then◌else◌, set, u64,
}
use ar8030_transport.BitrateCtl.Vars.{retx_event_history, since, accepted}
use ar8030_transport.BitrateCtl.Stages.{recent}
use ar8030_transport.BitrateCtl.Cut.{Request, fps_div, fps_div_and_bitrate}
use ar8030_transport.BitrateCtl.Pi.Double.{Double, frac}
use ar8030_transport.BitrateCtl.Pi.Vars.{PiConfig, PiState, Readings, full_div}

-- 404 or 501: this waybeam has no video0.fpsDivisor.
abbrev pub no_divisor : ℕ → Bool
no_divisor status = status == 404 || status == 501

-- `send_fps_div`
unfoldable pub fps_request : ℕ → ℕ → Request
fps_request div kbps = if kbps == 0 then fps_div div else fps_div_and_bitrate div kbps

abbrev pub is_none : Option ℕ → Bool
is_none none = true
is_none (some d) = false

-- A throughput that was read and is not 0.
abbrev read_or : ℕ → Option ℕ → ℕ
read_or cap none = cap
read_or cap (some c) = if c == 0 then cap else c

abbrev slots_full : ℕ → Option ℕ → Bool
slots_full high none = false
slots_full high (some slots) = leb high slots

module _ {D : Type 0} ⦃o : Double D⦄ where
  abbrev pub ratio_or : Option D → D
  ratio_or none = o.of_nat 0
  ratio_or (some r) = r

  abbrev positive : D → Bool
  positive x = o.lt (o.of_nat 0) x

  -- x >= limit, of numbers.
  abbrev reaches : D → D → Bool
  reaches x limit = not (o.lt x limit)

  -- A restarted waybeam.
  unfoldable pub restart : PiConfig D → Readings D → PiState D → PiState D
  restart cfg i st = if i.ring_generation == st.ring_gen then st else record st {
    ring_gen = i.ring_generation;
    applied_kbps = 0;
    roi = record st.roi { focus = none };
    div_max = full_div cfg;
    div = some 1;
    div_up_since_ms = 0;
  }

  module _ {W : Type 0} (http : W → Request → ℕ × W) where
    -- The divisor that a previous tx may have left.
    unfoldable pub reset_div : ℕ → PiState D × W → PiState D × W
    unfolding fps_request
    reset_div now (st, w) =
        let st' = record st { div_try_ms = now } in
        let (status, w') = http w (fps_request 1 st.floor_kbps) in
        if not (is_none st.div && leb 1000 (since now st.div_try_ms))
        then (st, w)
        else if no_divisor status
        then (record st' { div_max = 1; div = some 1 }, w')
        else if accepted status
        then (record st' { div = some 1 }, w')
        else (st', w')

  -- The measured delay in ms, or the age of the last frame sent.
  unfoldable pub delay_ms : Readings D → D
  delay_ms i =
      let measured = frac i.delay_us 1000 in
      let age = o.of_nat (since i.now i.last_tx_done_ms) in
      if not (i.last_tx_done_ms == 0)
        && (ltb (u64 (i.last_tx_done_ms + 150)) i.now && o.lt measured age)
      then age
      else measured

  -- The capacity.
  unfoldable pub poll_capacity : PiConfig D → Readings D → PiState D → PiState D
  poll_capacity cfg i st =
      let st' = record st { last_seen_wake = i.wake } in
      if st.cap_kbps == 0
        || (not (i.wake == st.last_seen_wake)
            || leb cfg.poll_interval_ms (since i.now st.last_mcs_poll_ms))
      then record st' { last_mcs_poll_ms = i.now; cap_kbps = read_or st.cap_kbps i.mcs }
      else st'

  -- The loop that stamps each event not yet counted, `n` of them.
  unfoldable pub stamp_retx : ℕ → ℕ → PiState D → PiState D
  stamp_retx zero now st = st
  stamp_retx (suc n) now st = stamp_retx n now (record st {
    retx_counted = st.retx_counted + 1;
    retx_event_ms = set st.retx_event_ms (st.retx_event_pos % retx_event_history) now;
    retx_event_pos = st.retx_event_pos + 1;
  })

  -- Whether the LDPC ratio is due, and the ratio that the round sees.
  unfoldable pub ldpc_due : PiConfig D → Readings D → PiState D → Bool
  ldpc_due cfg i st = positive cfg.ldpc_ratio_high && leb 250 (since i.now st.last_ldpc_ms)

  unfoldable pub severe : PiConfig D → Readings D → D → PiState D → Bool
  unfolding recent
  severe cfg i ldpc st =
      (positive cfg.ldpc_severe_ratio && reaches ldpc cfg.ldpc_severe_ratio)
      || (ltb 0 cfg.pi_retx_severe_events
          && leb cfg.pi_retx_severe_events (recent i.now st.retx_event_ms))

  -- The clamp of a severe disturbance, and the trim of a mild one.
  unfoldable pub trim : PiConfig D → Readings D → D → Bool → PiState D → PiState D × Bool
  unfolding severe
  trim cfg i ldpc new_retx st =
      let st' = record st { last_severe_ms = i.now; last_disturb_ms = i.now } in
      if severe cfg i ldpc st
      then (if o.lt cfg.pi_severe_k st.k_i
          then (record st' { k_i = cfg.pi_severe_k }, true)
          else (st', false))
      else if ((positive cfg.ldpc_ratio_high && reaches ldpc cfg.ldpc_ratio_high) || new_retx)
          && leb 500 (since i.now st.last_disturb_ms)
      then (record st { k_i = o.times st.k_i cfg.pi_mild_trim; last_disturb_ms = i.now }, true)
      else (st, false)

  -- The radio's own signals.
  unfoldable pub disturb : PiConfig D → Readings D → PiState D → PiState D × Bool
  unfolding stamp_retx ldpc_due trim
  disturb cfg i st =
      let st1 = stamp_retx (i.retx_too_many - st.retx_counted) i.now st in
      let new_retx = not (st1.retx_seen == st1.retx_counted) in
      let st2 = record st1 { retx_seen = st1.retx_counted } in
      if ldpc_due cfg i st2
      then trim cfg i (ratio_or i.ldpc) new_retx (record st2 { last_ldpc_ms = i.now })
      else trim cfg i (o.of_nat 0) new_retx st2

  -- A standing ring backlog.
  unfoldable pub ring_cut : PiConfig D → Readings D → PiState D × Bool → PiState D × Bool
  ring_cut cfg i (st, why) =
      if slots_full cfg.ring_backlog_high_slots i.ring_slots
        && leb 1500 (since i.now st.last_backlog_ms)
      then (
        record st {
          k_i = o.times (if o.lt st.k st.k_i then st.k else st.k_i) cfg.ring_backoff;
          last_backlog_ms = i.now;
        },
        true,
      )
      else (st, why)
