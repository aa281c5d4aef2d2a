-- ===== src/BitrateCtl/Pi/Vars.antt =====
-- tx/bitrate_ctl.c, run_pi: the configuration it reads, its variables, and what a round reads from
-- outside. The divisor and the focus are `none` where the source has -1.
use ar8030_transport.Base.{ℕ, List, Bool, Option, none, some, ltb, if◌then◌else◌, replicate}
use ar8030_transport.BitrateCtl.Vars.{retx_event_history}
use ar8030_transport.BitrateCtl.Pi.Double.{Double}

-- `bitrate_ctl_cfg_t`, as far as `run_pi` reads it.
pub record PiConfig (D : Type 0) : Type 0 where
  pub min_kbps : ℕ
  pub max_kbps : ℕ
  pub poll_interval_ms : ℕ
  pub ring_backlog_high_slots : ℕ
  pub roi_max_kbps : ℕ
  pub roi_recovery_ms : ℕ
  pub fps_div_max : ℕ
  pub fps_recovery_ms : ℕ
  pub pi_retx_severe_events : ℕ
  pub margin : D
  pub ring_backoff : D
  pub ldpc_ratio_high : D
  pub ldpc_severe_ratio : D
  pub pi_delay_set_ms : D
  pub pi_kp_up : D
  pub pi_kp_down : D
  pub pi_ki_up : D
  pub pi_ki_down : D
  pub pi_k_min : D
  pub pi_k_max : D
  pub pi_slew_up : D
  pub pi_severe_k : D
  pub pi_mild_trim : D
  pub pi_recover_per_s : D

-- The variables that `pi_focus` works on.
pub record Focus : Type 0 where
  pub focus : Option Bool
  pub above_since_ms : ℕ
  pub try_ms : ℕ

pub record PiState (D : Type 0) : Type 0 where
  pub cap_kbps : ℕ
  pub last_mcs_poll_ms : ℕ
  pub last_seen_wake : ℕ
  pub k_i : D
  pub k : D
  pub applied_kbps : ℕ
  pub last_apply_ms : ℕ
  pub floor_kbps : ℕ
  pub last_ldpc_ms : ℕ
  pub last_disturb_ms : ℕ
  pub last_severe_ms : ℕ
  pub last_backlog_ms : ℕ
  pub retx_event_ms : List ℕ
  pub retx_event_pos : ℕ
  pub retx_counted : ℕ
  pub retx_seen : ℕ
  pub last_tick_ms : ℕ
  pub ring_gen : ℕ
  pub roi : Focus
  pub div_max : ℕ
  pub div : Option ℕ
  pub div_up_since_ms : ℕ
  pub div_try_ms : ℕ
  pub congested_until_ms : ℕ  -- g_congested_until_ms

-- What a round reads.
pub record Readings (D : Type 0) : Type 0 where
  pub now : ℕ
  pub ring_generation : ℕ
  pub delay_us : ℕ
  pub last_tx_done_ms : ℕ
  pub wake : ℕ  -- g_wake
  pub mcs : Option ℕ  -- BB_GET_MCS, none if it fails
  pub retx_too_many : ℕ  -- g_retx_too_many
  pub ldpc : Option D  -- the LDPC error ratio, none if it cannot be read
  pub ring_slots : Option ℕ  -- ring_low_water, if a ring is attached

-- The longest stage: cfg->fps_div_max > 1 ? cfg->fps_div_max : 1
abbrev pub full_div : {D : Type 0} → PiConfig D → ℕ
full_div cfg = if ltb 1 cfg.fps_div_max then cfg.fps_div_max else 1

-- cur_div
abbrev pub div_of : Option ℕ → ℕ
div_of none = 1
div_of (some d) = d

module _ {D : Type 0} ⦃o : Double D⦄ where
  -- The variables before the loop, at the time and the ring generation then.
  unfoldable pub pi_init : PiConfig D → ℕ → ℕ → PiState D
  pi_init cfg now gen = record {
    cap_kbps = 0;
    last_mcs_poll_ms = 0;
    last_seen_wake = 0;
    k_i = o.of_nat 1;
    k = o.of_nat 1;
    applied_kbps = 0;
    last_apply_ms = 0;
    floor_kbps = cfg.min_kbps;
    last_ldpc_ms = 0;
    last_disturb_ms = 0;
    last_severe_ms = 0;
    last_backlog_ms = 0;
    retx_event_ms = replicate retx_event_history 0;
    retx_event_pos = 0;
    retx_counted = 0;
    retx_seen = 0;
    last_tick_ms = now;
    ring_gen = gen;
    roi = record { focus = none; above_since_ms = 0; try_ms = 0 };
    div_max = full_div cfg;
    div = if ltb 1 (full_div cfg) then none else some 1;
    div_up_since_ms = 0;
    div_try_ms = 0;
    congested_until_ms = 0;
  }
