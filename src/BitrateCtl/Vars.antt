-- ===== src/BitrateCtl/Vars.antt =====
-- The controller's configuration and variables, and its small helpers.
use ar8030_transport.Base.{
  ℕ, ◌+◌, ◌/◌, List, Bool, false, not, ◌&&◌, ltb, leb, ◌==◌, if◌then◌else◌, replicate, u16, u32,
  u64, sub64,
}

-- `bitrate_ctl_cfg_t`, as far as the rules read it. A field from ring_scaled on is what a C double
-- expression of its argument gives: a product truncated to uint32_t, or a comparison.
pub record Config : Type 0 where
  pub min_kbps : ℕ
  pub max_kbps : ℕ
  pub ring_backlog_high_slots : ℕ
  pub roi_max_kbps : ℕ
  pub roi_recovery_ms : ℕ
  pub poll_interval_ms : ℕ
  pub min_interval_ms : ℕ
  pub ramp_settle_ms : ℕ
  pub unstable_window_ms : ℕ
  pub probe_hold_ms : ℕ
  pub retx_severe_events : ℕ
  pub probe_on : Bool  -- probe_ceiling_frac > 0.0
  pub ldpc_on : Bool  -- ldpc_ratio_high > 0.0
  pub retx_on : Bool  -- retx_event_backoff > 0.0
  pub ramp_on : Bool  -- ramp_step > 0.0
  pub unstable_on : Bool  -- unstable_ramp_step > 0.0
  pub ring_scaled : ℕ → ℕ  -- * ring_backoff
  pub ldpc_scaled : ℕ → ℕ  -- * ldpc_backoff
  pub retx_scaled : ℕ → ℕ  -- * retx_event_backoff
  pub severe_scaled : ℕ → ℕ  -- * severe_backoff
  pub probe_scaled : ℕ → ℕ  -- * probe_ceiling_frac
  pub margin_scaled : ℕ → ℕ  -- * margin
  pub ramp_scaled : ℕ → ℕ  -- * (1.0 + ramp_step)
  pub unstable_scaled : ℕ → ℕ  -- * (1.0 + unstable_ramp_step)
  pub jump_scaled : ℕ → ℕ  -- * RECOVERY_JUMP_FRAC
  pub small_change : ℕ → ℕ → Bool  -- delta < hysteresis, of the target and the applied rate

-- The variables of `run_rules`, and g_congested_until_ms.
pub record State : Type 0 where
  pub last_applied_kbps : ℕ
  pub have_applied : Bool
  pub last_apply_ms : ℕ
  pub last_seen_wake : ℕ
  pub last_seen_retx_too_many : ℕ
  pub roi_enabled : Bool
  pub roi_banned : Bool
  pub roi_enabled_ms : ℕ
  pub last_backlog_ms : ℕ
  pub last_urgent_cut_ms : ℕ
  pub probe_ceiling_kbps : ℕ
  pub probe_ceiling_until_ms : ℕ
  pub last_roi_disable_attempt_ms : ℕ
  pub last_ldpc_apply_ms : ℕ
  pub last_retx_event_apply_ms : ℕ
  pub last_cut_ms : ℕ
  pub last_mcs_cut_ms : ℕ
  pub prev_link_kbps : ℕ
  pub last_link_rise_ms : ℕ
  pub last_link_swing_ms : ℕ
  pub floor_kbps : ℕ
  pub retx_event_ms : List ℕ
  pub retx_event_pos : ℕ
  pub retx_counted : ℕ
  pub last_increase_ms : ℕ
  pub last_mcs_poll_ms : ℕ
  pub congested_until_ms : ℕ

abbrev pub retx_event_history : ℕ
retx_event_history = 16

unfoldable pub init : Config → State
init cfg = record {
  last_applied_kbps = 0;
  have_applied = false;
  last_apply_ms = 0;
  last_seen_wake = 0;
  last_seen_retx_too_many = 0;
  roi_enabled = false;
  roi_banned = false;
  roi_enabled_ms = 0;
  last_backlog_ms = 0;
  last_urgent_cut_ms = 0;
  probe_ceiling_kbps = 0;
  probe_ceiling_until_ms = 0;
  last_roi_disable_attempt_ms = 0;
  last_ldpc_apply_ms = 0;
  last_retx_event_apply_ms = 0;
  last_cut_ms = 0;
  last_mcs_cut_ms = 0;
  prev_link_kbps = 0;
  last_link_rise_ms = 0;
  last_link_swing_ms = 0;
  floor_kbps = cfg.min_kbps;
  retx_event_ms = replicate retx_event_history 0;
  retx_event_pos = 0;
  retx_counted = 0;
  last_increase_ms = 0;
  last_mcs_poll_ms = 0;
  congested_until_ms = 0;
}

unfoldable pub clamp_u32 : ℕ → ℕ → ℕ → ℕ
clamp_u32 v lo hi = if ltb v lo then lo else if ltb hi v then hi else v

unfoldable pub learn_floor : ℕ → ℕ → ℕ → ℕ
learn_floor floor_kbps status rejected_kbps =
    if status == 409 && ltb floor_kbps (u32 (rejected_kbps + 1))
    then u32 (rejected_kbps + 1)
    else floor_kbps

-- `now - then`, of uint64_t.
abbrev pub since : ℕ → ℕ → ℕ
since now past = sub64 now past

abbrev pub accepted : ℕ → Bool
accepted status = leb 200 status && ltb status 300

abbrev pub mark_congested : ℕ → State → State
mark_congested now st = record st { congested_until_ms = u64 (now + 1500) }

-- `bitrate_ctl_congested`
abbrev pub congested : ℕ → State → Bool
congested now st = ltb now st.congested_until_ms

-- `ring_low_water`, of the flush time, the entries per frame and the published slots.
unfoldable pub ring_low_water : ℕ → ℕ → ℕ → ℕ → ℕ
ring_low_water flushed per slots now =
    if not (flushed == 0) && ltb now (u64 (flushed + 400))
    then 0
    else if ltb 1 per
    then u16 (slots / per)
    else slots

-- A cut that waybeam accepted.
abbrev pub cut_to : ℕ → ℕ → State → State
cut_to now kbps st = record st { last_applied_kbps = kbps; last_apply_ms = now; last_cut_ms = now }
