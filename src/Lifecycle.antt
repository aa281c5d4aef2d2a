-- ===== src/Lifecycle.antt =====
-- lifecycled/lifecycle.c: the daemon that follows the chip's link. What the chip, the clocks and
-- the files answer comes in as values, and what the daemon does to them goes out as a list of
-- actions, in the order of the calls. A text for the log is left out. Locks only guard reads from
-- other threads, so the thread's own steps are sequential.
pub mod Debounce
pub mod Channel
pub mod Tuning
pub mod Power
pub mod Adc
pub mod Mailbox
pub mod Ctx
pub mod Init
pub mod Drains
pub mod Switch
pub mod Loop
pub mod Radio
mod Tests
use ar8030_transport.Base.{ℕ, Bool, true, false, List, Option}

pub data Role : Type 0 where
  role_ap role_dev : Role

-- `bb_link_state_e`, of which the code only asks whether it is BB_LINK_STATE_CONNECT.
pub data LinkState : Type 0 where
  connect not_connect : LinkState

-- A channel wanted: LC_CHANNEL_AUTO, LC_CHANNEL_NONE or an index of the table.
pub data Chan : Type 0 where
  chan_auto chan_none : Chan
  chan_index : ℕ → Chan

-- A power level: LC_POWER_AUTO, LC_POWER_NONE or milliwatts.
pub data Level : Type 0 where
  power_auto power_none : Level
  milliwatts : ℕ → Level

-- `bb_retx_cfg_t`
pub record Retx : Type 0 where
  pub win : ℕ
  pub busy : ℕ
  pub idle : ℕ
  pub conti_busy : ℕ
  pub conti_idle : ℕ

-- The scripts of hooks.d that this file runs.
pub data Hook : Type 0 where
  idle_hook connected_hook dropped_hook overheat_hook resume_hook : Hook

-- The calls that reach the chip, the files next to the configuration and the scripts. A slot is
-- `none` for -1.
pub data Act : Type 0 where
  run_hook : Hook → Option ℕ → Act  -- lc_hooks_dispatch
  save_bandwidth : ℕ → Act  -- lc_tuning_save
  apply_bandwidth : Option ℕ → ℕ → Act  -- lc_tuning_apply
  save_retx : Retx → Act  -- lc_retx_save
  apply_retx : Retx → Act  -- lc_retx_apply
  save_channel : Chan → Act  -- lc_channel_save
  apply_mode : Chan → Act  -- lc_channel_apply_mode
  apply_linked : Option ℕ → Chan → Act  -- lc_channel_apply_linked
  save_power : Level → Act  -- lc_power_save
  apply_power : Level → Act  -- lc_power_apply
  apply_standby : ℕ → Act  -- lc_power_apply_standby
  apply_frame_change : Act  -- lc_frame_change_apply
  push_mcs_items : ℕ → Act  -- lc_push_mcs_items, with the ground's table of this strategy
  note_ap_mac : Act  -- lc_peers_note_ap_mac
  forget_peer : Option (List ℕ) → Act  -- lc_peers_forget
  push_peers : Act  -- lc_peers_push
  set_daemon_log : ℕ → Act  -- lc_daemon_log_apply
  push_candidate : Act  -- lc_pair_apply_known_candidate
  rf_path_b_off : Act  -- BB_SET_PRJ_DISPATCH, path B off
  push_air_mcs_items : Act  -- lc_push_mcs_items, with the air unit's table
  set_mcs_range : ℕ → ℕ → Act  -- ar8030_set_mcs_range, on slot 0
  set_rfo_kikp : Bool → Act  -- ar8030_set_rfo_kikp
  arm_adc : ℕ → Act  -- ar8030_rftemp_arm
  write_rf_temp : ℕ → Act  -- lc_write_rf_temp_file
  write_batt : ℕ → Act  -- lc_write_batt_file
  remove_rf_temp remove_batt : Act  -- unlink

-- The options that these functions read (`lc_config_t`). A file name is empty for `false`; a
-- negative number is `none`.
pub record Config : Type 0 where
  pub role : Role
  pub has_cfg_path : Bool
  pub default_bandwidth : ℕ
  pub default_channel : Chan
  pub default_power : Option Level  -- none for LC_POWER_ROLE_DEFAULT
  pub max_power : ℕ  -- 0 for none
  pub path_b_off : Bool
  pub daemon_log : Option ℕ
  pub frame_change : Bool
  pub link_policy : Option ℕ
  pub standby_dbm : Option ℕ
  pub has_soc_temp_cmd : Bool
  pub overheat_c : Option ℕ
  pub overheat_resume_c : ℕ  -- at least 40 when overheat_c is given
  pub rf_temp_adc : Option ℕ
  pub has_rf_temp_file : Bool
  pub batt_adc : Option ℕ
  pub batt_scale : ℕ
  pub batt_offset_mv : ℕ
  pub has_batt_file : Bool

abbrev pub is_ap : Role → Bool
is_ap role_ap = true
is_ap role_dev = false

abbrev pub is_connect : LinkState → Bool
is_connect connect = true
is_connect not_connect = false
