-- ===== src/Lifecycle/Init.antt =====
-- lifecycled/lifecycle.c: the state before the loop. The connection to the chip's daemon, which is
-- tried until it holds, comes in between and is left out.
use ar8030_transport.Base.{
  ℕ, Bool, true, false, Option, none, some, List, [], ◌∷◌, ◌++◌, ◌==◌, not, ◌&&◌, if◌then◌else◌,
}
use ar8030_transport.Lifecycle.{
  Config, Role, role_ap, role_dev, Chan, chan_none, Level, power_auto, power_none, milliwatts, Act,
  apply_mode, set_daemon_log, push_candidate, rf_path_b_off, push_air_mcs_items, set_mcs_range,
  set_rfo_kikp,
}
use ar8030_transport.Lifecycle.Debounce.{entered}
use ar8030_transport.Lifecycle.Channel.{is_unset}
use ar8030_transport.Lifecycle.Tuning.{if_path}
use ar8030_transport.Lifecycle.Power.{power_acts}
use ar8030_transport.Lifecycle.Mailbox.{empty, power_valid, power_default}
use ar8030_transport.Lifecycle.Ctx.{Ctx}

-- What lc_channel_load and lc_power_load find.
pub record Saved : Type 0 where
  pub channel : Option Chan
  pub power : Option Level

abbrev pub chan_or : Option Chan → Chan → Chan
chan_or none c = c
chan_or (some s) c = s

-- The channel wanted: the AP's saved one or its default, none on the DEV.
unfoldable pub init_channel : Config → Role → Option Chan → Chan
init_channel cfg role_dev saved = chan_none
init_channel cfg role_ap saved = chan_or (if_path cfg.has_cfg_path saved) cfg.default_channel

-- LC_POWER_AUTO for -1, which a configuration with a level for its role does not reach.
abbrev pub level_of : Option ℕ → Level
level_of none = power_auto
level_of (some mw) = milliwatts mw

unfoldable pub role_default : Config → Level
unfolding power_default
role_default cfg = level_of (power_default cfg.role cfg.max_power)

abbrev pub default_or : Option Level → Level → Level
default_or none l = l
default_or (some d) l = d

-- A saved level that the role admits, else the default.
unfoldable pub saved_or_default : Config → Option Level → Level
unfolding role_default power_valid
saved_or_default cfg none = default_or cfg.default_power (role_default cfg)
saved_or_default cfg (some l) =
    if power_valid cfg.role cfg.max_power l
    then l
    else default_or cfg.default_power (role_default cfg)

abbrev pub is_left_alone : Level → Bool
is_left_alone power_none = true
is_left_alone l = false

-- The power wanted: a default that the role does not admit is replaced too.
unfoldable pub init_power : Config → Option Level → Level
unfolding saved_or_default role_default power_valid
init_power cfg saved = checked (saved_or_default cfg (if_path cfg.has_cfg_path saved))
  where
    checked : Level → Level
    checked l =
        if not (is_left_alone l) && not (power_valid cfg.role cfg.max_power l)
        then role_default cfg
        else l

-- `lifecycle_init`, and the state that the thread sets before its loop
unfoldable pub init_ctx : Config → Saved → List ℕ → Ctx
unfolding init_channel init_power entered
init_ctx cfg saved table = record {
  shared = record {
    link_state = none;
    connect_gen = 0;
    restart_requested = false;
    shutdown_requested = false;
  };
  debounce = entered;
  channel = record {
    wanted = init_channel cfg cfg.role saved.channel;
    seen = none;
    settled = false;
    check_at = none;
    pushes_left = 0;
    table_khz = table;
  };
  tuning = record { last_bandwidth = none; connect_gen = 0; frame_change_pending = false };
  power = record {
    level = init_power cfg saved.power;
    power_dbm = none;
    armed = true;
    standby = false;
    soc_temp_last = 0;
    soc = none;
    overheat = false;
  };
  rf = record { arming = record { armed = false; rearm_wait = 0 }; c10 = none; mv = 0 };
  batt = record { arming = record { armed = false; rearm_wait = 0 }; adc_mv = 0 };
  mailbox = empty;
  polled = record { distance_m = none; sock_bytes = []; quality = none; signal_level = 0 };
  last_fallback_poll = 0;
  poll_fails = 0;
}

abbrev pub log_acts : Option ℕ → List Act
log_acts none = []
log_acts (some level) = set_daemon_log level ∷ []

-- `lc_apply_link_policy_ap`
unfoldable pub apply_link_policy_ap : ℕ → List Act
apply_link_policy_ap strategy =
    push_air_mcs_items
    ∷ set_mcs_range (if strategy == 2 then 1 else 2) 2
    ∷ set_rfo_kikp (strategy == 2)
    ∷ []

abbrev pub policy_acts : Role → Option ℕ → List Act
unfolding apply_link_policy_ap
policy_acts role_ap (some strategy) = apply_link_policy_ap strategy
policy_acts _ _ = []

-- What the thread does once it is connected to the chip's daemon, before its loop.
unfoldable pub start_acts : Config → Ctx → List Act
unfolding apply_link_policy_ap power_acts
start_acts cfg c =
    log_acts cfg.daemon_log
    ++ (if cfg.has_cfg_path then push_candidate ∷ [] else [])
    ++ (if is_unset c.channel.wanted then [] else apply_mode c.channel.wanted ∷ [])
    ++ (if cfg.path_b_off then rf_path_b_off ∷ [] else [])
    ++ policy_acts cfg.role cfg.link_policy
    ++ power_acts cfg c.power
