-- ===== src/Lifecycle/Tests.antt =====
-- Concrete runs of the life cycle daemon.
use ar8030_transport.Base.{
  ℕ, ◌≤◌, ◌≡◌, refl, true, false, Option, none, some, List, [], ◌∷◌, arith, replicate, Bool,
}
use ar8030_transport.Base.Int.{pos}
use ar8030_transport.Lifecycle.{
  Config, role_ap, LinkState, connect, not_connect, chan_index, milliwatts,
}
use ar8030_transport.Lifecycle.Debounce.{came_up, entered, connected, idle, debounce}
use ar8030_transport.Lifecycle.Debounce.Confirmed.{Reading, after, Confirmed, debounce-Confirmed}
use ar8030_transport.Lifecycle.Channel.{Channel, ChanInfo, neighbour, on_connect}
use ar8030_transport.Lifecycle.Channel.Retune.{
  IsNeighbour, neighbour-IsNeighbour, checks, all_pushes, all_pushes-on_connect,
}
use ar8030_transport.Lifecycle.Power.{Power, standby_update}
use ar8030_transport.Lifecycle.Power.Standby.{
  Follows, standby_update-Follows, Alternates, heat_log, heat_log-Alternates,
}
use ar8030_transport.Lifecycle.Adc.{RfTemp, Batt}
use ar8030_transport.Lifecycle.Adc.Arms.{Spaced, rf_arms, batt_arms, arms-Spaced}
use ar8030_transport.Lifecycle.Mailbox.{empty}
use ar8030_transport.Lifecycle.Ctx.{Ctx, Tick}
use ar8030_transport.Lifecycle.Init.{Saved, init_ctx}
use ar8030_transport.Lifecycle.Loop.{Step, ticks, run}
use ar8030_transport.Lifecycle.Loop.Arms.{reported}
use ar8030_transport.Lifecycle.Loop.Always.{IsSound, run-IsSound}
use ar8030_transport.Lifecycle.Loop.Lost.{all_ticks, run_lost}
use ar8030_transport.Lifecycle.Radio.{Ioctl, set_chan_rx, channel_apply_linked, channel_apply_local}
use ar8030_transport.Lifecycle.Radio.Told.{all_work, tells_peer, channel_apply_linked_lem}

abbrev config : Config
config = record {
  role = role_ap;
  has_cfg_path = true;
  default_bandwidth = 20;
  default_channel = chan_index 25;
  default_power = none;
  max_power = 200;
  path_b_off = false;
  daemon_log = some 1;
  frame_change = true;
  link_policy = some 1;
  standby_dbm = some 10;
  has_soc_temp_cmd = true;
  overheat_c = some 100;
  overheat_resume_c = 80;
  rf_temp_adc = some 4;
  has_rf_temp_file = true;
  batt_adc = some 0;
  batt_scale = 16;
  batt_offset_mv = 1200;
  has_batt_file = true;
}

abbrev power : Power
power = record {
  level = milliwatts 400;
  power_dbm = none;
  armed = true;
  standby = false;
  soc_temp_last = 0;
  soc = none;
  overheat = false;
}

abbrev channel : Channel
channel = record {
  wanted = chan_index 1;
  seen = none;
  settled = false;
  check_at = none;
  pushes_left = 0;
  table_khz = 5180000 ∷ 5200000 ∷ 5210000 ∷ [];
}

abbrev rf : RfTemp
rf = record { arming = record { armed = false; rearm_wait = 0 }; c10 = none; mv = 0 }

abbrev batt : Batt
batt = record { arming = record { armed = false; rearm_wait = 0 }; adc_mv = 0 }

abbrev ctx : Ctx
ctx = record {
  shared = record {
    link_state = none;
    connect_gen = 0;
    restart_requested = false;
    shutdown_requested = false;
  };
  debounce = record {
    state = idle;
    connected_slot = none;
    drop_miss_count = 0;
    connect_confirm_count = 0;
    idle_hook_fired = false;
  };
  channel = channel;
  tuning = record { last_bandwidth = none; connect_gen = 0; frame_change_pending = false };
  power = power;
  rf = rf;
  batt = batt;
  mailbox = empty;
  polled = record { distance_m = none; sock_bytes = []; quality = none; signal_level = 0 };
  last_fallback_poll = 0;
  poll_fails = 0;
}

-- A tick at a second, with the fallback poll's answer.
abbrev tick_at : ℕ → Option LinkState → Tick
tick_at now poll = record {
  now = now;
  events_start = [];
  poll = poll;
  fallback_dbm = some 26;
  chan_at_change = none;
  change_dbm = none;
  forgotten = 0;
  distance_m = some 30;
  sock_bytes = [];
  quality = none;
  rf_arm_ok = true;
  rf_read = some 900;
  batt_arm_ok = true;
  batt_read = some 700;
  events_polled = [];
  slot = some 0;
  events_late = [];
  saved_bandwidth = some 40;
  saved_retx = none;
  frame_change_ok = true;
  time_linked = now;
  chan_at_check = none;
  khz_at_check = (0, 0);
  time_checked = now;
  current_bandwidth = none;
  frame_retry_ok = true;
  chan_at_track = none;
  time_soc = now;
  soc_run = some (some (pos 450));
  standby_dbm = some 10;
}

abbrev up : Reading
up = (some connect, some 0)

abbrev miss : Reading
miss = (some not_connect, none)

debounce-Confirmed_example :
    Confirmed
      (debounce (some connect) (some 0) (after (up ∷ up ∷ miss ∷ []))).0
      (up ∷ up ∷ up ∷ miss ∷ [])
debounce-Confirmed_example = debounce-Confirmed (up ∷ up ∷ miss ∷ []) (some connect) (some 0)

-- In that run the link comes up.
confirmed_run : (debounce (some connect) (some 0) (after (up ∷ up ∷ miss ∷ []))).0 ≡ came_up
unfolding debounce after entered
confirmed_run = refl

neighbour-IsNeighbour_example : IsNeighbour (5180000 ∷ 5200000 ∷ 5210000 ∷ []) 1 (some 2)
unfolding neighbour
neighbour-IsNeighbour_example = neighbour-IsNeighbour (5180000 ∷ 5200000 ∷ 5210000 ∷ []) 1

abbrev off_channel : ChanInfo
off_channel = record { auto_mode = false; work_chan = 0; chan_num = 3 }

all_pushes-on_connect_example :
    all_pushes config
      (replicate 6 (checks (some 0) (some off_channel) (0, 0) 9))
      (on_connect 5 channel)
    ≤ 4
all_pushes-on_connect_example =
    all_pushes-on_connect config (replicate 6 (checks (some 0) (some off_channel) (0, 0) 9)) 5
      channel

standby_update-Follows_example :
    let (p', acts) = standby_update config true (some false) (some 10) power in
    Follows config true (some false) power p' acts
standby_update-Follows_example =
    standby_update-Follows config true (some false) (some 10) power refl

heat_log-Alternates_example : Alternates config false (
    heat_log config
      ((some 0, some (pos 990)) ∷ (some 0, some (pos 1000)) ∷ (some 0, some (pos 800)) ∷ [])
      power)
heat_log-Alternates_example =
    heat_log-Alternates config
      ((some 0, some (pos 990)) ∷ (some 0, some (pos 1000)) ∷ (some 0, some (pos 800)) ∷ []) power

arms-Spaced_example :
    Spaced 0 (rf_arms config (replicate 40 (true, none)) rf)
    × Spaced 0 (batt_arms config (replicate 40 (true, none)) batt)
arms-Spaced_example = arms-Spaced config (replicate 40 (true, none)) rf batt

abbrev three_ticks : List Step
three_ticks =
    ticks (tick_at 5 (some connect)) ∷ ticks (tick_at 6 none) ∷ ticks (tick_at 7 none) ∷ []

abbrev saved : Saved
saved = record { channel = some (chan_index 1); power = none }

run-IsSound_example :
    let c = init_ctx config saved [] in
    IsSound config (run config three_ticks c).0
    × ((run config three_ticks c).0.power.armed ≡ reported config three_ticks c true)
run-IsSound_example = run-IsSound config saved [] three_ticks

-- A poll is due in every second one of these.
abbrev lost_ticks : List Tick
lost_ticks =
    tick_at 5 none ∷ tick_at 6 none ∷ tick_at 10 none ∷ tick_at 11 none ∷ tick_at 15 none ∷ []

run_lost_example :
    ((run config (all_ticks lost_ticks) ctx).0.shared.restart_requested ≡ true)
    × ((run config (all_ticks lost_ticks) ctx).0.shared.shutdown_requested ≡ true)
run_lost_example =
    run_lost config lost_ticks ctx
      (λ d. refl, (λ d. refl, (λ d. refl, (λ d. refl, (λ d. refl, tt))))) (omega arith) refl

-- Three ticks on a CONNECT reading bring the link up.
connects_run : (run config three_ticks ctx).0.debounce.state ≡ connected
unfolding run
connects_run = refl

-- A chip that refuses the receive channel.
abbrev refuses_rx : Ioctl → Bool
refuses_rx (set_chan_rx c) = false
refuses_rx io = true

channel_apply_linked_lem_example :
    let (r, ios) = channel_apply_linked refuses_rx (some 0) (chan_index 5) in
    (r ≡ all_work refuses_rx ios)
    × (tells_peer ios ≡ (channel_apply_local refuses_rx (chan_index 5)).0)
channel_apply_linked_lem_example = channel_apply_linked_lem refuses_rx (some 0) (chan_index 5)
