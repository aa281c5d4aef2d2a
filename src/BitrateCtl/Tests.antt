-- ===== src/BitrateCtl/Tests.antt =====
-- The controller against an encoder that refuses rates below 1000 kbps.
use ar8030_transport.Base.{
  ℕ, ◌+◌, ◌*◌, ◌/◌, ◌<◌, ◌≡◌, refl, [], ◌∷◌, true, false, some, arith, ltb, if◌then◌else◌,
}
use ar8030_transport.BitrateCtl.{fast_stages}
use ar8030_transport.BitrateCtl.Vars.{Config, init}
use ar8030_transport.BitrateCtl.Cut.{
  Request, bitrate, bitrate_and_roi, roi_on, roi_off, fps_div, fps_div_and_bitrate, Refuses,
  apply_cut,
}
use ar8030_transport.BitrateCtl.Vars.{learn_floor}
use ar8030_transport.BitrateCtl.Stages.{Inputs}
use ar8030_transport.BitrateCtl.Stages.Bounds.{IsConfig, IsValid, Lowers, init-IsValid}
use ar8030_transport.BitrateCtl.Limits.{ticks, fast_stages-Lowers, ticks-IsValid}

abbrev answer : ℕ → ℕ
answer kbps = if ltb kbps 1000 then 409 else 200

-- The world counts the requests.
abbrev waybeam : ℕ → Request → ℕ × ℕ
waybeam n (bitrate kbps) = (answer kbps, n + 1)
waybeam n (bitrate_and_roi kbps) = (answer kbps, n + 1)
waybeam n roi_on = (200, n + 1)
waybeam n roi_off = (200, n + 1)
waybeam n (fps_div d) = (200, n + 1)
waybeam n (fps_div_and_bitrate d kbps) = (answer (kbps * d), n + 1)

answer_lem : (kbps : ℕ) → answer kbps ≡ 409 → kbps < 1000
answer_lem kbps e = ground arith

waybeam-Refuses : Refuses waybeam 1000
waybeam-Refuses = record { below = λ w k e. answer_lem k e; below_roi = λ w k e. answer_lem k e }

abbrev config : Config
config = record {
  min_kbps = 500;
  max_kbps = 20000;
  ring_backlog_high_slots = 2;
  roi_max_kbps = 1500;
  roi_recovery_ms = 5000;
  poll_interval_ms = 1000;
  min_interval_ms = 1000;
  ramp_settle_ms = 1500;
  unstable_window_ms = 10000;
  probe_hold_ms = 5000;
  retx_severe_events = 3;
  probe_on = true;
  ldpc_on = true;
  retx_on = true;
  ramp_on = true;
  unstable_on = true;
  ring_scaled = λ k. k * 85 / 100;
  ldpc_scaled = λ k. k * 85 / 100;
  retx_scaled = λ k. k * 85 / 100;
  severe_scaled = λ k. k * 60 / 100;
  probe_scaled = λ k. k * 90 / 100;
  margin_scaled = λ k. k * 70 / 100;
  ramp_scaled = λ k. k * 125 / 100;
  unstable_scaled = λ k. k * 110 / 100;
  jump_scaled = λ k. k * 60 / 100;
  small_change = λ target last. false;
}

config-IsConfig : IsConfig config 1000
config-IsConfig = omega arith

-- A severe cut from 1600 kbps asks for 960, is refused, and settles halfway, at 1280.
severe_cut :
    apply_cut waybeam 960 1600 500 1 0
    ≡ record { status = 200; kbps = 1280; floor_kbps = 961; world = 2 }
unfolding apply_cut learn_floor
severe_cut = refl

abbrev busy : Inputs
busy = record {
  now = 10000;
  ring_slots = some 4;
  ldpc = some (true, true);
  retx_too_many = 2;
  wake = 1;
  link_kbps = some 10000;
}

abbrev later : Inputs
later = record busy { now = 20000; link_kbps = some 1300 }

fast_stages-Lowers_example :
    Lowers config 1000 (init config) (fast_stages waybeam config busy (init config, 0)).0
fast_stages-Lowers_example =
    fast_stages-Lowers waybeam config 1000 config-IsConfig waybeam-Refuses busy (init config) 0
      (init-IsValid config 1000 config-IsConfig)

ticks-IsValid_example :
    IsValid config 1000 (ticks waybeam config (busy ∷ later ∷ []) (init config, 0)).0
ticks-IsValid_example =
    ticks-IsValid waybeam config 1000 config-IsConfig waybeam-Refuses (busy ∷ later ∷ []) 0
