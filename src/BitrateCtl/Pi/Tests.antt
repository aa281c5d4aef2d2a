-- ===== src/BitrateCtl/Pi/Tests.antt =====
-- The PI controller in thousandths, against an encoder that refuses rates below 1000 kbps at the full
-- frame rate.
use native.Mathlib.Nat.{le-div_iff_mul-le, div-mul-le_self}
use ar8030_transport.Base.{
  ℕ, ◌+◌, ◌*◌, ◌/◌, ◌≤◌, ◌<◌, ◌≡◌, refl, Bool, true, false, [], ◌∷◌, none, some, arith, ltb,
  if◌then◌else◌, not, All,
}
use ar8030_transport.Base.Int.{ℤ, pos, negsuc, pos_part, neg_part, nat_abs, sub_ℕ, ◌+ℤ◌, ◌-ℤ◌}
use ar8030_transport.BitrateCtl.Cut.{
  Request, bitrate, bitrate_and_roi, roi_on, roi_off, fps_div, fps_div_and_bitrate,
}
use ar8030_transport.BitrateCtl.Pi.Double.{Double, IsTruncated, frac}
use ar8030_transport.BitrateCtl.Pi.Vars.{PiConfig, PiState, Readings, Focus, pi_init}
use ar8030_transport.BitrateCtl.Pi.Loop.{regulate, pi_ticks, pi_tick}
use ar8030_transport.BitrateCtl.Pi.Control.{k_min_of}
use ar8030_transport.BitrateCtl.Pi.Bounds.{IsValid}
use ar8030_transport.BitrateCtl.Pi.Roi.{pi_focus}
use ar8030_transport.BitrateCtl.Pi.Patience.{Rounds, Comfortable, focus_run, pi_focus_off}
use ar8030_transport.BitrateCtl.Pi.Limits.{IsRegulated, regulate-IsRegulated}
use ar8030_transport.BitrateCtl.Pi.Rounds.{pi_init-IsValid, pi_ticks-IsValid}

-- |n|, with the sign that two factors give.
abbrev signed : Bool → ℕ → ℤ
signed true n = sub_ℕ 0 n
signed false n = pos n

abbrev is_negative : ℤ → Bool
is_negative (pos n) = false
is_negative (negsuc n) = true

abbrev differ : Bool → Bool → Bool
differ true b = not b
differ false b = b

abbrev milli_lt : ℤ → ℤ → Bool
milli_lt a b = ltb (pos_part a + neg_part b) (pos_part b + neg_part a)

instance abbrev milli : Double ℤ
milli = record {
  of_nat = λ n. pos (n * 1000);
  plus = ◌+ℤ◌;
  minus = ◌-ℤ◌;
  times = λ a b. signed (differ (is_negative a) (is_negative b)) (nat_abs a * nat_abs b / 1000);
  over = λ a b. signed (differ (is_negative a) (is_negative b)) (nat_abs a * 1000 / nat_abs b);
  lt = milli_lt;
  trunc = λ a. pos_part a / 1000;
}

quotient_le : (n d : ℕ) → 0 < d → n / d * 1000 ≤ (n * 1000 + 0) * 1000 / (d * 1000 + 0)
quotient_le n d h = let e = div-mul-le_self n d in (le-div_iff_mul-le (omega arith)).1 (grind arith)

milli_within :
    (x : ℤ) (n d m : ℕ)
    → 0 < d
    → m < 4294967296
    → milli_lt x (frac n d) ≡ false
    → milli_lt (pos (m * 1000)) x ≡ false
    → (n / d ≤ pos_part x / 1000) × (pos_part x / 1000 ≤ m)
milli_within (pos p) n d m h s low high = ground (arith, quotient_le n d h)
milli_within (negsuc p) n d m h s low high = absurd (ground arith)

milli-IsTruncated : IsTruncated ℤ
milli-IsTruncated = record {
  irrefl = λ x. ground arith;
  trunc_within = milli_within;
  trunc_of_nat = λ n h. omega arith;
}

-- The world is the divisor that was set, and the number of requests.
abbrev answer : ℕ → ℕ → ℕ
answer div kbps = if ltb (kbps * div) 1000 then 409 else 200

abbrev waybeam : ℕ × ℕ → Request → ℕ × (ℕ × ℕ)
waybeam w (bitrate kbps) = (answer w.0 kbps, (w.0, w.1 + 1))
waybeam w (bitrate_and_roi kbps) = (answer w.0 kbps, (w.0, w.1 + 1))
waybeam w roi_on = (200, (w.0, w.1 + 1))
waybeam w roi_off = (200, (w.0, w.1 + 1))
waybeam w (fps_div d) = (200, (d, w.1 + 1))
waybeam w (fps_div_and_bitrate d kbps) =
    if ltb (kbps * d) 1000 then (409, (w.0, w.1 + 1)) else (200, (d, w.1 + 1))

abbrev config : PiConfig ℤ
config = record {
  min_kbps = 1000;
  max_kbps = 20000;
  poll_interval_ms = 1000;
  ring_backlog_high_slots = 2;
  roi_max_kbps = 3000;
  roi_recovery_ms = 5000;
  fps_div_max = 4;
  fps_recovery_ms = 2000;
  pi_retx_severe_events = 6;
  margin = pos 700;
  ring_backoff = pos 850;
  ldpc_ratio_high = pos 100;
  ldpc_severe_ratio = pos 500;
  pi_delay_set_ms = pos 10000;
  pi_kp_up = pos 10;
  pi_kp_down = pos 20;
  pi_ki_up = pos 20;
  pi_ki_down = pos 60;
  pi_k_min = pos 100;
  pi_k_max = pos 1200;
  pi_slew_up = pos 1500;
  pi_severe_k = pos 400;
  pi_mild_trim = pos 900;
  pi_recover_per_s = pos 300;
}

abbrev steady : Readings ℤ
steady = record {
  now = 5000;
  ring_generation = 1;
  delay_us = 4000;
  last_tx_done_ms = 4990;
  wake = 0;
  mcs = some 6000;
  retx_too_many = 0;
  ldpc = some (pos 0);
  ring_slots = some 0;
}

-- A fade: the capacity falls, and most of the blocks are lost.
abbrev fade : Readings ℤ
fade = record steady {
  now = 6100;
  last_tx_done_ms = 6090;
  wake = 1;
  mcs = some 1500;
  delay_us = 30000;
  ldpc = some (pos 800);
}

abbrev start : PiState ℤ
start = pi_init config 4900 1

k_range : milli_lt config.pi_k_max (k_min_of config start) ≡ false
unfolding pi_init
k_range = refl

abbrev no_focus : Focus
no_focus = record { focus = none; above_since_ms = 0; try_ms = 0 }

abbrev rounds : Rounds
rounds = (4000, 2100) ∷ (500, 1000) ∷ []

focus_on : (focus_run 3000 5000 waybeam rounds (no_focus, (1, 0))).0.focus ≡ some true
unfolding focus_run pi_focus
focus_on = refl

focus_gone :
    (focus_run 3000 5000 waybeam ((4000, 7100) ∷ rounds) (no_focus, (1, 0))).0.focus ≡ some false
unfolding focus_run pi_focus
focus_gone = refl

-- 6000 kbps with the margin, 1.072 times.
first_rate : (pi_tick waybeam config steady (start, (1, 0))).0.applied_kbps ≡ 4502
unfolding pi_init pi_tick ◌+ℤ◌ ◌-ℤ◌
first_rate = refl

-- Every second frame, at half of the floor.
fade_rate :
    let st =
      (pi_tick waybeam config fade (
        record start { applied_kbps = 4502; last_tick_ms = 6000; cap_kbps = 6000; div = some 1 },
        (1, 0),
      )).0 in
    (st.applied_kbps ≡ 500) × (st.div ≡ some 2) × (st.k_i ≡ pos 280)
unfolding pi_init pi_tick ◌+ℤ◌ ◌-ℤ◌
fade_rate = (refl, refl, refl)

pi_ticks-IsValid_example :
    IsValid config (pi_ticks waybeam config (steady ∷ fade ∷ []) (start, (1, 0))).0
pi_ticks-IsValid_example =
    pi_ticks-IsValid config milli-IsTruncated (omega arith) waybeam (steady ∷ fade ∷ []) 4900 1
      (1, 0)

regulate-IsRegulated_example :
    IsRegulated config start
      (regulate waybeam config 5000 (pos 30000) (pos 100) true (start, (1, 0))).0
regulate-IsRegulated_example =
    regulate-IsRegulated milli-IsTruncated config (omega arith) waybeam 5000 (pos 30000) (pos 100)
      true start (1, 0) (pi_init-IsValid config 4900 1) k_range

-- A low rate, then comfortable ones for five seconds.
pi_focus_off_example : (3000 ≤ 4000) × All (λ r. 7100 < r.1 + 5000 → Comfortable 3000 r) rounds
pi_focus_off_example =
    pi_focus_off 3000 5000 waybeam rounds 4000 7100 no_focus (1, 0) (omega arith) refl focus_on
      focus_gone
