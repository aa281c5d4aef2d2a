-- ===== src/Lifecycle/Adc.antt =====
-- lifecycled/lifecycle.c: the board's temperature and the supply voltage, one sample each per tick,
-- with the thermistor table of common/ar8030_rftemp.h and the divider of common/ar8030_batt.h.
pub mod Arms
pub mod Table
use ar8030_transport.Base.{
  ℕ, suc, ◌+◌, ◌-◌, ◌*◌, ◌/◌, Bool, true, false, Option, none, some, List, [], ◌∷◌, ltb, leb, ◌==◌,
  if◌then◌else◌,
}
use ar8030_transport.Lifecycle.{
  Config, Act, arm_adc, write_rf_temp, write_batt, remove_rf_temp, remove_batt,
}

abbrev pub adc_rearm_ticks : ℕ
adc_rearm_ticks = 30

-- `ar8030_rftemp_table`: degrees and millivolts, the first row and the others.
abbrev pub first : ℕ × ℕ
first = (0, 500)

abbrev pub rows : List (ℕ × ℕ)
rows =
    (15, 740)
    ∷ (25, 900)
    ∷ (40, 1076)
    ∷ (50, 1193)
    ∷ (65, 1370)
    ∷ (75, 1440)
    ∷ (85, 1510)
    ∷ (95, 1570)
    ∷ (105, 1660)
    ∷ (115, 1700)
    ∷ (125, 1740)
    ∷ []

-- Between two rows of the table, in tenths of a degree.
unfoldable pub between : ℕ × ℕ → ℕ × ℕ → ℕ → ℕ
between (c0, v0) (c1, v1) mv = c0 * 10 + (c1 * 10 - c0 * 10) * (mv - v0) / (v1 - v0)

-- The loop over the rows after `row`.
unfoldable pub lookup_from : ℕ × ℕ → List (ℕ × ℕ) → ℕ → ℕ
unfolding between
lookup_from row [] mv = 1300
lookup_from row (next ∷ others) mv =
    let rest = lookup_from next others mv in if ltb mv next.1 then between row next mv else rest

-- `ar8030_rftemp_mv_to_c10`, `none` for AR8030_RFTEMP_NONE
unfoldable pub mv_to_c10 : ℕ → Option ℕ
unfolding lookup_from
mv_to_c10 mv = if ltb mv first.1 then none else some (lookup_from first rows mv)

-- `ar8030_batt_mv`, `none` for -1
unfoldable pub batt_mv : ℕ → ℕ → ℕ → Option ℕ
batt_mv adc_mv scale offset_mv = if ltb 0 adc_mv then some (adc_mv * scale + offset_mv) else none

-- The arming of a channel: whether it is armed, and the ticks until it may be armed again.
pub record Arming : Type 0 where
  pub armed : Bool
  pub rearm_wait : ℕ

-- A tick on a channel that is not armed; `ok` is whether ar8030_rftemp_arm succeeds.
unfoldable pub arm_step : ℕ → Bool → ℕ → Arming × List Act
arm_step ch ok wait =
    if ltb 0 wait
    then (record { armed = false; rearm_wait = wait - 1 }, [])
    else (record { armed = ok; rearm_wait = adc_rearm_ticks }, arm_adc ch ∷ [])

-- `lc_poll_rf_temp`'s fields; `c10` is `none` while rf_temp_valid is 0.
pub record RfTemp : Type 0 where
  pub arming : Arming
  pub c10 : Option ℕ
  pub mv : ℕ

abbrev pub smooth : Option ℕ → ℕ → ℕ
smooth none sample = sample
smooth (some old) sample = (old * 3 + sample) / 4

abbrev pub act_if : Bool → Act → List Act
act_if true a = a ∷ []
act_if false a = []

-- A measured voltage that is not 0, with the sample it converts to.
unfoldable pub rf_sample : Config → ℕ → Option ℕ → RfTemp → RfTemp × List Act
rf_sample cfg mv none t =
    (record t { c10 = none; mv = mv }, act_if cfg.has_rf_temp_file remove_rf_temp)
rf_sample cfg mv (some sample) t = (
  record t { c10 = some (smooth t.c10 sample); mv = mv },
  act_if cfg.has_rf_temp_file (write_rf_temp ((smooth t.c10 sample + 5) / 10)),
)

-- A tick on an armed channel: `read` is `none` when the read fails, and 0 for any voltage up to 0.
unfoldable pub rf_read : Config → Option ℕ → RfTemp → RfTemp × List Act
unfolding rf_sample mv_to_c10
rf_read cfg none t = (record t { arming = record t.arming { armed = false } }, [])
rf_read cfg (some mv) t = if mv == 0 then (t, []) else rf_sample cfg mv (mv_to_c10 mv) t

-- `lc_poll_rf_temp` on the channel of cfg.rf_temp_adc, if any
unfoldable pub poll_rf_on : Option ℕ → Config → Bool → Option ℕ → RfTemp → RfTemp × List Act
unfolding arm_step rf_read
poll_rf_on none cfg ok read t = (t, [])
poll_rf_on (some ch) cfg ok read t = if t.arming.armed then rf_read cfg read t else (
  record t { arming = (arm_step ch ok t.arming.rearm_wait).0 },
  (arm_step ch ok t.arming.rearm_wait).1,
)

unfoldable pub poll_rf_temp : Config → Bool → Option ℕ → RfTemp → RfTemp × List Act
unfolding poll_rf_on
poll_rf_temp cfg ok read t = poll_rf_on cfg.rf_temp_adc cfg ok read t

-- `lc_poll_batt`'s fields; adc_mv is 0 for none.
pub record Batt : Type 0 where
  pub arming : Arming
  pub adc_mv : ℕ

abbrev pub smooth_mv : ℕ → ℕ → ℕ
smooth_mv old mv = if ltb 0 old then (old * 3 + mv) / 4 else mv

-- The file gets the voltage in hundredths of a volt, rounded; it is only reached with one.
abbrev pub batt_report : Bool → Option ℕ → List Act
batt_report true (some mv) = write_batt ((mv + 5) / 10) ∷ []
batt_report _ _ = []

unfoldable pub batt_none : Config → Batt → Batt × List Act
batt_none cfg b = (record b { adc_mv = 0 }, act_if cfg.has_batt_file remove_batt)

unfoldable pub batt_read : Config → Option ℕ → Batt → Batt × List Act
unfolding batt_none batt_mv
batt_read cfg none b = batt_none cfg (record b { arming = record b.arming { armed = false } })
batt_read cfg (some mv) b = if mv == 0 then batt_none cfg b else (
  record b { adc_mv = smooth_mv b.adc_mv mv },
  batt_report cfg.has_batt_file (batt_mv (smooth_mv b.adc_mv mv) cfg.batt_scale cfg.batt_offset_mv),
)

-- `lc_poll_batt` on the channel of cfg.batt_adc, if any
unfoldable pub poll_batt_on : Option ℕ → Config → Bool → Option ℕ → Batt → Batt × List Act
unfolding arm_step batt_read
poll_batt_on none cfg ok read b = (b, [])
poll_batt_on (some ch) cfg ok read b = if b.arming.armed then batt_read cfg read b else (
  record b { arming = (arm_step ch ok b.arming.rearm_wait).0 },
  (arm_step ch ok b.arming.rearm_wait).1,
)

unfoldable pub poll_batt : Config → Bool → Option ℕ → Batt → Batt × List Act
unfolding poll_batt_on
poll_batt cfg ok read b = poll_batt_on cfg.batt_adc cfg ok read b
