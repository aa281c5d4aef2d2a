-- ===== src/Lifecycle/Power.antt =====
-- lifecycled/lifecycle.c: the output power, the low-power mode and the pause for heat.
pub mod Standby
use ar8030_transport.Base.{
  ℕ, ◌*◌, Bool, true, false, Option, none, some, List, [], ◌∷◌, ◌++◌, leb, not, ◌&&◌, if◌then◌else◌,
  ltb, ◌+◌, ◌-◌,
}
use ar8030_transport.Base.Int.{ℤ, pos, negsuc}
use ar8030_transport.Lifecycle.{
  Role, role_ap, role_dev, is_ap, Config, Level, power_auto, power_none, milliwatts, Act, run_hook,
  overheat_hook, resume_hook, save_power, apply_power, apply_standby,
}

abbrev pub soc_temp_poll_s : ℕ
soc_temp_poll_s = 2

-- The fields of `struct lifecycle_ctx` about the power and the heat. The temperature is in tenths
-- of a degree, `soc` is `none` while soc_temp_valid is 0.
pub record Power : Type 0 where
  pub level : Level
  pub power_dbm : Option ℕ
  pub armed : Bool
  pub standby : Bool
  pub soc_temp_last : ℕ
  pub soc : Option ℤ
  pub overheat : Bool

-- The level to apply, if the chip's power is not to be left alone.
abbrev pub apply_level : Level → List Act
apply_level power_none = []
apply_level level = apply_power level ∷ []

-- cfg.standby_dbm in the low-power mode, which is only entered when it is given.
abbrev pub standby_acts : Option ℕ → List Act
standby_acts none = []
standby_acts (some dbm) = apply_standby dbm ∷ []

-- `lc_apply_power`
unfoldable pub power_acts : Config → Power → List Act
power_acts cfg p = if p.standby then standby_acts cfg.standby_dbm else apply_level p.level

-- A run of the command: `none` when it could not be started, else the reading it gave, if any.
abbrev pub told_by : Option (Option ℤ) → Option ℤ → Option ℤ
told_by none old = old
told_by (some reading) old = reading

-- `lc_poll_soc_temp`, at the time `now`.
unfoldable pub poll_soc_temp : Config → ℕ → Option (Option ℤ) → Power → Power
poll_soc_temp cfg now run p =
    if not cfg.has_soc_temp_cmd
    then p
    else if ltb now (p.soc_temp_last + soc_temp_poll_s)
    then p
    else record p { soc_temp_last = now; soc = told_by run p.soc }

-- `c10 >= limit * 10` and `c10 <= limit * 10`
abbrev pub at_least : ℕ → ℤ → Bool
at_least limit (pos c10) = leb (limit * 10) c10
at_least limit (negsuc n) = false

abbrev pub at_most : ℕ → ℤ → Bool
at_most limit (pos c10) = leb c10 (limit * 10)
at_most limit (negsuc n) = true

-- The two thresholds, for a reading.
unfoldable pub heat_step : ℕ → ℕ → Option ℕ → ℤ → Power → Power × List Act
heat_step limit resume slot c10 p =
    if not p.overheat && at_least limit c10
    then (record p { overheat = true }, run_hook overheat_hook slot ∷ [])
    else if p.overheat && at_most resume c10
    then (record p { overheat = false }, run_hook resume_hook slot ∷ [])
    else (p, [])

-- Only the AP pauses, with a limit and a reading.
unfoldable pub heat_guarded : Role → Option ℕ → Option ℤ → ℕ → Option ℕ → Power → Power × List Act
unfolding heat_step
heat_guarded role_ap (some limit) (some c10) resume slot p = heat_step limit resume slot c10 p
heat_guarded role_ap (some limit) none resume slot p = (p, [])
heat_guarded role_ap none soc resume slot p = (p, [])
heat_guarded role_dev limit soc resume slot p = (p, [])

-- `lc_overheat_update`, on the connected slot
unfoldable pub overheat_update : Config → Option ℕ → Power → Power × List Act
unfolding heat_guarded
overheat_update cfg slot p = heat_guarded cfg.role cfg.overheat_c p.soc cfg.overheat_resume_c slot p

abbrev pub armed_or : Option Bool → Bool → Bool
armed_or none armed = armed
armed_or (some b) armed = b

-- `want`; `up` is whether the state is LC_STATE_CONNECTED.
abbrev pub wants_standby : Bool → Power → Bool
wants_standby up p = if p.armed && not p.overheat then false else if up then true else p.standby

abbrev pub has_standby : Config → Bool
has_standby cfg = is_ap cfg.role && given cfg.standby_dbm
  where
    given : Option ℕ → Bool
    given none = false
    given (some dbm) = true

abbrev pub same : Bool → Bool → Bool
same true b = b
same false b = not b

-- `lc_standby_update`, for the mailbox's content and the power that lc_poll_power then reads.
unfoldable pub standby_update : Config → Bool → Option Bool → Option ℕ → Power → Power × List Act
unfolding power_acts
standby_update cfg up pending dbm p =
    let told = record p { armed = armed_or pending p.armed } in
    if not (has_standby cfg)
    then (told, [])
    else if same (wants_standby up told) told.standby
    then (told, [])
    else (
      record told { standby = wants_standby up told; power_dbm = dbm },
      power_acts cfg (record told { standby = wants_standby up told }),
    )

abbrev pub save_power_if : Bool → Level → List Act
save_power_if true level = save_power level ∷ []
save_power_if false level = []

-- `lc_drain_power_request`, for a request that was in the mailbox and the power then read.
unfoldable pub change_power : Config → Option ℕ → Level → Power → Power × List Act
unfolding power_acts
change_power cfg dbm level p = (
  record p { level = level; power_dbm = dbm },
  save_power_if cfg.has_cfg_path level ++ power_acts cfg (record p { level = level }),
)
