-- ===== src/Lifecycle/Adc/Arms.antt =====
-- An ADC channel is armed seldom.
use ar8030_transport.Base.{
  ℕ, ◌+◌, ◌-◌, ◌≤◌, ◌≡◌, refl, Bool, true, false, Option, none, some, List, [], ◌∷◌, ltb, ◌==◌,
  arith, Bool-cases, inl, inr,
}
use ar8030_transport.Lifecycle.{Config, Act, arm_adc}
use ar8030_transport.Lifecycle.Adc.{
  adc_rearm_ticks, Arming, arm_step, RfTemp, rf_sample, rf_read, poll_rf_on, poll_rf_temp, Batt,
  batt_none, batt_read, poll_batt_on, batt_report, poll_batt, mv_to_c10, batt_mv, smooth_mv,
}

-- What the chip answers in one tick: whether an arm succeeds, and the voltage read.
abbrev pub Answer : Type 0
Answer = Bool × Option ℕ

abbrev pub arms : List Act → Bool
arms (arm_adc ch ∷ acts) = true
arms _ = false

-- For every tick of a run, whether the channel is armed in it.
abbrev pub rf_arms : Config → List Answer → RfTemp → List Bool
rf_arms cfg [] t = []
rf_arms cfg ((ok, read) ∷ rest) t =
    let (t', acts) = poll_rf_temp cfg ok read t in arms acts ∷ rf_arms cfg rest t'

abbrev pub batt_arms : Config → List Answer → Batt → List Bool
batt_arms cfg [] b = []
batt_arms cfg ((ok, read) ∷ rest) b =
    let (b', acts) = poll_batt cfg ok read b in arms acts ∷ batt_arms cfg rest b'

-- No tick of the next `wait` ones arms, and after one that does the next 30 do not.
abbrev pub Spaced : ℕ → List Bool → Type 0
Spaced wait [] = Unit
Spaced wait (true ∷ bs) = (wait ≡ 0) × Spaced adc_rearm_ticks bs
Spaced wait (false ∷ bs) = Spaced (wait - 1) bs

-- What one tick does to the wait, when it arms and when it does not.
abbrev Waits : Arming → Bool → Arming → Type 0
Waits a true a' = (a.rearm_wait ≡ 0) × (adc_rearm_ticks ≤ a'.rearm_wait)
Waits a false a' = a.rearm_wait ≤ a'.rearm_wait + 1

arm_step-Waits :
    (ch : ℕ) (ok : Bool) (a : Arming)
    → Waits a (arms (arm_step ch ok a.rearm_wait).1) (arm_step ch ok a.rearm_wait).0
unfolding arm_step
arm_step-Waits ch ok a = elim (Bool-cases (ltb 0 a.rearm_wait)) [
  | inl e ↦ rw e (ground arith)
  | inr e ↦ rw e (ground arith)
]

-- Reading a sample leaves the wait alone and arms nothing.
rf_sample-Waits :
    (cfg : Config) (b : Bool) (mv : ℕ) (c : Option ℕ) (t : RfTemp)
    → cfg.has_rf_temp_file ≡ b
    → Waits t.arming (arms (rf_sample cfg mv c t).1) (rf_sample cfg mv c t).0.arming
unfolding rf_sample
rf_sample-Waits cfg true mv none t e = rw e (omega arith)
rf_sample-Waits cfg false mv none t e = rw e (omega arith)
rf_sample-Waits cfg true mv (some s) t e = rw e (omega arith)
rf_sample-Waits cfg false mv (some s) t e = rw e (omega arith)

rf_read-Waits :
    (cfg : Config) (read : Option ℕ) (t : RfTemp)
    → Waits t.arming (arms (rf_read cfg read t).1) (rf_read cfg read t).0.arming
unfolding rf_read
rf_read-Waits cfg none t = omega arith
rf_read-Waits cfg (some mv) t = elim (Bool-cases (mv == 0)) [
  | inl e ↦ rw e (omega arith)
  | inr e ↦ rw e (rf_sample-Waits cfg cfg.has_rf_temp_file mv (mv_to_c10 mv) t refl)
]

rf_poll-Waits :
    (c : Option ℕ) (cfg : Config) (ok : Bool) (read : Option ℕ) (t : RfTemp)
    → let (t', acts) = poll_rf_on c cfg ok read t in Waits t.arming (arms acts) t'.arming
unfolding poll_rf_on
rf_poll-Waits none cfg ok read t = omega arith
rf_poll-Waits (some ch) cfg ok read t = elim (Bool-cases t.arming.armed) [
  | inl e ↦ simp e (rf_read-Waits cfg read t)
  | inr e ↦ simp e (arm_step-Waits ch ok t.arming)
]

batt_report-arms : (b : Bool) (mv : Option ℕ) → arms (batt_report b mv) ≡ false
batt_report-arms true none = refl
batt_report-arms true (some mv) = refl
batt_report-arms false none = refl
batt_report-arms false (some mv) = refl

batt_none-Waits :
    (cfg : Config) (file : Bool) (b b' : Batt)
    → cfg.has_batt_file ≡ file
    → b.arming.rearm_wait ≡ b'.arming.rearm_wait
    → Waits b'.arming (arms (batt_none cfg b).1) (batt_none cfg b).0.arming
unfolding batt_none
batt_none-Waits cfg true b b' e k = rw e (omega (arith, k))
batt_none-Waits cfg false b b' e k = rw e (omega (arith, k))

batt_read-Waits :
    (cfg : Config) (read : Option ℕ) (b : Batt)
    → Waits b.arming (arms (batt_read cfg read b).1) (batt_read cfg read b).0.arming
unfolding batt_read
batt_read-Waits cfg none b =
    batt_none-Waits cfg cfg.has_batt_file (record b { arming = record b.arming { armed = false } })
      b refl refl
batt_read-Waits cfg (some mv) b = elim (Bool-cases (mv == 0)) [
  | inl e ↦ simp e (batt_none-Waits cfg cfg.has_batt_file b b refl refl)
  | inr e ↦ simp e (
      rw
        (batt_report-arms cfg.has_batt_file
          (batt_mv (smooth_mv b.adc_mv mv) cfg.batt_scale cfg.batt_offset_mv))
        (omega arith))
]

batt_poll-Waits :
    (c : Option ℕ) (cfg : Config) (ok : Bool) (read : Option ℕ) (b : Batt)
    → let (b', acts) = poll_batt_on c cfg ok read b in Waits b.arming (arms acts) b'.arming
unfolding poll_batt_on
batt_poll-Waits none cfg ok read b = omega arith
batt_poll-Waits (some ch) cfg ok read b = elim (Bool-cases b.arming.armed) [
  | inl e ↦ simp e (batt_read-Waits cfg read b)
  | inr e ↦ simp e (arm_step-Waits ch ok b.arming)
]

Spaced-step :
    (wait : ℕ) (a a' : Arming) (b : Bool) (bs : List Bool)
    → wait ≤ a.rearm_wait
    → Waits a b a'
    → ((w : ℕ) → w ≤ a'.rearm_wait → Spaced w bs)
    → Spaced wait (b ∷ bs)
Spaced-step wait a a' true bs h w rest = (omega (arith, w.0), rest adc_rearm_ticks w.1)
Spaced-step wait a a' false bs h w rest = rest (wait - 1) (omega (arith, w))

rf_arms-Spaced :
    (cfg : Config) (answers : List Answer) (t : RfTemp) (wait : ℕ)
    → wait ≤ t.arming.rearm_wait
    → Spaced wait (rf_arms cfg answers t)
unfolding poll_rf_temp
rf_arms-Spaced cfg [] t wait h = tt
rf_arms-Spaced cfg ((ok, read) ∷ answers) t wait h =
    let t' = (poll_rf_temp cfg ok read t).0 in
    Spaced-step wait t.arming t'.arming _ _ h (rf_poll-Waits cfg.rf_temp_adc cfg ok read t)
      (λ w. rf_arms-Spaced cfg answers t' w)

batt_arms-Spaced :
    (cfg : Config) (answers : List Answer) (b : Batt) (wait : ℕ)
    → wait ≤ b.arming.rearm_wait
    → Spaced wait (batt_arms cfg answers b)
unfolding poll_batt
batt_arms-Spaced cfg [] b wait h = tt
batt_arms-Spaced cfg ((ok, read) ∷ answers) b wait h =
    let b' = (poll_batt cfg ok read b).0 in
    Spaced-step wait b.arming b'.arming _ _ h (batt_poll-Waits cfg.batt_adc cfg ok read b)
      (λ w. batt_arms-Spaced cfg answers b' w)

-- From any state, whatever the chip answers, neither the temperature's nor the supply's channel is
-- armed again within LC_ADC_REARM_TICKS ticks of an arm.
pub arms-Spaced :
    (cfg : Config) (answers : List Answer) (t : RfTemp) (b : Batt)
    → Spaced 0 (rf_arms cfg answers t) × Spaced 0 (batt_arms cfg answers b)
arms-Spaced cfg answers t b =
    (rf_arms-Spaced cfg answers t 0 (omega arith), batt_arms-Spaced cfg answers b 0 (omega arith))
