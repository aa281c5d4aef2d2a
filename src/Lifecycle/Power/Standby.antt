-- ===== src/Lifecycle/Power/Standby.antt =====
-- The low-power mode follows the arm state, and the pause for heat has its two thresholds.
use ar8030_transport.Base.{
  ℕ, ◌≡◌, ◌≢◌, inl, inr, refl, Bool, true, false, not, ◌&&◌, Option, none, some, List, [], ◌∷◌,
  arith, Bool-cases,
}
use ar8030_transport.Base.Int.{ℤ}
use ar8030_transport.Lifecycle.{
  Config, Act, Role, role_ap, role_dev, run_hook, overheat_hook, resume_hook, Level, power_auto,
  power_none, milliwatts, apply_power, apply_standby,
}
use ar8030_transport.Lifecycle.Power.{
  Power, at_least, at_most, heat_step, heat_guarded, overheat_update, has_standby, standby_update,
  power_acts, apply_level,
}

-- What one call makes of the power, with the arm state in the mailbox and whether the link is up.
pub record Follows (cfg : Config) (up : Bool) (pending : Option Bool) (p p' : Power)
    (acts : List Act) : Type 0 where
  pub told : (b : Bool) → pending ≡ some b → p'.armed ≡ b
  pub untold : pending ≡ none → p'.armed ≡ p.armed
  pub same_rest : (p'.overheat ≡ p.overheat) × (p'.level ≡ p.level)
  pub left : (p'.armed && not p'.overheat) ≡ true → p'.standby ≡ false
  pub entered : (p'.armed && not p'.overheat) ≡ false → up ≡ true → p'.standby ≡ true
  pub kept : (p'.armed && not p'.overheat) ≡ false → up ≡ false → p'.standby ≡ p.standby
  pub no_change : p'.standby ≡ p.standby → acts ≡ []
  pub to_standby :
      (dbm : ℕ)
      → cfg.standby_dbm ≡ some dbm
      → p.standby ≡ false
      → p'.standby ≡ true
      → acts ≡ apply_standby dbm ∷ []
  pub to_level :
      p.standby ≡ true → p'.standby ≡ false → p.level ≢ power_none → acts ≡ apply_power p.level ∷ []
  pub left_alone : p.standby ≡ true → p'.standby ≡ false → p.level ≡ power_none → acts ≡ []

apply_level-some : (l : Level) → l ≢ power_none → apply_level l ≡ apply_power l ∷ []
apply_level-some power_auto ne = refl
apply_level-some power_none ne = absurd (ne refl)
apply_level-some (milliwatts n) ne = refl

-- On the AP with a low-power target: what the mailbox holds is the arm state from then on, and without
-- that it stays. Armed and not paused for heat, the low-power mode ends; otherwise it begins if the
-- link is up, and stays as it was if not. Where it begins, the low power is applied to the chip, where
-- it ends, the wanted level is, except that a level of LC_POWER_NONE leaves the chip at the low power;
-- where the mode stays, nothing is applied.
pub standby_update-Follows :
    (cfg : Config) (up : Bool) (pending : Option Bool) (dbm : Option ℕ) (p : Power)
    → has_standby cfg ≡ true
    → let (p', acts) = standby_update cfg up pending dbm p in Follows cfg up pending p p' acts
unfolding standby_update power_acts
standby_update-Follows cfg up pending dbm p h = record {
  told = λ b e. rw (h, e) (ground arith);
  untold = λ e. rw (h, e) (ground arith);
  same_rest = ground (arith, h);
  left = ground (arith, h);
  entered = ground (arith, h);
  kept = ground (arith, h);
  no_change = ground (arith, h);
  to_standby = λ d e off on. ground (arith, h, e);
  to_level = λ on off ne. ground (arith, h, apply_level-some p.level ne);
  left_alone = λ on off e. ground (arith, h, e);
}

-- A call of `lc_overheat_update`: the slot, and the reading at that time.
abbrev pub HeatCall : Type 0
HeatCall = Option ℕ × Option ℤ

abbrev pub with_soc : Option ℤ → Power → Power
with_soc soc p = record p { soc = soc }

-- What the calls do, each with the reading it was made on.
abbrev pub heat_log : Config → List HeatCall → Power → List (Option ℤ × List Act)
heat_log cfg [] p = []
heat_log cfg ((slot, soc) ∷ calls) p =
    let (p', acts) = overheat_update cfg slot (with_soc soc p) in
    (soc, acts) ∷ heat_log cfg calls p'

-- One entry of the log and the pause before and after it: a pause begins at the limit or above, and
-- ends at the lower threshold or below.
pub data Heats (cfg : Config) (b : Bool) (soc : Option ℤ) (acts : List Act) (b' : Bool)
    : Type 0 where
  keeps : acts ≡ [] → b' ≡ b → Heats cfg b soc acts b'
  pauses :
      (limit : ℕ) (c10 : ℤ) (slot : Option ℕ)
      → (b ≡ false) × (b' ≡ true) × (soc ≡ some c10) × (acts ≡ run_hook overheat_hook slot ∷ [])
      → cfg.overheat_c ≡ some limit
      → at_least limit c10 ≡ true
      → Heats cfg b soc acts b'
  resumes :
      (c10 : ℤ) (slot : Option ℕ)
      → (b ≡ true) × (b' ≡ false) × (soc ≡ some c10) × (acts ≡ run_hook resume_hook slot ∷ [])
      → at_most cfg.overheat_resume_c c10 ≡ true
      → Heats cfg b soc acts b'

-- A log whose entries follow on each other.
abbrev pub Alternates : Config → Bool → List (Option ℤ × List Act) → Type 0
Alternates cfg b [] = Unit
Alternates cfg b ((soc, acts) ∷ rest) =
    (b' : Bool) × Heats cfg b soc acts b' × Alternates cfg b' rest

and_parts : (a b : Bool) → (a && b) ≡ true → (a ≡ true) × (b ≡ true)
and_parts true b h = (refl, h)
and_parts false b h = ground arith

false_of_not : (b : Bool) → not b ≡ true → b ≡ false
false_of_not true h = ground arith
false_of_not false h = refl

heat_step-Heats :
    (cfg : Config) (limit : ℕ) (slot : Option ℕ) (c10 : ℤ) (p : Power)
    → cfg.overheat_c ≡ some limit
    → let (p', acts) = heat_step limit cfg.overheat_resume_c slot c10 p in
      Heats cfg p.overheat (some c10) acts p'.overheat
unfolding heat_step
heat_step-Heats cfg limit slot c10 p given =
    elim (Bool-cases (not p.overheat && at_least limit c10)) [
      | inl hot ↦
          let (cool, reached) = and_parts _ _ hot in
          rw hot (pauses limit c10 slot (false_of_not _ cool, refl, refl, refl) given reached)
      | inr warm ↦ elim (Bool-cases (p.overheat && at_most cfg.overheat_resume_c c10)) [
        | inl cooled ↦
            let (paused, reached) = and_parts _ _ cooled in
            rw (warm, cooled) (resumes c10 slot (paused, refl, refl, refl) reached)
        | inr between ↦ rw (warm, between) (keeps refl refl)
      ]
    ]

guarded-Heats :
    (cfg : Config) (role : Role) (limit : Option ℕ) (soc : Option ℤ) (slot : Option ℕ) (p : Power)
    → cfg.overheat_c ≡ limit
    → let (p', acts) = heat_guarded role limit soc cfg.overheat_resume_c slot p in
      Heats cfg p.overheat soc acts p'.overheat
unfolding heat_guarded
guarded-Heats cfg role_ap (some limit) (some c10) slot p e = heat_step-Heats cfg limit slot c10 p e
guarded-Heats cfg role_ap (some limit) none slot p e = keeps refl refl
guarded-Heats cfg role_ap none soc slot p e = keeps refl refl
guarded-Heats cfg role_dev limit soc slot p e = keeps refl refl

-- Whatever the readings, a run of `lc_overheat_update` runs the hooks in turn, a pause only at the
-- limit or above and a resume only at the lower threshold or below.
pub heat_log-Alternates :
    (cfg : Config) (calls : List HeatCall) (p : Power)
    → Alternates cfg p.overheat (heat_log cfg calls p)
heat_log-Alternates cfg [] p = tt
heat_log-Alternates cfg ((slot, soc) ∷ calls) p =
    let p' = (overheat_update cfg slot (with_soc soc p)).0 in
    (
      p'.overheat,
      (unfold overheat_update in
          guarded-Heats cfg cfg.role cfg.overheat_c soc slot (with_soc soc p) refl),
      heat_log-Alternates cfg calls p',
    )
