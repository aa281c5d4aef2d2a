-- ===== src/Lifecycle/Loop/Arms.antt =====
-- The arm state of the daemon is the last one that a round found in the mailbox.
use ar8030_transport.Base.{
  ℕ, ◌≡◌, refl, ap, ◌∙◌, Bool, true, false, not, Option, none, some, List, [], ◌∷◌, arith,
  if◌then◌else◌,
}
use ar8030_transport.Base.Int.{ℤ}
use ar8030_transport.Lifecycle.{Config, Role, role_ap, role_dev}
use ar8030_transport.Lifecycle.Power.{
  Power, heat_step, heat_guarded, overheat_update, poll_soc_temp, standby_update,
}
use ar8030_transport.Lifecycle.Ctx.{Ctx, Tick, ◌⨾◌, only_if, take_events}
use ar8030_transport.Lifecycle.Drains.{slot_of}
use ar8030_transport.Lifecycle.Switch.{switch}
use ar8030_transport.Lifecycle.Loop.{
  fallback, heat, standby, round, tick, Step, ticks, asks, signals, step, run, poll_due,
}
use ar8030_transport.Lifecycle.Loop.View.{view, take_events-Has, switched-Has, before_heat}

-- A report that was found in the mailbox, or the state before.
abbrev pub latest : Option Bool → Bool → Bool
latest none armed = armed
latest (some report) armed = report

-- The last arm report that a round of the running daemon found in its mailbox, or `armed`.
unfoldable pub reported : Config → List Step → Ctx → Bool → Bool
reported cfg [] c armed = armed
reported cfg (ticks i ∷ steps) c armed =
    reported cfg steps (step cfg (ticks i) c).0
      (if c.shared.shutdown_requested then armed else latest c.mailbox.armed armed)
reported cfg (asks f ∷ steps) c armed = reported cfg steps (step cfg (asks f) c).0 armed
reported cfg (signals ∷ steps) c armed = reported cfg steps (step cfg signals c).0 armed

guarded_armed :
    (role : Role) (limit : Option ℕ) (soc : Option ℤ) (resume : ℕ) (slot : Option ℕ) (p : Power)
    → (heat_guarded role limit soc resume slot p).0.armed ≡ p.armed
unfolding heat_guarded heat_step
guarded_armed role_ap (some limit) (some c10) resume slot p = ground arith
guarded_armed role_ap (some limit) none resume slot p = refl
guarded_armed role_ap none soc resume slot p = refl
guarded_armed role_dev limit soc resume slot p = refl

soc_armed :
    (cfg : Config) (now : ℕ) (r : Option (Option ℤ)) (p : Power)
    → (poll_soc_temp cfg now r p).armed ≡ p.armed
unfolding poll_soc_temp
soc_armed cfg now r p = ground arith

heat_armed : (cfg : Config) (i : Tick) (c : Ctx) → (heat cfg i c).0.power.armed ≡ c.power.armed
unfolding heat overheat_update
heat_armed cfg i c =
    guarded_armed cfg.role cfg.overheat_c _ cfg.overheat_resume_c (slot_of c)
      (poll_soc_temp cfg i.time_soc i.soc_run c.power)
    ∙ soc_armed cfg i.time_soc i.soc_run c.power

update_armed :
    (cfg : Config) (b : Bool) (pending : Option Bool) (dbm : Option ℕ) (p : Power)
    → (standby_update cfg b pending dbm p).0.armed ≡ latest pending p.armed
unfolding standby_update
update_armed cfg b none dbm p = ground arith
update_armed cfg b (some r) dbm p = ground arith

-- The last two phases of a round.
ends_armed :
    (cfg : Config) (i : Tick) (c : Ctx)
    → (standby cfg i (heat cfg i c).0).0.power.armed ≡ latest c.mailbox.armed c.power.armed
unfolding standby heat
ends_armed cfg i c =
    update_armed cfg _ c.mailbox.armed i.standby_dbm (heat cfg i c).0.power
    ∙ ap (latest c.mailbox.armed) (heat_armed cfg i c)

round_armed :
    (cfg : Config) (i : Tick) (polled : Bool) (c : Ctx)
    → (round cfg i polled c).0.power.armed ≡ latest c.mailbox.armed c.power.armed
unfolding round ◌⨾◌ fallback
round_armed cfg i polled c = after polled
  where
    after : (b : Bool) → (round cfg i b c).0.power.armed ≡ latest c.mailbox.armed c.power.armed
    after true =
        let c1 = (fallback i c).0 in
        ends_armed cfg i (switch cfg true i (before_heat cfg i c1)).0
        ∙ ap (λ v. latest v.1.0 v.1.1) (switched-Has (view c1) cfg true i c1 refl)
    after false =
        ends_armed cfg i (switch cfg false i (before_heat cfg i c)).0
        ∙ ap (λ v. latest v.1.0 v.1.1) (switched-Has (view c) cfg false i c refl)

tick_armed :
    (cfg : Config) (i : Tick) (c : Ctx)
    → (tick cfg i c).0.power.armed ≡ latest c.mailbox.armed c.power.armed
unfolding tick ◌⨾◌
tick_armed cfg i c =
    let c1 = (take_events i.events_start c).0 in
    round_armed cfg i (poll_due i c1) c1
    ∙ ap (λ v. latest v.1.0 v.1.1) (take_events-Has (view c) i.events_start c refl)

tick_step_armed :
    (cfg : Config) (i : Tick) (c : Ctx)
    → (step cfg (ticks i) c).0.power.armed ≡ (
        if c.shared.shutdown_requested then c.power.armed else latest c.mailbox.armed c.power.armed)
unfolding step
tick_step_armed cfg i c = by c.shared.shutdown_requested
  where
    by :
        (b : Bool)
        → (only_if (not b) (tick cfg i) c).0.power.armed
          ≡ (if b then c.power.armed else latest c.mailbox.armed c.power.armed)
    by true = refl
    by false = tick_armed cfg i c

-- In any run the arm state is the last report that a round found.
pub run_armed :
    (cfg : Config) (steps : List Step) (c : Ctx)
    → (run cfg steps c).0.power.armed ≡ reported cfg steps c c.power.armed
unfolding run ◌⨾◌ reported
run_armed cfg [] c = refl
run_armed cfg (ticks i ∷ steps) c =
    run_armed cfg steps (step cfg (ticks i) c).0
    ∙ ap (reported cfg steps (step cfg (ticks i) c).0) (tick_step_armed cfg i c)
run_armed cfg (asks f ∷ steps) c = unfold step in run_armed cfg steps (step cfg (asks f) c).0
run_armed cfg (signals ∷ steps) c = unfold step in run_armed cfg steps (step cfg signals c).0
