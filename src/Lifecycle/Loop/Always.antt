-- ===== src/Lifecycle/Loop/Always.antt =====
-- What holds of the daemon in every run, whatever the chip, the clocks and the requests do.
use ar8030_transport.Base.{
  ℕ, ◌≡◌, refl, ap, ◌∙◌, Bool, true, false, not, ◌&&◌, Option, List, [], ◌∷◌, arith,
}
use ar8030_transport.Lifecycle.{Config, Role, role_ap, role_dev, is_ap, Chan, chan_none}
use ar8030_transport.Lifecycle.Debounce.{entered, fresh}
use ar8030_transport.Lifecycle.Init.{Saved, init_ctx, init_channel}
use ar8030_transport.Lifecycle.Power.{Power, has_standby}
use ar8030_transport.Lifecycle.Power.Standby.{standby_update-Follows}
use ar8030_transport.Lifecycle.Ctx.{Ctx, Tick, ◌⨾◌, only_if, take_events}
use ar8030_transport.Lifecycle.Drains.{up}
use ar8030_transport.Lifecycle.Switch.{switch}
use ar8030_transport.Lifecycle.Loop.{
  fallback, drains, polls, heat, standby, round, tick, Step, ticks, asks, signals, step, run,
  poll_due,
}
use ar8030_transport.Lifecycle.Loop.Arms.{reported, run_armed}
use ar8030_transport.Lifecycle.Loop.Sound.{Clear, Keeps, only_if-Keeps, drains-Clear}
use ar8030_transport.Lifecycle.Loop.Kept.{switch-Clear, idle_not_connected}

-- With a low-power target on the AP, armed and not paused, the daemon is not in the low-power mode.
abbrev pub NotStandby : Config → Power → Type 0
NotStandby cfg p = has_standby cfg ≡ true → (p.armed && not p.overheat) ≡ true → p.standby ≡ false

-- What holds between two steps.
abbrev pub IsSound : Config → Ctx → Type 0
IsSound cfg c = Clear cfg c × NotStandby cfg c.power

standby-NotStandby : (cfg : Config) (i : Tick) (c : Ctx) → NotStandby cfg (standby cfg i c).0.power
unfolding standby
standby-NotStandby cfg i c can on =
    (standby_update-Follows cfg (up c) c.mailbox.armed i.standby_dbm c.power can).left on

round-Clear : (cfg : Config) (i : Tick) (polled : Bool) → Keeps (Clear cfg) (round cfg i polled)
unfolding round ◌⨾◌ fallback polls take_events heat standby
round-Clear cfg i polled c h =
    let c1 = (only_if polled (fallback i) c).0 in
    let c2 = (drains cfg i c1).0 in
    let c3 = (take_events i.events_polled (polls cfg i c2).0).0 in
    switch-Clear cfg polled i c3
      (drains-Clear cfg i c1 (only_if-Keeps (Clear cfg) polled (fallback i) (λ c' h'. h') c h))

round-NotStandby :
    (cfg : Config) (i : Tick) (polled : Bool) (c : Ctx)
    → NotStandby cfg (round cfg i polled c).0.power
unfolding round ◌⨾◌
round-NotStandby cfg i polled c =
    let c1 = (drains cfg i (only_if polled (fallback i) c).0).0 in
    let c2 = (take_events i.events_polled (polls cfg i c1).0).0 in
    standby-NotStandby cfg i (heat cfg i (switch cfg polled i c2).0).0

tick-IsSound : (cfg : Config) (i : Tick) → Keeps (IsSound cfg) (tick cfg i)
unfolding tick ◌⨾◌ take_events
tick-IsSound cfg i c h =
    let c1 = (take_events i.events_start c).0 in
    (round-Clear cfg i (poll_due i c1) c1 h.0, round-NotStandby cfg i (poll_due i c1) c1)

step-IsSound : (cfg : Config) (s : Step) → Keeps (IsSound cfg) (step cfg s)
unfolding step
step-IsSound cfg (ticks i) c h =
    only_if-Keeps (IsSound cfg) (not c.shared.shutdown_requested) (tick cfg i) (tick-IsSound cfg i)
      c h
step-IsSound cfg (asks f) c h = h
step-IsSound cfg signals c h = h

run_from-IsSound :
    (cfg : Config) (steps : List Step) (c : Ctx) → IsSound cfg c → IsSound cfg (run cfg steps c).0
unfolding run ◌⨾◌
run_from-IsSound cfg [] c h = h
run_from-IsSound cfg (s ∷ steps) c h =
    run_from-IsSound cfg steps (step cfg s c).0 (step-IsSound cfg s c h)

dev_unset_init :
    (cfg : Config) (role : Role) (saved : Option Chan)
    → is_ap role ≡ false
    → init_channel cfg role saved ≡ chan_none
unfolding init_channel
dev_unset_init cfg role_dev saved e = refl
dev_unset_init cfg role_ap saved e = ground arith

init-IsSound :
    (cfg : Config) (saved : Saved) (table : List ℕ) → IsSound cfg (init_ctx cfg saved table)
unfolding init_ctx entered fresh
init-IsSound cfg saved table = (
  record {
    linked = λ e. absurd (idle_not_connected e);
    unlinked = λ ne. (refl, refl, refl);
    dev_unset = λ e. dev_unset_init cfg cfg.role saved.channel e;
  },
  λ can on. refl,
)

init_armed :
    (cfg : Config) (saved : Saved) (table : List ℕ) → (init_ctx cfg saved table).power.armed ≡ true
unfolding init_ctx
init_armed cfg saved table = refl

-- In every run from the start, whatever the chip, the files, the clocks, the events and the requests
-- do: a linked daemon knows the slot, one without a link reports no slot, bandwidth or channel, the
-- DEV wants no channel of its own, the arm state is the last report that a round found in the mailbox,
-- armed before the first, and on the AP with a low-power target a daemon that is armed and not paused
-- for heat is not in the low-power mode.
pub run-IsSound :
    (cfg : Config) (saved : Saved) (table : List ℕ) (steps : List Step)
    → let c = init_ctx cfg saved table in
      IsSound cfg (run cfg steps c).0
      × ((run cfg steps c).0.power.armed ≡ reported cfg steps c true)
run-IsSound cfg saved table steps =
    let c = init_ctx cfg saved table in
    (
      run_from-IsSound cfg steps c (init-IsSound cfg saved table),
      run_armed cfg steps c ∙ ap (reported cfg steps c) (init_armed cfg saved table),
    )
