-- ===== src/Lifecycle/Loop/View.antt =====
-- What the phases of a round before the heat keep: the request flags, the count of failed polls and
-- the arm state.
use ar8030_transport.Base.{
  ℕ, ◌≡◌, refl, ◌∙◌, ap, Bool, Option, none, some, List, [], ◌∷◌, ◌==◌, Bool-cases, inl, inr,
}
use ar8030_transport.Lifecycle.{Config, Chan, Level, Retx}
use ar8030_transport.Lifecycle.Debounce.{Outcome, waiting, came_up, dropped, steady, debounce}
use ar8030_transport.Lifecycle.Channel.{ChanInfo, check_link}
use ar8030_transport.Lifecycle.Power.{change_power}
use ar8030_transport.Lifecycle.Ctx.{
  Ctx, Shared, Tick, LinkEvent, ◌⨾◌, on_channel, on_event, on_events, take_events,
}
use ar8030_transport.Lifecycle.Drains.{
  slot_of, drain_bandwidth, drain_retx, drain_channel, drain_power, drain_forget, took_bandwidth,
  took_retx, took_channel, took_power, took_forget,
}
use ar8030_transport.Lifecycle.Switch.{
  note_gen, tune_new_link, note_peer, arm_check, work_new_link, forget_link, relink, check_if_due,
  check_due, recheck, work_steady_link, work_on, switch,
}
use ar8030_transport.Lifecycle.Loop.{drains, polls}
use ar8030_transport.Lifecycle.Loop.Sound.{Keeps, only_if-Keeps}

-- The request flags, poll_fails and last_fallback_poll.
abbrev pub Flags : Type 0
Flags = Bool × Bool × ℕ × ℕ

abbrev pub flags : Ctx → Flags
flags c =
    (c.shared.restart_requested, c.shared.shutdown_requested, c.poll_fails, c.last_fallback_poll)

-- With the arm state in the mailbox, and the one that was last taken from there.
abbrev pub View : Type 0
View = Flags × (Option Bool × Bool)

abbrev pub view : Ctx → View
view c = (flags c, (c.mailbox.armed, c.power.armed))

abbrev pub Has : View → Ctx → Type 0
Has v c = view c ≡ v

on_events_flags :
    (es : List LinkEvent) (s : Shared)
    → ((on_events es s).restart_requested ≡ s.restart_requested)
      × ((on_events es s).shutdown_requested ≡ s.shutdown_requested)
unfolding on_events on_event
on_events_flags [] s = (refl, refl)
on_events_flags (e ∷ es) s = on_events_flags es (on_event e s)

pub take_events-Has : (v : View) (es : List LinkEvent) → Keeps (Has v) (take_events es)
unfolding take_events
take_events-Has v es c h =
    let (r, s) = on_events_flags es c.shared in
    ap
      (λ x. (
        (x, (on_events es c.shared).shutdown_requested, c.poll_fails, c.last_fallback_poll),
        (c.mailbox.armed, c.power.armed),
      ))
      r
    ∙ ap
        (λ x. (
          (c.shared.restart_requested, x, c.poll_fails, c.last_fallback_poll),
          (c.mailbox.armed, c.power.armed),
        ))
        s
    ∙ h

pub drains-Has : (v : View) (cfg : Config) (i : Tick) → Keeps (Has v) (drains cfg i)
unfolding drains drain_bandwidth drain_retx drain_channel drain_power drain_forget ◌⨾◌
    took_bandwidth took_retx took_channel took_power took_forget change_power
drains-Has v cfg i c h = forgets i.forgotten _ _ (
    powers i.change_dbm _ _
      (channels i.chan_at_change _ _ (retxs _ _ (bandwidths c.mailbox.bandwidth _ h))))
  where
    bandwidths : (m : Option ℕ) → Keeps (Has v) (took_bandwidth cfg m)
    bandwidths none c' h' = h'
    bandwidths (some mhz) c' h' = h'

    retxs : (m : Option Retx) → Keeps (Has v) (took_retx cfg m)
    retxs none c' h' = h'
    retxs (some r) c' h' = h'

    channels : (read : Option ChanInfo) (m : Option Chan) → Keeps (Has v) (took_channel cfg read m)
    channels read none c' h' = h'
    channels read (some ch) c' h' = h'

    powers : (dbm : Option ℕ) (m : Option Level) → Keeps (Has v) (took_power cfg dbm m)
    powers dbm none c' h' = h'
    powers dbm (some l) c' h' = h'

    forgets : (n : ℕ) (m : Option (Option (List ℕ))) → Keeps (Has v) (took_forget n m)
    forgets n none c' h' = h'
    forgets n (some mac) c' h' = h'

relink-Has : (v : View) (cfg : Config) (i : Tick) → Keeps (Has v) (relink cfg i)
unfolding relink
relink-Has v cfg i c h = elim (Bool-cases (c.tuning.connect_gen == c.shared.connect_gen)) [
  | inl e ↦ rw e h
  | inr e ↦ rw e h
]

work_steady-Has :
    (v : View) (cfg : Config) (polled : Bool) (i : Tick)
    → Keeps (Has v) (work_steady_link cfg polled i)
unfolding work_steady_link ◌⨾◌ check_if_due recheck
work_steady-Has v cfg polled i c h =
    let c1 = (relink cfg i c).0 in
    let c2 = (check_if_due cfg i c1).0 in
    only_if-Keeps (Has v) polled (recheck cfg i) (λ c' h'. h') c2
      (only_if-Keeps (Has v) (check_due i.now c1.channel.check_at)
        (on_channel (check_link cfg (slot_of c1) i.chan_at_check i.khz_at_check i.time_checked))
        (λ c' h'. h') c1 (relink-Has v cfg i c h))

work_on-Has :
    (v : View) (o : Outcome) (cfg : Config) (polled : Bool) (i : Tick)
    → Keeps (Has v) (work_on o cfg polled i)
unfolding work_on forget_link work_new_link ◌⨾◌ note_gen tune_new_link arm_check note_peer
work_on-Has v waiting cfg polled i c h = h
work_on-Has v came_up cfg polled i c h = h
work_on-Has v dropped cfg polled i c h = h
work_on-Has v steady cfg polled i c h = work_steady-Has v cfg polled i c h

pub switch-Has :
    (v : View) (cfg : Config) (polled : Bool) (i : Tick) → Keeps (Has v) (switch cfg polled i)
unfolding switch
switch-Has v cfg polled i c h =
    let (o, d, acts) = debounce c.shared.link_state i.slot c.debounce in
    let c1 = record c { debounce = d } in
    work_on-Has v o cfg polled i (take_events i.events_late c1).0
      (take_events-Has v i.events_late c1 h)

-- The round up to the heat.
abbrev pub before_heat : Config → Tick → Ctx → Ctx
before_heat cfg i c =
    let c1 = (drains cfg i c).0 in (take_events i.events_polled (polls cfg i c1).0).0

-- What a round does up to the heat and the low-power mode, after the fallback poll, keeps the view.
pub switched-Has :
    (v : View) (cfg : Config) (polled : Bool) (i : Tick) (c : Ctx)
    → Has v c
    → Has v (switch cfg polled i (before_heat cfg i c)).0
unfolding polls
switched-Has v cfg polled i c h =
    let c2 = (polls cfg i (drains cfg i c).0).0 in
    switch-Has v cfg polled i (take_events i.events_polled c2).0
      (take_events-Has v i.events_polled c2 (drains-Has v cfg i c h))
