-- ===== src/Lifecycle/Loop.antt =====
-- lifecycled/lifecycle.c: one round of `lifecycle_thread_main`'s loop, and its runs.
pub mod Sound
pub mod Kept
pub mod Always
pub mod View
pub mod Arms
pub mod Lost
use ar8030_transport.Base.{
  ℕ, suc, ◌+◌, ◌-◌, Bool, true, false, Option, none, some, List, [], ◌∷◌, ◌++◌, ltb, leb, ◌==◌, not,
  ◌&&◌, ◌||◌, if◌then◌else◌,
}
use ar8030_transport.Lifecycle.{
  Role, role_ap, role_dev, is_ap, LinkState, Config, Act, Chan, Level, Retx, note_ap_mac,
  forget_peer, push_peers,
}
use ar8030_transport.Lifecycle.Debounce.{
  Debounce, State, init, idle, connected, Outcome, waiting, came_up, dropped, steady, debounce,
}
use ar8030_transport.Lifecycle.Channel.{
  Channel, chan_check_delay_s, track, on_connect, check_link, change,
}
use ar8030_transport.Lifecycle.Tuning.{
  Tuning, apply_link_tuning, apply_tuning_on_connect, change_bandwidth, change_retx,
  check_bandwidth, retry_frame_change,
}
use ar8030_transport.Lifecycle.Power.{
  Power, power_acts, poll_soc_temp, overheat_update, standby_update, change_power,
}
use ar8030_transport.Lifecycle.Adc.{poll_rf_temp, poll_batt}
use ar8030_transport.Lifecycle.Mailbox.{Mailbox, is_up}
use ar8030_transport.Lifecycle.Ctx.{Ctx, Shared, Tick, Phase, ◌⨾◌, only_if, on_power, take_events}
use ar8030_transport.Lifecycle.Drains.{
  up, slot_of, with_mailbox, drain_bandwidth, drain_retx, drain_channel, drain_power, drain_forget,
  poll_distance, poll_sock_info, poll_quality, poll_adc,
}
use ar8030_transport.Lifecycle.Switch.{switch}

abbrev pub poll_fallback_s : ℕ
poll_fallback_s = 5

abbrev pub session_lost_polls : ℕ
session_lost_polls = 3

-- `lifecycle_request_restart`
abbrev pub request_restart : Shared → Shared
request_restart s = record s { restart_requested = true; shutdown_requested = true }

-- `lc_poll_power`
abbrev pub poll_power : Option ℕ → Power → Power
poll_power dbm p = record p { power_dbm = dbm }

-- What the fallback poll makes of BB_GET_STATUS's answer: the shared state and poll_fails.
unfoldable pub poll_answer : Option LinkState → Shared → ℕ → Shared × ℕ
poll_answer (some l) s fails = (record s { link_state = some l }, 0)
poll_answer none s fails =
    ((if leb session_lost_polls (fails + 1) then request_restart s else s), fails + 1)

abbrev pub poll_due : Tick → Ctx → Bool
poll_due i c = leb (c.last_fallback_poll + poll_fallback_s) i.now

-- The fallback poll, when it is due.
unfoldable pub fallback : Tick → Phase
unfolding poll_answer
fallback i c = (
  record c {
    shared = (poll_answer i.poll c.shared c.poll_fails).0;
    poll_fails = (poll_answer i.poll c.shared c.poll_fails).1;
    last_fallback_poll = i.now;
    power = poll_power i.fallback_dbm c.power;
  },
  [],
)

-- The heat, then the low-power mode that follows it.
unfoldable pub heat : Config → Tick → Phase
unfolding poll_soc_temp overheat_update
heat cfg i c =
    on_power (λ p. overheat_update cfg (slot_of c) (poll_soc_temp cfg i.time_soc i.soc_run p)) c

unfoldable pub standby : Config → Tick → Phase
unfolding standby_update
standby cfg i c =
    on_power (standby_update cfg (up c) c.mailbox.armed i.standby_dbm)
      (with_mailbox (record c.mailbox { armed = none }) c)

-- The part of a round before the link state is read.
unfoldable pub drains : Config → Tick → Phase
unfolding ◌⨾◌ drain_bandwidth drain_retx drain_channel drain_power drain_forget
drains cfg i =
    drain_bandwidth cfg
    ⨾ drain_retx cfg
    ⨾ drain_channel cfg i.chan_at_change
    ⨾ drain_power cfg i.change_dbm
    ⨾ drain_forget i.forgotten

unfoldable pub polls : Config → Tick → Phase
unfolding ◌⨾◌ poll_distance poll_sock_info poll_quality poll_adc
polls cfg i = poll_distance i ⨾ poll_sock_info i ⨾ poll_quality cfg i ⨾ poll_adc cfg i

-- One round of the loop; `polled` is whether the fallback poll is due.
unfoldable pub round : Config → Tick → Bool → Phase
unfolding ◌⨾◌ fallback drains polls take_events switch heat standby
round cfg i polled =
    only_if polled (fallback i)
    ⨾ drains cfg i
    ⨾ polls cfg i
    ⨾ take_events i.events_polled
    ⨾ switch cfg polled i
    ⨾ heat cfg i
    ⨾ standby cfg i

-- The round with the events that come in before it.
unfoldable pub tick : Config → Tick → Phase
unfolding round ◌⨾◌ take_events
tick cfg i = take_events i.events_start ⨾ (λ c. round cfg i (poll_due i c) c)

-- What happens to the daemon: a round of its loop, a request that fills a mailbox, or a signal.
pub data Step : Type 0 where
  ticks : Tick → Step
  asks : (Mailbox → Mailbox) → Step
  signals : Step

-- `while (!lifecycle_shutdown_requested())`
unfoldable pub step : Config → Step → Phase
unfolding tick
step cfg (ticks i) c = only_if (not c.shared.shutdown_requested) (tick cfg i) c
step cfg (asks f) c = (record c { mailbox = f c.mailbox }, [])
step cfg signals c = (record c { shared = record c.shared { shutdown_requested = true } }, [])

unfoldable pub run : Config → List Step → Phase
unfolding step ◌⨾◌
run cfg [] c = (c, [])
run cfg (s ∷ ss) c = (step cfg s ⨾ run cfg ss) c
