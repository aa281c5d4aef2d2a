-- ===== src/Lifecycle/Ctx.antt =====
-- lifecycled/lifecycle.c: `struct lifecycle_ctx` and the globals beside it, what one tick reads,
-- and how steps follow on each other.
use ar8030_transport.Base.{
  ℕ, ◌+◌, Bool, true, false, Option, some, List, [], ◌∷◌, ◌++◌, u32, if◌then◌else◌, not, ◌&&◌,
}
use ar8030_transport.Base.Int.{ℤ}
use ar8030_transport.Lifecycle.{LinkState, is_connect, Act, Retx}
use ar8030_transport.Lifecycle.Debounce.{Debounce}
use ar8030_transport.Lifecycle.Channel.{Channel, ChanInfo}
use ar8030_transport.Lifecycle.Tuning.{Tuning}
use ar8030_transport.Lifecycle.Power.{Power}
use ar8030_transport.Lifecycle.Adc.{RfTemp, Batt}
use ar8030_transport.Lifecycle.Mailbox.{Mailbox}

-- `g_link_state`, `none` while not valid, `g_link_connect_gen` and the two request flags.
pub record Shared : Type 0 where
  pub link_state : Option LinkState
  pub connect_gen : ℕ
  pub restart_requested : Bool
  pub shutdown_requested : Bool

-- `lc_link_side_t`, of which the level is read
pub record LinkSide : Type 0 where
  pub tx_mcs : ℕ
  pub ldpc_err : ℕ

-- What is read for the status alone; the signal level is 0 without a reading.
pub record Polled : Type 0 where
  pub distance_m : Option ℕ
  pub sock_bytes : List (ℕ × ℕ)
  pub quality : Option (LinkSide × LinkSide)
  pub signal_level : ℕ

pub record Ctx : Type 0 where
  pub shared : Shared
  pub debounce : Debounce
  pub channel : Channel
  pub tuning : Tuning
  pub power : Power
  pub rf : RfTemp
  pub batt : Batt
  pub mailbox : Mailbox
  pub polled : Polled
  pub last_fallback_poll : ℕ
  pub poll_fails : ℕ

-- `bb_event_link_state_t`
pub record LinkEvent : Type 0 where
  pub cur : LinkState
  pub prev : LinkState

-- What one tick reads, in the order it is read. Events come in on another thread: those before the
-- fallback poll, those before the link state is read, and those before the generation is read.
pub record Tick : Type 0 where
  pub now : ℕ
  pub events_start : List LinkEvent
  pub poll : Option LinkState
  pub fallback_dbm : Option ℕ
  pub chan_at_change : Option ChanInfo
  pub change_dbm : Option ℕ
  pub forgotten : ℕ
  pub distance_m : Option ℕ
  pub sock_bytes : List (ℕ × ℕ)
  pub quality : Option (LinkSide × LinkSide)
  pub rf_arm_ok : Bool
  pub rf_read : Option ℕ
  pub batt_arm_ok : Bool
  pub batt_read : Option ℕ
  pub events_polled : List LinkEvent
  pub slot : Option ℕ
  pub events_late : List LinkEvent
  pub saved_bandwidth : Option ℕ
  pub saved_retx : Option Retx
  pub frame_change_ok : Bool
  pub time_linked : ℕ
  pub chan_at_check : Option ChanInfo
  pub khz_at_check : ℕ × ℕ
  pub time_checked : ℕ
  pub current_bandwidth : Option ℕ
  pub frame_retry_ok : Bool
  pub chan_at_track : Option ChanInfo
  pub time_soc : ℕ
  pub soc_run : Option (Option ℤ)
  pub standby_dbm : Option ℕ

-- A part of a tick: the new state and what was done.
abbrev pub Phase : Type 0
Phase = Ctx → Ctx × List Act

infixr 40 ◌⨾◌
unfoldable pub ◌⨾◌ : Phase → Phase → Phase
(f ⨾ g) c = ((g (f c).0).0, (f c).1 ++ (g (f c).0).1)

-- A phase that does nothing unless a test holds.
abbrev pub only_if : Bool → Phase → Phase
only_if true f c = f c
only_if false f c = (c, [])

-- Phases on one part of the state.
abbrev pub on_channel : (Channel → Channel × List Act) → Phase
on_channel f c = (record c { channel = (f c.channel).0 }, (f c.channel).1)

abbrev pub on_tuning : (Tuning → Tuning × List Act) → Phase
on_tuning f c = (record c { tuning = (f c.tuning).0 }, (f c.tuning).1)

abbrev pub on_power : (Power → Power × List Act) → Phase
on_power f c = (record c { power = (f c.power).0 }, (f c.power).1)

-- `lc_on_link_state_event`
unfoldable pub on_event : LinkEvent → Shared → Shared
on_event e s = record s {
  link_state = some e.cur;
  connect_gen =
      if is_connect e.cur && not (is_connect e.prev)
      then u32 (s.connect_gen + 1)
      else s.connect_gen;
}

unfoldable pub on_events : List LinkEvent → Shared → Shared
unfolding on_event
on_events [] s = s
on_events (e ∷ es) s = on_events es (on_event e s)

unfoldable pub take_events : List LinkEvent → Phase
unfolding on_events
take_events es c = (record c { shared = on_events es c.shared }, [])
