-- ===== src/Lifecycle/Switch.antt =====
-- lifecycled/lifecycle.c: what the switch of the thread's loop does beside its debouncing.
use ar8030_transport.Base.{
  ℕ, ◌+◌, Bool, false, Option, none, some, List, [], ◌∷◌, ◌++◌, leb, ◌==◌, not, ◌&&◌, if◌then◌else◌,
}
use ar8030_transport.Lifecycle.{is_ap, Config, Act, note_ap_mac}
use ar8030_transport.Lifecycle.Debounce.{
  Debounce, Outcome, waiting, came_up, dropped, steady, debounce,
}
use ar8030_transport.Lifecycle.Channel.{chan_check_delay_s, track, on_connect, check_link}
use ar8030_transport.Lifecycle.Tuning.{
  Tuning, apply_link_tuning, apply_tuning_on_connect, check_bandwidth, retry_frame_change,
}
use ar8030_transport.Lifecycle.Power.{power_acts}
use ar8030_transport.Lifecycle.Ctx.{
  Ctx, Tick, Phase, ◌⨾◌, only_if, on_channel, on_tuning, take_events,
}
use ar8030_transport.Lifecycle.Drains.{slot_of}

-- The link generation is noted before the tuning, so that a relink from here on is seen.
unfoldable pub note_gen : Phase
note_gen c = (record c { tuning = record c.tuning { connect_gen = c.shared.connect_gen } }, [])

unfoldable pub tune_new_link : Config → Tick → Phase
unfolding apply_tuning_on_connect power_acts
tune_new_link cfg i c =
    on_tuning
      (apply_tuning_on_connect cfg (slot_of c) i.saved_bandwidth i.saved_retx
        (power_acts cfg c.power) i.frame_change_ok)
      c

unfoldable pub note_peer : Config → Phase
note_peer cfg c = (c, if not (is_ap cfg.role) && cfg.has_cfg_path then note_ap_mac ∷ [] else [])

unfoldable pub arm_check : Tick → Phase
unfolding on_connect
arm_check i = on_channel (λ ch. (on_connect i.time_linked ch, []))

-- A link that just came up.
unfoldable pub work_new_link : Config → Tick → Phase
unfolding ◌⨾◌ note_gen tune_new_link arm_check note_peer
work_new_link cfg i = note_gen ⨾ tune_new_link cfg i ⨾ arm_check i ⨾ note_peer cfg

-- A link that was lost: the bandwidth and the channel are unknown again.
unfoldable pub forget_link : Phase
forget_link c = (
  record c {
    tuning = record c.tuning { last_bandwidth = none };
    channel = record c.channel { seen = none };
  },
  [],
)

-- A relink that the debouncing absorbed.
unfoldable pub relink : Config → Tick → Phase
unfolding apply_link_tuning power_acts
relink cfg i c = if c.tuning.connect_gen == c.shared.connect_gen then (c, []) else (
  record c {
    tuning = (retuned (record c.tuning { connect_gen = c.shared.connect_gen })).0;
    channel = record c.channel { check_at = some (i.time_linked + chan_check_delay_s) };
  },
  (retuned (record c.tuning { connect_gen = c.shared.connect_gen })).1,
)
  where
    retuned : Tuning → Tuning × List Act
    retuned = apply_link_tuning cfg i.saved_retx (power_acts cfg c.power) i.frame_change_ok

abbrev pub check_due : ℕ → Option ℕ → Bool
check_due now none = false
check_due now (some at) = leb at now

unfoldable pub check_if_due : Config → Tick → Phase
unfolding check_link
check_if_due cfg i c =
    only_if (check_due i.now c.channel.check_at)
      (on_channel (check_link cfg (slot_of c) i.chan_at_check i.khz_at_check i.time_checked)) c

-- After a fallback poll.
unfoldable pub recheck : Config → Tick → Phase
unfolding ◌⨾◌ check_bandwidth retry_frame_change track
recheck cfg i =
    (λ c. on_tuning (check_bandwidth cfg (slot_of c) i.current_bandwidth) c)
    ⨾ on_tuning (retry_frame_change i.frame_retry_ok)
    ⨾ on_channel (track cfg i.chan_at_track)

-- A link that is steady.
unfoldable pub work_steady_link : Config → Bool → Tick → Phase
unfolding ◌⨾◌ relink check_if_due recheck
work_steady_link cfg polled i = relink cfg i ⨾ check_if_due cfg i ⨾ only_if polled (recheck cfg i)

unfoldable pub work_on : Outcome → Config → Bool → Tick → Phase
unfolding work_new_link forget_link work_steady_link
work_on waiting cfg polled i c = (c, [])
work_on came_up cfg polled i c = work_new_link cfg i c
work_on dropped cfg polled i c = forget_link c
work_on steady cfg polled i c = work_steady_link cfg polled i c

-- The link state is read, then the events of `events_late` come in.
unfoldable pub switch : Config → Bool → Tick → Phase
unfolding ◌⨾◌ take_events work_on debounce
switch cfg polled i c = (
  (work_on (decided c).0 cfg polled i (settled c)).0,
  (decided c).2 ++ (work_on (decided c).0 cfg polled i (settled c)).1,
)
  where
    decided : Ctx → Outcome × Debounce × List Act
    decided c' = debounce c'.shared.link_state i.slot c'.debounce

    settled : Ctx → Ctx
    settled c' = (take_events i.events_late (record c' { debounce = (decided c').1 })).0
