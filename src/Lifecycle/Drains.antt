-- ===== src/Lifecycle/Drains.antt =====
-- lifecycled/lifecycle.c: the mailboxes emptied once per tick, and the polls for the status.
use ar8030_transport.Base.{
  ℕ, ◌-◌, Bool, true, false, Option, none, some, List, [], ◌∷◌, ◌++◌, ltb, if◌then◌else◌, take,
}
use ar8030_transport.Lifecycle.{
  Role, role_ap, role_dev, Config, Chan, Level, Retx, forget_peer, push_peers,
}
use ar8030_transport.Lifecycle.Channel.{ChanInfo, change}
use ar8030_transport.Lifecycle.Tuning.{change_bandwidth, change_retx}
use ar8030_transport.Lifecycle.Power.{change_power}
use ar8030_transport.Lifecycle.Adc.{poll_rf_temp, poll_batt}
use ar8030_transport.Lifecycle.Mailbox.{Mailbox, is_up}
use ar8030_transport.Lifecycle.Ctx.{Ctx, LinkSide, Tick, Phase, on_channel, on_tuning, on_power}

abbrev pub up : Ctx → Bool
up c = is_up c.debounce.state

abbrev pub slot_of : Ctx → Option ℕ
slot_of c = c.debounce.connected_slot

abbrev pub with_mailbox : Mailbox → Ctx → Ctx
with_mailbox m c = record c { mailbox = m }

-- `lc_drain_bandwidth_request`
unfoldable pub took_bandwidth : Config → Option ℕ → Phase
took_bandwidth cfg none c = (c, [])
took_bandwidth cfg (some mhz) c = on_tuning (change_bandwidth cfg (up c) (slot_of c) mhz) c

unfoldable pub drain_bandwidth : Config → Phase
unfolding took_bandwidth
drain_bandwidth cfg c =
    took_bandwidth cfg c.mailbox.bandwidth (with_mailbox (record c.mailbox { bandwidth = none }) c)

-- `lc_drain_retx_request`
unfoldable pub took_retx : Config → Option Retx → Phase
took_retx cfg none c = (c, [])
took_retx cfg (some r) c = (c, change_retx cfg r)

unfoldable pub drain_retx : Config → Phase
unfolding took_retx
drain_retx cfg c = took_retx cfg c.mailbox.retx (with_mailbox (record c.mailbox { retx = none }) c)

-- `lc_drain_channel_request`
unfoldable pub took_channel : Config → Option ChanInfo → Option Chan → Phase
took_channel cfg read none c = (c, [])
took_channel cfg read (some ch) c = on_channel (change cfg (up c) (slot_of c) read ch) c

unfoldable pub drain_channel : Config → Option ChanInfo → Phase
unfolding took_channel
drain_channel cfg read c =
    took_channel cfg read c.mailbox.channel (with_mailbox (record c.mailbox { channel = none }) c)

-- `lc_drain_power_request`
unfoldable pub took_power : Config → Option ℕ → Option Level → Phase
took_power cfg dbm none c = (c, [])
took_power cfg dbm (some level) c = on_power (change_power cfg dbm level) c

unfoldable pub drain_power : Config → Option ℕ → Phase
unfolding took_power
drain_power cfg dbm c =
    took_power cfg dbm c.mailbox.power (with_mailbox (record c.mailbox { power = none }) c)

-- `lc_drain_forget_request`; `forgotten` is what lc_peers_forget returns.
unfoldable pub took_forget : ℕ → Option (Option (List ℕ)) → Phase
took_forget forgotten none c = (c, [])
took_forget forgotten (some mac) c =
    (c, forget_peer mac ∷ (if ltb 0 forgotten then push_peers ∷ [] else []))

unfoldable pub drain_forget : ℕ → Phase
unfolding took_forget
drain_forget forgotten c =
    took_forget forgotten c.mailbox.forget (with_mailbox (record c.mailbox { forget = none }) c)

abbrev pub sock_ports : ℕ
sock_ports = 8

-- `lc_poll_distance` and `lc_poll_sock_info`; the answers are none, and no bytes, when they fail.
unfoldable pub poll_distance : Tick → Phase
poll_distance i c =
    (record c { polled = record c.polled { distance_m = if up c then i.distance_m else none } }, [])

unfoldable pub poll_sock_info : Tick → Phase
poll_sock_info i c =
    (record c { polled = record c.polled { sock_bytes = take sock_ports i.sock_bytes } }, [])

-- `lc_signal_level`: tx_mcs counts from 2, and below 2 the difference is negative.
unfoldable pub signal_level : LinkSide → LinkSide → ℕ
signal_level video_tx video_rx =
    let mcs = video_tx.tx_mcs - 2 in
    if ltb mcs 3 then 1 else if ltb mcs 5 then 2 else if ltb 1 video_rx.ldpc_err then 3 else 4

-- The video goes from the AP to the DEV; the first side is this unit's own.
abbrev pub level_for : Role → Option (LinkSide × LinkSide) → ℕ
unfolding signal_level
level_for role none = 0
level_for role_ap (some (self, peer)) = signal_level self peer
level_for role_dev (some (self, peer)) = signal_level peer self

abbrev pub seen_quality : Bool → Option (LinkSide × LinkSide) → Option (LinkSide × LinkSide)
seen_quality true q = q
seen_quality false q = none

-- `lc_poll_quality`
unfoldable pub poll_quality : Config → Tick → Phase
poll_quality cfg i c = (
  record c {
    polled = record c.polled {
      quality = seen_quality (up c) i.quality;
      signal_level = level_for cfg.role (seen_quality (up c) i.quality);
    };
  },
  [],
)

unfoldable pub poll_adc : Config → Tick → Phase
unfolding poll_rf_temp poll_batt
poll_adc cfg i c = (
  record c {
    rf = (poll_rf_temp cfg i.rf_arm_ok i.rf_read c.rf).0;
    batt = (poll_batt cfg i.batt_arm_ok i.batt_read c.batt).0;
  },
  (poll_rf_temp cfg i.rf_arm_ok i.rf_read c.rf).1
      ++ (poll_batt cfg i.batt_arm_ok i.batt_read c.batt).1,
)
