-- ===== src/Lifecycle/Loop/Sound.antt =====
-- What holds of the daemon between two steps.
use ar8030_transport.Base.{
  ℕ, ◌≡◌, ◌≢◌, refl, inl, inr, ◌∙◌, Bool, true, false, Option, none, some, List, arith, Bool-cases,
}
use ar8030_transport.Lifecycle.{
  Config, Chan, chan_none, Level, Retx, Role, role_ap, role_dev, is_ap,
}
use ar8030_transport.Lifecycle.Debounce.{Debounce, State, init, idle, connected}
use ar8030_transport.Lifecycle.Channel.{Channel, ChanInfo, kept, refuses, change}
use ar8030_transport.Lifecycle.Tuning.{Tuning, change_bandwidth}
use ar8030_transport.Lifecycle.Mailbox.{is_some, is_up}
use ar8030_transport.Lifecycle.Ctx.{Ctx, Tick, Phase, ◌⨾◌, only_if}
use ar8030_transport.Lifecycle.Drains.{
  up, drain_bandwidth, drain_retx, drain_channel, drain_power, drain_forget, took_bandwidth,
  took_retx, took_channel, took_power, took_forget,
}
use ar8030_transport.Lifecycle.Loop.{drains}

-- Linked, the daemon knows the slot. Not linked, it reports no slot, no bandwidth and no channel.
-- The DEV wants no channel of its own.
pub record IsClear (cfg : Config) (d : Debounce) (mhz : Option ℕ) (seen : Option (Bool × ℕ))
    (wanted : Chan) : Type 0 where
  pub linked : d.state ≡ connected → is_some d.connected_slot ≡ true
  pub unlinked : d.state ≢ connected → (d.connected_slot ≡ none) × (mhz ≡ none) × (seen ≡ none)
  pub dev_unset : is_ap cfg.role ≡ false → wanted ≡ chan_none

abbrev pub Clear : Config → Ctx → Type 0
Clear cfg c = IsClear cfg c.debounce c.tuning.last_bandwidth c.channel.seen c.channel.wanted

-- A phase that keeps a property of the state.
abbrev pub Keeps : (Ctx → Type 0) → Phase → Type 0
Keeps P f = (c : Ctx) → P c → P (f c).0

pub then-Keeps : (P : Ctx → Type 0) (f g : Phase) → Keeps P f → Keeps P g → Keeps P (f ⨾ g)
unfolding ◌⨾◌
then-Keeps P f g hf hg c h = hg (f c).0 (hf c h)

pub only_if-Keeps : (P : Ctx → Type 0) (b : Bool) (f : Phase) → Keeps P f → Keeps P (only_if b f)
only_if-Keeps P true f hf c h = hf c h
only_if-Keeps P false f hf c h = h

not_up : (s : State) → s ≢ connected → is_up s ≡ false
not_up init h = refl
not_up idle h = refl
not_up connected h = absurd (h refl)

change_bandwidth_down :
    (cfg : Config) (slot : Option ℕ) (mhz : ℕ) (t : Tuning)
    → (change_bandwidth cfg false slot mhz t).0.last_bandwidth ≡ t.last_bandwidth
unfolding change_bandwidth
change_bandwidth_down cfg slot mhz t = ground arith

took_bandwidth-Clear : (cfg : Config) (m : Option ℕ) → Keeps (Clear cfg) (took_bandwidth cfg m)
unfolding took_bandwidth
took_bandwidth-Clear cfg none c h = h
took_bandwidth-Clear cfg (some mhz) c h = record {
  linked = h.linked;
  dev_unset = h.dev_unset;
  unlinked = λ ne. (
    (h.unlinked ne).0,
    rw (not_up c.debounce.state ne)
        (change_bandwidth_down cfg c.debounce.connected_slot mhz c.tuning ∙ (h.unlinked ne).1),
    (h.unlinked ne).2,
  );
}

kept_channel :
    (r : Role) (w : Chan) (ch : Channel)
    → ((kept r w ch).seen ≡ ch.seen) × (is_ap r ≡ false → (kept r w ch).wanted ≡ ch.wanted)
kept_channel role_ap w ch = (refl, λ dev. ground arith)
kept_channel role_dev w ch = (refl, λ dev. refl)

change_channel :
    (cfg : Config) (b : Bool) (slot : Option ℕ) (read : Option ChanInfo) (w : Chan) (ch : Channel)
    → let ch' = (change cfg b slot read w ch).0 in
      (ch'.seen ≡ ch.seen) × (is_ap cfg.role ≡ false → ch'.wanted ≡ ch.wanted)
unfolding change
change_channel cfg b slot read w ch = elim (Bool-cases (refuses w read)) [
  | inl e ↦ rw e (refl, λ dev. refl)
  | inr e ↦ rw e (kept_channel cfg.role w ch)
]

took_channel-Clear :
    (cfg : Config) (read : Option ChanInfo) (m : Option Chan)
    → Keeps (Clear cfg) (took_channel cfg read m)
unfolding took_channel
took_channel-Clear cfg read none c h = h
took_channel-Clear cfg read (some w) c h =
    let (same_seen, same_wanted) =
      change_channel cfg (up c) c.debounce.connected_slot read w c.channel in
    record {
      linked = h.linked;
      dev_unset = λ dev. same_wanted dev ∙ h.dev_unset dev;
      unlinked = λ ne. ((h.unlinked ne).0, (h.unlinked ne).1, same_seen ∙ (h.unlinked ne).2);
    }

pub drains-Clear : (cfg : Config) (i : Tick) → Keeps (Clear cfg) (drains cfg i)
unfolding drains drain_bandwidth drain_retx drain_channel drain_power drain_forget ◌⨾◌ took_retx
    took_power took_forget
drains-Clear cfg i c h = took_forget-Clear i.forgotten _ _ (
    took_power-Clear i.change_dbm _ _ (
      took_channel-Clear cfg i.chan_at_change _ _
        (took_retx-Clear _ _ (took_bandwidth-Clear cfg c.mailbox.bandwidth _ h))))
  where
    took_retx-Clear : (m : Option Retx) → Keeps (Clear cfg) (took_retx cfg m)
    took_retx-Clear none c' h' = h'
    took_retx-Clear (some r) c' h' = h'

    took_power-Clear :
        (dbm : Option ℕ) (m : Option Level) → Keeps (Clear cfg) (took_power cfg dbm m)
    took_power-Clear dbm none c' h' = h'
    took_power-Clear dbm (some l) c' h' = h'

    took_forget-Clear : (n : ℕ) (m : Option (Option (List ℕ))) → Keeps (Clear cfg) (took_forget n m)
    took_forget-Clear n none c' h' = h'
    took_forget-Clear n (some mac) c' h' = h'
