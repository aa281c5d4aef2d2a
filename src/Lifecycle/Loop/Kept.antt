-- ===== src/Lifecycle/Loop/Kept.antt =====
-- The switch keeps what holds of the daemon, and so does every step of a run.
use ar8030_transport.Base.{
  ℕ, ◌+◌, ◌≡◌, ◌≢◌, refl, inl, inr, sym, ap, ◌∙◌, Bool, true, false, Option, none, some, ltb, ◌==◌,
  arith, Bool-cases,
}
use ar8030_transport.Lifecycle.{Config, Chan, chan_none, LinkState, connect, not_connect, is_ap}
use ar8030_transport.Lifecycle.Debounce.{
  Debounce, State, init, idle, connected, Outcome, waiting, came_up, dropped, steady, slot_or_0,
  idle_connect, idle_other, connected_miss, debounce_in, debounce,
}
use ar8030_transport.Lifecycle.Channel.{
  Channel, ChanInfo, track, check_link, push_link, push_target, matches, on_connect, is_settled,
}
use ar8030_transport.Lifecycle.Mailbox.{is_some}
use ar8030_transport.Lifecycle.Ctx.{Ctx, Tick, ◌⨾◌, on_channel, take_events}
use ar8030_transport.Lifecycle.Drains.{slot_of}
use ar8030_transport.Lifecycle.Switch.{
  note_gen, tune_new_link, note_peer, arm_check, work_new_link, forget_link, relink, check_if_due,
  check_due, recheck, work_steady_link, work_on, switch,
}
use ar8030_transport.Lifecycle.Loop.Sound.{Clear, Keeps, only_if-Keeps}

-- How an outcome goes with the states before and after it.
abbrev Decides : Outcome → Debounce → Debounce → Type 0
Decides waiting d d' =
    (d'.connected_slot ≡ d.connected_slot)
    × (d'.state ≡ connected → d.state ≡ connected)
    × (d'.state ≢ connected → d.state ≢ connected)
Decides came_up d d' = (d'.state ≡ connected) × (is_some d'.connected_slot ≡ true)
Decides dropped d d' = (d'.state ≡ idle) × (d'.connected_slot ≡ none)
Decides steady d d' =
    (d'.state ≡ connected) × (d.state ≡ connected) × (d'.connected_slot ≡ d.connected_slot)

slot_or_0-some : (slot : Option ℕ) → is_some (slot_or_0 slot) ≡ true
slot_or_0-some none = refl
slot_or_0-some (some s) = refl

pub idle_not_connected : idle ≢ connected
idle_not_connected e = grind arith

init_not_connected : init ≢ connected
init_not_connected e = grind arith

idle_connect-Decides :
    (slot : Option ℕ) (d : Debounce) → Decides (idle_connect slot d).0 d (idle_connect slot d).1
unfolding idle_connect
idle_connect-Decides slot d = elim (Bool-cases (ltb (d.connect_confirm_count + 1) 3)) [
  | inl e ↦ rw e (refl, λ k. k, λ k. k)
  | inr e ↦ rw e (refl, slot_or_0-some slot)
]

idle_other-Decides : (d : Debounce) → Decides (idle_other d).0 d (idle_other d).1
unfolding idle_other
idle_other-Decides d = elim (Bool-cases d.idle_hook_fired) [
  | inl e ↦ simp e (refl, λ k. k, λ k. k)
  | inr e ↦ simp e (refl, λ k. k, λ k. k)
]

connected_miss-Decides : (d : Debounce) → Decides (connected_miss d).0 d (connected_miss d).1
unfolding connected_miss
connected_miss-Decides d = elim (Bool-cases (ltb (d.drop_miss_count + 1) 6)) [
  | inl e ↦ rw e (refl, λ k. k, λ k. k)
  | inr e ↦ rw e (refl, refl)
]

debounce_in-Decides :
    (s : State) (r : Option LinkState) (slot : Option ℕ) (d : Debounce)
    → d.state ≡ s
    → Decides (debounce_in s r slot d).0 d (debounce_in s r slot d).1
unfolding debounce_in
debounce_in-Decides init r slot d e =
    (refl, λ k. absurd (idle_not_connected k), λ k u. absurd (init_not_connected (sym e ∙ u)))
debounce_in-Decides idle (some connect) slot d e = idle_connect-Decides slot d
debounce_in-Decides idle (some not_connect) slot d e = idle_other-Decides d
debounce_in-Decides idle none slot d e = idle_other-Decides d
debounce_in-Decides connected (some connect) slot d e = (e, e, refl)
debounce_in-Decides connected (some not_connect) slot d e = connected_miss-Decides d
debounce_in-Decides connected none slot d e = (e, e, refl)

-- On a link that is up, only these two are left to show.
abbrev LinkedClear : Config → Ctx → Type 0
LinkedClear cfg c =
    (c.debounce.state ≡ connected)
    × (is_some c.debounce.connected_slot ≡ true)
    × (is_ap cfg.role ≡ false → c.channel.wanted ≡ chan_none)

linked-Clear : (cfg : Config) (c : Ctx) → LinkedClear cfg c → Clear cfg c
linked-Clear cfg c (up, slot, dev) = record {
  linked = λ k. slot;
  unlinked = λ ne. absurd (ne up);
  dev_unset = dev;
}

check_link_wanted :
    (cfg : Config) (slot : Option ℕ) (read : Option ChanInfo) (khz : ℕ × ℕ) (now : ℕ) (ch : Channel)
    → (check_link cfg slot read khz now ch).0.wanted ≡ ch.wanted
unfolding check_link
check_link_wanted cfg slot none khz now ch = refl
check_link_wanted cfg slot (some info) khz now ch = elim (Bool-cases (is_settled cfg info khz ch)) [
  | inl e ↦ rw e refl
  | inr e ↦ elim (Bool-cases (ch.pushes_left == 0)) [
    | inl k ↦ rw (e, k) refl
    | inr k ↦ rw (e, k) (push_link_wanted (push_target (matches ch.wanted info) ch) _)
  ]
]
  where
    push_link_wanted :
        (t : Option Chan) (k : Channel) → (push_link slot now t k).0.wanted ≡ k.wanted
    push_link_wanted none k = refl
    push_link_wanted (some t) k = refl

track_unset :
    (cfg : Config) (read : Option ChanInfo) (ch : Channel)
    → ch.wanted ≡ chan_none
    → (track cfg read ch).0.wanted ≡ chan_none
unfolding track
track_unset cfg none ch e = e
track_unset cfg (some info) ch e = rw e refl

relink-LinkedClear : (cfg : Config) (i : Tick) → Keeps (LinkedClear cfg) (relink cfg i)
unfolding relink
relink-LinkedClear cfg i c h = elim (Bool-cases (c.tuning.connect_gen == c.shared.connect_gen)) [
  | inl e ↦ rw e h
  | inr e ↦ rw e h
]

check_if_due-LinkedClear : (cfg : Config) (i : Tick) → Keeps (LinkedClear cfg) (check_if_due cfg i)
unfolding check_if_due
check_if_due-LinkedClear cfg i c h =
    only_if-Keeps (LinkedClear cfg) (check_due i.now c.channel.check_at)
      (on_channel (check_link cfg (slot_of c) i.chan_at_check i.khz_at_check i.time_checked))
      (λ c' h'. (
        h'.0,
        h'.1,
        λ dev.
            check_link_wanted cfg (slot_of c) i.chan_at_check i.khz_at_check i.time_checked
              c'.channel
            ∙ h'.2 dev,
      ))
      c h

recheck-LinkedClear : (cfg : Config) (i : Tick) → Keeps (LinkedClear cfg) (recheck cfg i)
unfolding recheck ◌⨾◌
recheck-LinkedClear cfg i c h =
    (h.0, h.1, λ dev. track_unset cfg i.chan_at_track c.channel (h.2 dev))

work_steady-LinkedClear :
    (cfg : Config) (polled : Bool) (i : Tick)
    → Keeps (LinkedClear cfg) (work_steady_link cfg polled i)
unfolding work_steady_link ◌⨾◌
work_steady-LinkedClear cfg polled i c h =
    let c1 = (relink cfg i c).0 in
    let c2 = (check_if_due cfg i c1).0 in
    only_if-Keeps (LinkedClear cfg) polled (recheck cfg i) (recheck-LinkedClear cfg i) c2
      (check_if_due-LinkedClear cfg i c1 (relink-LinkedClear cfg i c h))

work_new-LinkedClear : (cfg : Config) (i : Tick) → Keeps (LinkedClear cfg) (work_new_link cfg i)
unfolding work_new_link ◌⨾◌ note_gen tune_new_link arm_check note_peer on_connect
work_new-LinkedClear cfg i c h = h

-- What is left to show after the debouncing, for its outcome and the new state.
work_on-Clear :
    (o : Outcome) (cfg : Config) (polled : Bool) (i : Tick) (c c' : Ctx)
    → Clear cfg c
    → Decides o c.debounce c'.debounce
    → (c'.tuning.last_bandwidth ≡ c.tuning.last_bandwidth) × (c'.channel ≡ c.channel)
    → Clear cfg (work_on o cfg polled i c').0
unfolding work_on forget_link
work_on-Clear waiting cfg polled i c c' h (slot, up, down) (mhz, ch) = record {
  linked = λ k. ap is_some slot ∙ h.linked (up k);
  unlinked = λ ne.
      let (s, m, seen) = h.unlinked (down ne) in (slot ∙ s, mhz ∙ m, ap (λ x. x.seen) ch ∙ seen);
  dev_unset = λ dev. ap (λ x. x.wanted) ch ∙ h.dev_unset dev;
}
work_on-Clear came_up cfg polled i c c' h (up, slot) (mhz, ch) =
    linked-Clear cfg (work_new_link cfg i c').0
      (work_new-LinkedClear cfg i c' (up, slot, λ dev. ap (λ x. x.wanted) ch ∙ h.dev_unset dev))
work_on-Clear dropped cfg polled i c c' h (down, slot) (mhz, ch) = record {
  linked = λ k. absurd (idle_not_connected (sym down ∙ k));
  unlinked = λ ne. (slot, refl, refl);
  dev_unset = λ dev. ap (λ x. x.wanted) ch ∙ h.dev_unset dev;
}
work_on-Clear steady cfg polled i c c' h (up, was_up, slot) (mhz, ch) =
    linked-Clear cfg (work_steady_link cfg polled i c').0 (
      work_steady-LinkedClear cfg polled i c'
        (up, ap is_some slot ∙ h.linked was_up, λ dev. ap (λ x. x.wanted) ch ∙ h.dev_unset dev))

pub switch-Clear :
    (cfg : Config) (polled : Bool) (i : Tick) → Keeps (Clear cfg) (switch cfg polled i)
unfolding switch debounce take_events
switch-Clear cfg polled i c h =
    let (o, d, acts) = debounce c.shared.link_state i.slot c.debounce in
    work_on-Clear o cfg polled i c (take_events i.events_late (record c { debounce = d })).0 h
      (debounce_in-Decides c.debounce.state c.shared.link_state i.slot c.debounce refl) (refl, refl)
