-- ===== src/Lifecycle/Loop/Lost.antt =====
-- A lost session to the chip's daemon ends the loop and asks for a restart.
use ar8030_transport.Base.{
  ℕ, suc, ◌+◌, ◌≤◌, ◌≡◌, refl, ◌∙◌, ap, Bool, true, false, not, none, List, [], ◌∷◌, leb,
  if◌then◌else◌, arith, Bool-cases, inl, inr,
}
use ar8030_transport.Lifecycle.{Config}
use ar8030_transport.Lifecycle.Ctx.{Ctx, Tick, ◌⨾◌, only_if, take_events}
use ar8030_transport.Lifecycle.Loop.{
  fallback, heat, standby, round, tick, Step, ticks, step, run, poll_due, poll_answer,
  session_lost_polls, poll_fallback_s,
}
use ar8030_transport.Lifecycle.Loop.View.{Flags, flags, view, take_events-Has, switched-Has}

-- What the fallback poll makes of the flags when it fails.
abbrev failed : ℕ → Flags → Flags
failed now (restart, shutdown, fails, last) =
    let lost = leb session_lost_polls (fails + 1) in
    ((if lost then true else restart), (if lost then true else shutdown), fails + 1, now)

fallback-failed :
    (i : Tick) (c : Ctx) → i.poll ≡ none → flags (fallback i c).0 ≡ failed i.now (flags c)
unfolding fallback poll_answer
fallback-failed i c e = rw e (elim (Bool-cases (leb session_lost_polls (c.poll_fails + 1))) [
  | inl k ↦ rw k refl
  | inr k ↦ rw k refl
])

round-idle : (cfg : Config) (i : Tick) (c : Ctx) → flags (round cfg i false c).0 ≡ flags c
unfolding round ◌⨾◌ heat standby
round-idle cfg i c = ap (λ x. x.0) (switched-Has (view c) cfg false i c refl)

round-failed :
    (cfg : Config) (i : Tick) (c : Ctx)
    → i.poll ≡ none
    → flags (round cfg i true c).0 ≡ failed i.now (flags c)
unfolding round ◌⨾◌ heat standby
round-failed cfg i c e =
    let c1 = (fallback i c).0 in
    ap (λ x. x.0) (switched-Has (view c1) cfg true i c1 refl) ∙ fallback-failed i c e

-- Whether a tick's fallback poll is due after one at `last`, and the time of the last poll after it.
abbrev pub is_due : ℕ → Tick → Bool
is_due last i = leb (last + poll_fallback_s) i.now

abbrev pub next_last : ℕ → Tick → ℕ
next_last last i = if is_due last i then i.now else last

-- The fallback polls that are due in the ticks, which may be any share of these, all fail.
abbrev pub AllFail : ℕ → List Tick → Type 0
AllFail last [] = Unit
AllFail last (i ∷ is) = (is_due last i ≡ true → i.poll ≡ none) × AllFail (next_last last i) is

-- How many of them are due.
abbrev pub due_polls : ℕ → List Tick → ℕ
due_polls last [] = 0
due_polls last (i ∷ is) =
    let rest = due_polls (next_last last i) is in if is_due last i then suc rest else rest

tick-failed :
    (cfg : Config) (i : Tick) (c : Ctx)
    → c.last_fallback_poll + poll_fallback_s ≤ i.now
    → i.poll ≡ none
    → flags (tick cfg i c).0 ≡ failed i.now (flags c)
unfolding tick ◌⨾◌
tick-failed cfg i c due e =
    let c1 = (take_events i.events_start c).0 in
    rw (is_due c1 (take_last c)) (round-failed cfg i c1 e)
    ∙ ap (failed i.now) (ap (λ x. x.0) (take_events-Has (view c) i.events_start c refl))
  where
    take_last :
        (c' : Ctx) → (take_events i.events_start c').0.last_fallback_poll ≡ c'.last_fallback_poll
    take_last c' = unfold take_events in refl

    is_due : (c' : Ctx) → c'.last_fallback_poll ≡ c.last_fallback_poll → poll_due i c' ≡ true
    is_due c' k = ground (arith, k)

-- A tick whose fallback poll is not due.
tick-idle :
    (cfg : Config) (i : Tick) (c : Ctx)
    → is_due c.last_fallback_poll i ≡ false
    → flags (tick cfg i c).0 ≡ flags c
unfolding tick ◌⨾◌
tick-idle cfg i c early =
    let c1 = (take_events i.events_start c).0 in
    let same = ap (λ x. x.0) (take_events-Has (view c) i.events_start c refl) in
    rw (ap (λ v. is_due v.3 i) same ∙ early) (round-idle cfg i c1) ∙ same

abbrev pub all_ticks : List Tick → List Step
all_ticks [] = []
all_ticks (i ∷ is) = ticks i ∷ all_ticks is

abbrev IsStopped : Ctx → Type 0
IsStopped c = (c.shared.restart_requested ≡ true) × (c.shared.shutdown_requested ≡ true)

-- A stopped daemon does nothing more.
run-IsStopped :
    (cfg : Config) (is : List Tick) (c : Ctx) → IsStopped c → IsStopped (run cfg (all_ticks is) c).0
unfolding run ◌⨾◌ step
run-IsStopped cfg [] c h = h
run-IsStopped cfg (i ∷ is) c h =
    run-IsStopped cfg is (only_if (not c.shared.shutdown_requested) (tick cfg i) c).0
      (idle_step (not c.shared.shutdown_requested) (ap not h.1))
  where
    idle_step : (b : Bool) → b ≡ false → IsStopped (only_if b (tick cfg i) c).0
    idle_step true e = ground arith
    idle_step false e = h

-- A tick of a running daemon.
step_running :
    (cfg : Config) (i : Tick) (c : Ctx) (v : Flags)
    → c.shared.shutdown_requested ≡ false
    → flags (tick cfg i c).0 ≡ v
    → flags (step cfg (ticks i) c).0 ≡ v
unfolding step
step_running cfg i c v on e = running (not c.shared.shutdown_requested) (ap not on)
  where
    running : (b : Bool) → b ≡ true → flags (only_if b (tick cfg i) c).0 ≡ v
    running false k = ground arith
    running true k = e

-- The third failure in a row stops the daemon, an earlier one is counted.
lost_now :
    (now : ℕ) (v : Flags) (c : Ctx)
    → flags c ≡ failed now v
    → leb session_lost_polls (v.2 + 1) ≡ true
    → IsStopped c
lost_now now v c e k = (ap (λ x. x.0) e ∙ rw k refl, ap (λ x. x.1) e ∙ rw k refl)

not_lost : (fails : ℕ) → leb session_lost_polls (fails + 1) ≡ false → fails + 1 ≤ 2
not_lost fails k = ground arith

-- With the polls that failed before, enough polls fail in the run.
lost_from :
    (cfg : Config) (is : List Tick) (c : Ctx)
    → AllFail c.last_fallback_poll is
    → 1 ≤ due_polls c.last_fallback_poll is
    → session_lost_polls ≤ c.poll_fails + due_polls c.last_fallback_poll is
    → c.shared.shutdown_requested ≡ false
    → IsStopped (run cfg (all_ticks is) c).0
unfolding run ◌⨾◌
lost_from cfg [] c fails few enough on = absurd (omega (arith, few))
lost_from cfg (i ∷ is) c fails few enough on =
    let c' = (step cfg (ticks i) c).0 in
    elim (Bool-cases (is_due c.last_fallback_poll i)) [
      | inr early ↦
          let same = step_running cfg i c (flags c) on (tick-idle cfg i c early) in
          lost_from cfg is c' (rw (ap (λ x. x.3) same) (rw early at fails.1))
            (rw (ap (λ x. x.3) same) (rw early at few))
            (rw (ap (λ x. x.2) same, ap (λ x. x.3) same) (rw early at enough))
            (ap (λ x. x.1) same ∙ on)
      | inl due ↦
          let same =
            step_running cfg i c (failed i.now (flags c)) on
              (tick-failed cfg i c (ground (arith, due)) (fails.0 due)) in
          elim (Bool-cases (leb session_lost_polls (c.poll_fails + 1))) [
            | inl k ↦ run-IsStopped cfg is c' (lost_now i.now (flags c) c' same k)
            | inr k ↦
                lost_from cfg is c' (rw (ap (λ x. x.3) same) (rw due at fails.1))
                  (rw (ap (λ x. x.3) same)
                    (omega (arith, not_lost c.poll_fails k, rw due at enough)))
                  (rw (ap (λ x. x.2) same, ap (λ x. x.3) same) (omega (arith, rw due at enough)))
                  (ap (λ x. x.1) same ∙ rw k on)
          ]
    ]

-- In a run of ticks of a running daemon, of which any share may have no fallback poll due: if every
-- poll that is due fails, and at least LC_SESSION_LOST_POLLS are, the daemon ends its loop and asks to
-- be restarted, whatever else happens in those ticks.
pub run_lost :
    (cfg : Config) (is : List Tick) (c : Ctx)
    → AllFail c.last_fallback_poll is
    → session_lost_polls ≤ due_polls c.last_fallback_poll is
    → c.shared.shutdown_requested ≡ false
    → ((run cfg (all_ticks is) c).0.shared.restart_requested ≡ true)
      × ((run cfg (all_ticks is) c).0.shared.shutdown_requested ≡ true)
run_lost cfg is c fails enough on =
    lost_from cfg is c fails (omega (arith, enough)) (omega (arith, enough)) on
