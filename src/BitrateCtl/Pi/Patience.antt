-- ===== src/BitrateCtl/Pi/Patience.antt =====
-- The focus mode over a run of rounds: it is switched off only after a while at a comfortable rate.
use mathlib.Core.Path.{subst}
use mathlib.Core.Bool.{false≢true}
use ar8030_transport.Base.{
  ℕ, ◌+◌, ◌≤◌, ◌<◌, ◌≡◌, ◌⊎◌, sym, inl, inr, Bool, true, false, ◌||◌, ◌==◌, ltb, arith, Bool-cases,
  if◌then◌else◌, List, [], ◌∷◌, some, Option, ap, All, ◌&&◌,
}
use ar8030_transport.BitrateCtl.Vars.{since}
use ar8030_transport.BitrateCtl.Cut.{Request}
use ar8030_transport.BitrateCtl.Pi.Vars.{Focus}
use ar8030_transport.BitrateCtl.Pi.Roi.{set_focus, pi_focus, is_on}

-- The rounds, newest first, each with the applied rate and its time.
abbrev pub Rounds : Type 0
Rounds = List (ℕ × ℕ)

abbrev newest : Rounds → ℕ
newest [] = 0
newest ((a, t) ∷ rs) = t

-- The times are those of a clock.
abbrev pub Clocked : Rounds → Type 0
Clocked [] = Unit {0}
Clocked ((a, t) ∷ rs) = (0 < t) × (t < 18446744073709551616) × (newest rs ≤ t) × Clocked rs

-- Nothing was applied at `r`, or a comfortable rate.
abbrev pub Comfortable : ℕ → ℕ × ℕ → Type 0
Comfortable roi_max r = (r.0 ≡ 0) ⊎ (roi_max ≤ r.0)

-- The rounds after `s` were comfortable.
abbrev pub ComfortableAfter : ℕ → ℕ → Rounds → Type 0
ComfortableAfter roi_max s = All (λ r. s < r.1 → Comfortable roi_max r)

short :
    (passed recovery : ℕ) (focus : Option Bool)
    → focus ≡ some true
    → (is_on focus && ltb passed recovery) ≡ false
    → recovery ≤ passed
short passed recovery focus on h = ground (arith, ap is_on on)

module _ (roi_max recovery : ℕ) {W : Type 0} (http : W → Request → ℕ × W) where
  unfoldable pub focus_run : Rounds → Focus × W → Focus × W
  focus_run [] x = x
  focus_run ((a, t) ∷ rs) x = pi_focus http roi_max recovery a t (focus_run rs x)

  record IsTimed (rs : Rounds) (f : Focus) : Type 0 where
    past : f.above_since_ms ≤ newest rs
    comfortable : (f.above_since_ms ≡ 0) ⊎ ComfortableAfter roi_max f.above_since_ms rs

  set_focus_above :
      (now : ℕ) (want : Bool) (f : Focus) (w : W)
      → (set_focus http now want f w).0.above_since_ms ≡ f.above_since_ms
  unfolding set_focus
  set_focus_above now want f w = ground arith

  set_focus_focus :
      (now : ℕ) (want : Bool) (f : Focus) (w : W)
      → ((set_focus http now want f w).0.focus ≡ f.focus)
        ⊎ ((set_focus http now want f w).0.focus ≡ some want)
  unfolding set_focus
  set_focus_focus now want f w = ground arith

  set_focus_want :
      (now : ℕ) (want : Bool) (f : Focus) (w : W)
      → f.focus ≡ some true
      → (set_focus http now want f w).0.focus ≡ some false
      → want ≡ false
  set_focus_want now want f w on off = elim (set_focus_focus now want f w) [
    | inl same ↦ cc
    | inr new ↦ cc
  ]

  -- The rounds so far are not after the newest of them.
  none_after : (s : ℕ) (rs : Rounds) → Clocked rs → newest rs ≤ s → ComfortableAfter roi_max s rs
  none_after s [] c h = tt
  none_after s ((a, t) ∷ rs) c h =
      (λ l. absurd (omega arith), none_after s rs c.3 (omega (arith, c.2)))

  -- Where the timer starts, or has started.
  abbrev since_when : ℕ → Focus → ℕ
  since_when t f = if f.above_since_ms == 0 then t else f.above_since_ms

  since_when_lem :
      (t : ℕ) (rs : Rounds) (f : Focus)
      → Clocked rs
      → newest rs ≤ t
      → IsTimed rs f
      → (since_when t f ≤ t) × ComfortableAfter roi_max (since_when t f) rs
  since_when_lem t rs f c l i = elim (Bool-cases (f.above_since_ms == 0)) [
    | inl e ↦ rw e (omega arith, none_after t rs c l)
    | inr e ↦
        rw e
          (omega (arith, i.past), elim i.comfortable [ inl z ↦ absurd (ground arith) | inr s ↦ s ])
  ]

  step-IsTimed :
      (a t : ℕ) (rs : Rounds) (f : Focus) (w : W)
      → Clocked ((a, t) ∷ rs)
      → IsTimed rs f
      → IsTimed ((a, t) ∷ rs) (pi_focus http roi_max recovery a t (f, w)).0
  unfolding pi_focus
  step-IsTimed a t rs f w c i = elim (Bool-cases (roi_max == 0 || a == 0)) [
    | inl idle ↦ rw idle (record {
      past = omega (arith, i.past, c.2);
      comfortable = elim i.comfortable [ inl z ↦ inl z | inr s ↦ inr (λ l. ground arith, s) ];
    })
    | inr busy ↦ elim (Bool-cases (ltb a roi_max)) [
      | inl low ↦
          let e = set_focus_above t true (record f { above_since_ms = 0 }) w in
          rw (busy, low) (record { past = omega (arith, e); comfortable = inl e })
      | inr high ↦
          let s : ℕ = since_when t f in
          let want = is_on f.focus && ltb (since t s) recovery in
          let e = set_focus_above t want (record f { above_since_ms = s }) w in
          let timer = since_when_lem t rs f c.3 c.2 i in
          rw (busy, high)
            (record {
              past = subst (λ x. x ≤ t) (sym e) timer.0;
              comfortable = inr (
                  subst (λ x. ComfortableAfter roi_max x ((a, t) ∷ rs)) (sym e)
                    (λ l. inr (ground arith), timer.1));
            })
    ]
  ]

  run-IsTimed :
      (rs : Rounds) (f : Focus) (w : W)
      → Clocked rs
      → f.above_since_ms ≡ 0
      → IsTimed rs (focus_run rs (f, w)).0
  unfolding focus_run
  run-IsTimed [] f w c z = record { past = omega arith; comfortable = inl z }
  run-IsTimed ((a, t) ∷ rs) f w c z =
      step-IsTimed a t rs (focus_run rs (f, w)).0 (focus_run rs (f, w)).1 c
        (run-IsTimed rs f w c.3 z)

  weaken :
      (s now : ℕ) (rs : Rounds)
      → s + recovery ≤ now
      → ComfortableAfter roi_max s rs
      → All (λ r. now < r.1 + recovery → Comfortable roi_max r) rs
  weaken s now [] h c = tt
  weaken s now (r ∷ rs) h c = (λ l. c.0 (omega arith), weaken s now rs h c.1)

  switched_off :
      (a now : ℕ) (f : Focus) (w : W)
      → f.focus ≡ some true
      → (pi_focus http roi_max recovery a now (f, w)).0.focus ≡ some false
      → (roi_max ≤ a) × (recovery ≤ since now (since_when now f))
  unfolding pi_focus
  switched_off a now f w on off = elim (Bool-cases (roi_max == 0 || a == 0)) [
    | inl idle ↦ cc (sym on, rw idle at off)
    | inr busy ↦ elim (Bool-cases (ltb a roi_max)) [
      | inl low ↦ absurd (false≢true (sym (set_focus_want now true _ w on (rw (busy, low) at off))))
      | inr high ↦
          let s : ℕ = since_when now f in
          let want = is_on f.focus && ltb (since now s) recovery in
          let no_want : want ≡ false =
            set_focus_want now want (record f { above_since_ms = s }) w on
              (rw (busy, high) at off) in
          (ground arith, short (since now s) recovery f.focus on no_want)
    ]
  ]

  -- For a run of rounds with any answers of waybeam, at times of a clock, from a state with the timer
  -- off: where a round switches the focus mode off, its rate is at least roi_max_kbps, and so was the
  -- rate of every earlier round less than roi_recovery_ms ago that had one applied.
  pub pi_focus_off :
      (rs : Rounds) (a now : ℕ) (f : Focus) (w : W)
      → Clocked ((a, now) ∷ rs)
      → f.above_since_ms ≡ 0
      → (focus_run rs (f, w)).0.focus ≡ some true
      → (focus_run ((a, now) ∷ rs) (f, w)).0.focus ≡ some false
      → (roi_max ≤ a) × All (λ r. now < r.1 + recovery → Comfortable roi_max r) rs
  unfolding focus_run
  pi_focus_off rs a now f w c z on off =
      let x = focus_run rs (f, w) in
      let done = switched_off a now x.0 x.1 on off in
      let timer = since_when_lem now rs x.0 c.3 c.2 (run-IsTimed rs f w c.3 z) in
      (done.0, weaken (since_when now x.0) now rs (omega (arith, done.1, timer.0, c.1)) timer.1)
