-- ===== src/BitrateCtl/Stages/Bounds.antt =====
-- The applied rate stays between the configured limits, whatever happens on the link.
use ar8030_transport.Base.{
  ℕ, zero, suc, ◌-◌, ◌≤◌, ◌<◌, ◌≡◌, ◌⊎◌, inl, inr, refl, ◌∙◌, Bool, true, false, not, ◌&&◌, Option,
  none, some, arith, ltb, leb, ◌==◌, if◌then◌else◌, Bool-cases,
}
use ar8030_transport.BitrateCtl.Vars.{
  since, mark_congested, Config, State, init, clamp_u32, learn_floor, accepted,
}
use ar8030_transport.BitrateCtl.Cut.{
  Request, bitrate, bitrate_and_roi, roi_on, apply_cut, Refuses, apply_cut-IsCut, learn_floor_lem,
}
use ar8030_transport.BitrateCtl.Stages.{
  Inputs, ldpc_react, ring_attached, ring_react, probe_from, urgent_cut, roi_now_on, target_of,
  roi_abort, ask, backlog, roi_recover, ring_stage, fast_cut, ldpc_stage, stamp, note_retx,
  retx_stage,
}

-- Waybeam's own floor, or the configured one if that is higher, is at most the ceiling.
pub record IsConfig (cfg : Config) (real : ℕ) : Type 0 where
  pub min_real : cfg.min_kbps ≤ real
  pub real_max : real ≤ cfg.max_kbps
  pub max_fits : cfg.max_kbps < 4294967295

pub record IsValid (cfg : Config) (real : ℕ) (st : State) : Type 0 where
  pub floor_low : cfg.min_kbps ≤ st.floor_kbps
  pub floor_real : st.floor_kbps ≤ real
  pub rate :
      (st.have_applied ≡ false)
      ⊎ (cfg.min_kbps ≤ st.last_applied_kbps) × (st.last_applied_kbps ≤ cfg.max_kbps)

pub init-IsValid : (cfg : Config) (real : ℕ) → IsConfig cfg real → IsValid cfg real (init cfg)
unfolding init
init-IsValid cfg real c = record {
  floor_low = omega arith;
  floor_real = c.min_real;
  rate = inl refl;
}

-- After a step the variables are well formed, and a rate that had been applied has not risen.
pub record Lowers (cfg : Config) (real : ℕ) (st st' : State) : Type 0 where
  pub valid : IsValid cfg real st'
  pub not_higher : st'.last_applied_kbps ≤ st.last_applied_kbps
  pub still_applied : st'.have_applied ≡ st.have_applied

pub Lowers-to :
    (cfg : Config) (real : ℕ) (st st' : State)
    → IsValid cfg real st
    → st.floor_kbps ≤ st'.floor_kbps
    → st'.floor_kbps ≤ real
    → st'.have_applied ≡ st.have_applied
    → (st'.last_applied_kbps ≡ st.last_applied_kbps)
      ⊎ (cfg.min_kbps ≤ st'.last_applied_kbps) × (st'.last_applied_kbps ≤ st.last_applied_kbps)
    → Lowers cfg real st st'
Lowers-to cfg real st st' v rises below same kept = record {
  valid = record {
    floor_low = omega (arith, v.floor_low);
    floor_real = below;
    rate = go v.rate kept;
  };
  not_higher = ground arith;
  still_applied = same;
}
  where
    go :
        (st.have_applied ≡ false)
          ⊎ (cfg.min_kbps ≤ st.last_applied_kbps) × (st.last_applied_kbps ≤ cfg.max_kbps)
        → (st'.last_applied_kbps ≡ st.last_applied_kbps)
          ⊎ (cfg.min_kbps ≤ st'.last_applied_kbps) × (st'.last_applied_kbps ≤ st.last_applied_kbps)
        → (st'.have_applied ≡ false)
          ⊎ (cfg.min_kbps ≤ st'.last_applied_kbps) × (st'.last_applied_kbps ≤ cfg.max_kbps)
    go (inl none_yet) k = inl (same ∙ none_yet)
    go (inr (low, high)) (inl e) = inr (omega arith, omega arith)
    go (inr (low, high)) (inr (l, h)) = inr (l, omega arith)

pub Lowers-trans :
    (cfg : Config) (real : ℕ) (a b d : State)
    → Lowers cfg real a b
    → Lowers cfg real b d
    → Lowers cfg real a d
Lowers-trans cfg real a b d x y = record {
  valid = y.valid;
  not_higher = omega (arith, x.not_higher, y.not_higher);
  still_applied = y.still_applied ∙ x.still_applied;
}

module _ {W : Type 0} (http : W → Request → ℕ × W) (cfg : Config) (real : ℕ) (c : IsConfig cfg real)
    (r : Refuses http real) where
  pub target_bounds :
      (st : State) (scaled : ℕ)
      → IsValid cfg real st
      → (st.floor_kbps ≤ target_of cfg st scaled) × (target_of cfg st scaled ≤ cfg.max_kbps)
  unfolding clamp_u32
  target_bounds st scaled v = ground (arith, v.floor_real, c.real_max)

  fast_cut-Lowers :
      (now scaled : ℕ) (st : State) (w : W)
      → IsValid cfg real st
      → Lowers cfg real st (fast_cut http cfg now scaled (st, w)).0
  unfolding fast_cut
  fast_cut-Lowers now scaled st w v =
      let target : ℕ = target_of cfg st scaled in
      let bounds = target_bounds st scaled v in
      elim (Bool-cases (ltb target st.last_applied_kbps)) [
        | inr high ↦ rw high (Lowers-to cfg real st st v (omega arith) v.floor_real refl (inl refl))
        | inl low ↦
            let cut =
              apply_cut-IsCut http real (omega (arith, c.real_max, c.max_fits)) r target
                st.last_applied_kbps st.floor_kbps w (ground arith) v.floor_real in
            elim (Bool-cases
              (accepted (apply_cut http target st.last_applied_kbps st.floor_kbps 1 w).status)) [
                | inl ok ↦
                    rw (low, ok)
                      (Lowers-to cfg real st _ v cut.floor_rises cut.floor_real refl
                        (inr (omega (arith, v.floor_low, cut.not_lower), cut.not_higher)))
                | inr bad ↦
                    rw (low, bad)
                      (Lowers-to cfg real st _ v cut.floor_rises cut.floor_real refl (inl refl))
              ]
      ]

  -- Steps that leave the rate and the floor alone.
  pub same_rate :
      (st st' : State)
      → IsValid cfg real st
      → st'.floor_kbps ≡ st.floor_kbps
      → st'.have_applied ≡ st.have_applied
      → st'.last_applied_kbps ≡ st.last_applied_kbps
      → Lowers cfg real st st'
  same_rate st st' v f h l =
      Lowers-to cfg real st st' v (omega arith) (omega (arith, v.floor_real)) h (inl l)

  roi_abort-Lowers :
      (now : ℕ) (st : State) (w : W)
      → IsValid cfg real st
      → Lowers cfg real st (roi_abort http now (st, w)).0
  roi_abort-Lowers now st w v =
      same_rate st _ v (unfold roi_abort in ground arith) (unfold roi_abort in ground arith)
        (unfold roi_abort in ground arith)

  roi_recover-Lowers :
      (now : ℕ) (st : State) (w : W)
      → IsValid cfg real st
      → Lowers cfg real st (roi_recover http cfg now (st, w)).0
  roi_recover-Lowers now st w v =
      same_rate st _ v (unfold roi_recover in ground arith) (unfold roi_recover in ground arith)
        (unfold roi_recover in ground arith)

  ldpc_react-Lowers :
      (now : ℕ) (reading : Option (Bool × Bool)) (st : State) (w : W)
      → IsValid cfg real st
      → Lowers cfg real st (ldpc_react http cfg now reading (st, w)).0
  unfolding ldpc_react
  ldpc_react-Lowers now none st w v = same_rate st st v refl refl refl
  ldpc_react-Lowers now (some (true, severe)) st w v = fast_cut-Lowers now _ st w v
  ldpc_react-Lowers now (some (false, severe)) st w v = same_rate st st v refl refl refl

  -- A step after variables other than the rate and the floor were set.
  after_same :
      (st st1 st' : State)
      → IsValid cfg real st
      → st1.floor_kbps ≡ st.floor_kbps
      → st1.have_applied ≡ st.have_applied
      → st1.last_applied_kbps ≡ st.last_applied_kbps
      → (IsValid cfg real st1 → Lowers cfg real st1 st')
      → Lowers cfg real st st'
  after_same st st1 st' v f h l step =
      let first = same_rate st st1 v f h l in
      Lowers-trans cfg real st st1 st' first (step first.valid)

  pub ldpc_stage-Lowers :
      (i : Inputs) (st : State) (w : W)
      → IsValid cfg real st
      → Lowers cfg real st (ldpc_stage http cfg i (st, w)).0
  unfolding ldpc_stage
  ldpc_stage-Lowers i st w v =
      elim (Bool-cases (
        not (
          cfg.ldpc_on
          && (st.have_applied
              && (leb 250 (since i.now st.last_ldpc_apply_ms)
                  && leb 500 (since i.now st.last_cut_ms)))))) [
                    | inl e ↦ rw e (same_rate st st v refl refl refl)
                    | inr e ↦ rw e (
                        after_same st (record st { last_ldpc_apply_ms = i.now }) _ v refl refl refl
                          (ldpc_react-Lowers i.now i.ldpc (record st { last_ldpc_apply_ms = i.now })
                            w))
                  ]

  pub retx_stage-Lowers :
      (i : Inputs) (st : State) (w : W)
      → IsValid cfg real st
      → Lowers cfg real st (retx_stage http cfg i (st, w)).0
  unfolding retx_stage
  retx_stage-Lowers i st w v =
      elim (Bool-cases (
        not (
          cfg.retx_on
          && (st.have_applied
              && (leb 250 (since i.now st.last_retx_event_apply_ms)
                  && (leb 500 (since i.now st.last_cut_ms)
                      && not (i.retx_too_many == st.last_seen_retx_too_many))))))) [
                        | inl e ↦ rw e (same_rate st st v refl refl refl)
                        | inr e ↦
                            rw e (after_same st _ _ v refl refl refl (fast_cut-Lowers i.now _ _ w))
                      ]

  stamp-Lowers :
      (n now : ℕ) (st : State) → IsValid cfg real st → Lowers cfg real st (stamp n now st)
  unfolding stamp
  stamp-Lowers zero now st v = same_rate st st v refl refl refl
  stamp-Lowers (suc n) now st v = after_same st _ _ v refl refl refl (stamp-Lowers n now _)

  pub note_retx-Lowers :
      (i : Inputs) (st : State) → IsValid cfg real st → Lowers cfg real st (note_retx i st)
  unfolding note_retx
  note_retx-Lowers i st v = stamp-Lowers (i.retx_too_many - st.retx_counted) i.now st v

  probe_kept :
      (now : ℕ) (st : State)
      → ((probe_from cfg now st).floor_kbps ≡ st.floor_kbps)
        × ((probe_from cfg now st).have_applied ≡ st.have_applied)
  probe_kept now st = ground arith

  -- An accepted cut, with or without the switch to ROI.
  urgent_cut-Lowers :
      (now target : ℕ) (roi : Bool) (st : State)
      → IsValid cfg real st
      → st.floor_kbps ≤ target
      → target ≤ st.last_applied_kbps
      → Lowers cfg real st (
          if roi
          then roi_now_on now (urgent_cut cfg now target st)
          else urgent_cut cfg now target st)
  urgent_cut-Lowers now target true st v low high =
      let (floor, have) = probe_kept now st in
      Lowers-to cfg real st _ v (omega arith) (omega (arith, v.floor_real)) have
        (inr (omega (arith, v.floor_low), high))
  urgent_cut-Lowers now target false st v low high =
      let (floor, have) = probe_kept now st in
      Lowers-to cfg real st _ v (omega arith) (omega (arith, v.floor_real)) have
        (inr (omega (arith, v.floor_low), high))

  refused_cut-Lowers :
      (status target : ℕ) (st : State)
      → IsValid cfg real st
      → (status ≡ 409 → target < real)
      → Lowers cfg real st (record st { floor_kbps = learn_floor st.floor_kbps status target })
  refused_cut-Lowers status target st v below =
      let learned =
        learn_floor_lem http st.floor_kbps status target real below v.floor_real
          (omega (arith, c.real_max, c.max_fits)) in
      Lowers-to cfg real st _ v learned.0 learned.1 refl (inl refl)

  ask-Lowers :
      (now target : ℕ) (cut roi : Bool) (st : State) (w : W)
      → IsValid cfg real st
      → st.floor_kbps ≤ target
      → (cut ≡ true → target ≤ st.last_applied_kbps)
      → Lowers cfg real st (ask http cfg now target cut roi (st, w)).0
  unfolding ask
  ask-Lowers now target false false st w v b lower = same_rate st st v refl refl refl
  ask-Lowers now target false true st w v b lower = elim (Bool-cases (accepted (http w roi_on).0)) [
    | inl ok ↦ rw ok (same_rate st _ v refl refl refl)
    | inr bad ↦ rw bad (same_rate st st v refl refl refl)
  ]
  ask-Lowers now target true true st w v b lower =
      elim (Bool-cases (accepted (http w (bitrate_and_roi target)).0)) [
        | inl ok ↦ rw ok (urgent_cut-Lowers now target true st v b (lower refl))
        | inr bad ↦ rw bad (refused_cut-Lowers _ target st v (r.below_roi w target))
      ]
  ask-Lowers now target true false st w v b lower =
      elim (Bool-cases (accepted (http w (bitrate target)).0)) [
        | inl ok ↦ rw ok (urgent_cut-Lowers now target false st v b (lower refl))
        | inr bad ↦ rw bad (refused_cut-Lowers _ target st v (r.below w target))
      ]

  backlog-Lowers :
      (now : ℕ) (st : State) (w : W)
      → IsValid cfg real st
      → Lowers cfg real st (backlog http cfg now (st, w)).0
  unfolding backlog
  backlog-Lowers now st w v =
      let st1 : State = mark_congested now (record st { last_backlog_ms = now }) in
      after_same st st1 _ v refl refl refl (λ v1.
        let target : ℕ = target_of cfg st1 (cfg.ring_scaled st1.last_applied_kbps) in
        let abort = roi_abort-Lowers now st1 w v1 in
        let kept = roi_abort_kept now st1 w in
        Lowers-trans cfg real st1 _ _ abort (
          ask-Lowers now target _ _ (roi_abort http now (st1, w)).0 (roi_abort http now (st1, w)).1
            abort.valid
            (omega (arith, kept, (target_bounds st1 (cfg.ring_scaled st1.last_applied_kbps) v1).0))
            (λ cut. ground (arith, kept))))
    where
      roi_abort_kept :
          (now : ℕ) (st : State) (w : W)
          → ((roi_abort http now (st, w)).0.floor_kbps ≡ st.floor_kbps)
            × ((roi_abort http now (st, w)).0.last_applied_kbps ≡ st.last_applied_kbps)
      roi_abort_kept now st w = unfold roi_abort in ground arith

  ring_attached-Lowers :
      (now slots : ℕ) (st : State) (w : W)
      → IsValid cfg real st
      → Lowers cfg real st (ring_attached http cfg now slots (st, w)).0
  unfolding ring_attached
  ring_attached-Lowers now slots st w v =
      elim (Bool-cases (not (st.have_applied && leb 250 (since now st.last_apply_ms)))) [
        | inl e ↦ rw e (same_rate st st v refl refl refl)
        | inr e ↦ elim (Bool-cases (leb cfg.ring_backlog_high_slots slots)) [
          | inl f ↦ rw (e, f) (backlog-Lowers now st w v)
          | inr f ↦ rw (e, f) (roi_recover-Lowers now st w v)
        ]
      ]

  ring_react-Lowers :
      (now : ℕ) (slots : Option ℕ) (st : State) (w : W)
      → IsValid cfg real st
      → Lowers cfg real st (ring_react http cfg now slots (st, w)).0
  unfolding ring_react
  ring_react-Lowers now none st w v = same_rate st st v refl refl refl
  ring_react-Lowers now (some slots) st w v = ring_attached-Lowers now slots st w v

  pub ring_stage-Lowers :
      (i : Inputs) (st : State) (w : W)
      → IsValid cfg real st
      → Lowers cfg real st (ring_stage http cfg i (st, w)).0
  unfolding ring_stage
  ring_stage-Lowers i st w v = ring_react-Lowers i.now i.ring_slots st w v
