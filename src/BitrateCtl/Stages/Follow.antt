-- ===== src/BitrateCtl/Stages/Follow.antt =====
-- The last stage keeps the applied rate between the configured limits, upwards too.
use ar8030_transport.Base.{
  ℕ, ◌≤◌, ◌<◌, ◌≡◌, ◌⊎◌, inl, inr, refl, true, false, not, ◌&&◌, ◌||◌, Option, none, some, arith,
  ltb, leb, ◌==◌, Bool-cases,
}
use ar8030_transport.BitrateCtl.Vars.{Config, State, accepted, since}
use ar8030_transport.BitrateCtl.Cut.{Request, bitrate, apply_cut, Refuses, apply_cut-IsCut}
use ar8030_transport.BitrateCtl.Stages.{
  Inputs, target_of, note_link, increase_of, held_back, mcs_cut, mcs_set, mcs_react, follow_link,
  mcs_stage,
}
use ar8030_transport.BitrateCtl.Stages.Bounds.{
  IsConfig, IsValid, Lowers, Lowers-to, target_bounds, same_rate,
}

increase_of-le :
    (cfg : Config) (now : ℕ) (st : State) (target : ℕ) → increase_of cfg now st target ≤ target
unfolding increase_of
increase_of-le cfg now st target = ground arith

module _ {W : Type 0} (http : W → Request → ℕ × W) (cfg : Config) (real : ℕ) (c : IsConfig cfg real)
    (r : Refuses http real) where
  note_link-Lowers :
      (now link : ℕ) (st : State)
      → IsValid cfg real st
      → Lowers cfg real st (note_link cfg now link st)
  note_link-Lowers now link st v =
      same_rate http cfg real c r st _ v (unfold note_link in ground arith)
        (unfold note_link in ground arith) (unfold note_link in ground arith)

  mcs_cut-IsValid :
      (now target : ℕ) (st : State) (w : W)
      → IsValid cfg real st
      → st.floor_kbps ≤ target
      → target < st.last_applied_kbps
      → IsValid cfg real (mcs_cut http cfg now target (st, w)).0
  unfolding mcs_cut
  mcs_cut-IsValid now target st w v low lt =
      let cut =
        apply_cut-IsCut http real (omega (arith, c.real_max, c.max_fits)) r target
          st.last_applied_kbps st.floor_kbps w (omega arith) v.floor_real in
      elim (Bool-cases (ltb (since now st.last_mcs_cut_ms) 250)) [
        | inl soon ↦ rw soon v
        | inr late ↦
            elim (Bool-cases
              (accepted (apply_cut http target st.last_applied_kbps st.floor_kbps 1 w).status)) [
                | inl ok ↦
                    rw (late, ok)
                      (Lowers-to cfg real st _ v cut.floor_rises cut.floor_real refl
                        (inr (omega (arith, v.floor_low, cut.not_lower), cut.not_higher))).valid
                | inr bad ↦
                    rw (late, bad)
                      (Lowers-to cfg real st _ v cut.floor_rises cut.floor_real refl
                        (inl refl)).valid
              ]
      ]

  mcs_set-IsValid :
      (now target : ℕ) (st : State) (w : W)
      → IsValid cfg real st
      → cfg.min_kbps ≤ target
      → target ≤ cfg.max_kbps
      → IsValid cfg real (mcs_set http now target (st, w)).0
  unfolding mcs_set
  mcs_set-IsValid now target st w v low high =
      elim (Bool-cases (accepted (http w (bitrate target)).0)) [
        | inl ok ↦
            rw ok (record {
              floor_low = v.floor_low;
              floor_real = v.floor_real;
              rate = inr (low, high);
            })
        | inr bad ↦ rw bad v
      ]

  follow_link-IsValid :
      (now link : ℕ) (st : State) (w : W)
      → IsValid cfg real st
      → IsValid cfg real (follow_link http cfg now link (st, w)).0
  unfolding follow_link
  follow_link-IsValid now link st w v =
      let target : ℕ = target_of cfg st (cfg.margin_scaled link) in
      let raised : ℕ = increase_of cfg now st target in
      let bounds = target_bounds http cfg real c r st (cfg.margin_scaled link) v in
      elim (Bool-cases (not st.have_applied)) [
        | inl first ↦
            rw first
              (mcs_set-IsValid now target st w v (omega (arith, bounds, v.floor_low)) bounds.1)
        | inr applied ↦ elim (Bool-cases (cfg.small_change target st.last_applied_kbps)) [
          | inl small ↦ rw (applied, small) v
          | inr change ↦ elim (Bool-cases (ltb target st.last_applied_kbps)) [
            | inl down ↦
                rw (applied, change, down)
                  (mcs_cut-IsValid now target st w v bounds.0 (ground arith))
            | inr up ↦ elim (Bool-cases (held_back cfg now st || leb raised st.last_applied_kbps)) [
              | inl held ↦ rw (applied, change, up, held) v
              | inr free ↦
                  rw (applied, change, up, free)
                    (mcs_set-IsValid now raised st w v (above v.rate (ground arith) (ground arith))
                      (omega (arith, increase_of-le cfg now st target, bounds)))
            ]
          ]
        ]
      ]
    where
      above :
          {k : ℕ}
          → (st.have_applied ≡ false)
            ⊎ (cfg.min_kbps ≤ st.last_applied_kbps) × (st.last_applied_kbps ≤ cfg.max_kbps)
          → st.have_applied ≡ true
          → st.last_applied_kbps < k
          → cfg.min_kbps ≤ k
      above (inl none_yet) some_rate lt = absurd (cc)
      above (inr (low, high)) some_rate lt = omega arith

  mcs_react-IsValid :
      (now : ℕ) (reading : Option ℕ) (st : State) (w : W)
      → IsValid cfg real st
      → IsValid cfg real (mcs_react http cfg now reading (st, w)).0
  unfolding mcs_react
  mcs_react-IsValid now none st w v = v
  mcs_react-IsValid now (some link) st w v =
      follow_link-IsValid now link (note_link cfg now link st) w
        (note_link-Lowers now link st v).valid

  pub mcs_stage-IsValid :
      (i : Inputs) (st : State) (w : W)
      → IsValid cfg real st
      → IsValid cfg real (mcs_stage http cfg i (st, w)).0
  unfolding mcs_stage
  mcs_stage-IsValid i st w v =
      let woken = not (i.wake == st.last_seen_wake) in
      let st1 : State = record st { last_seen_wake = i.wake } in
      let st2 : State = record st1 { last_mcs_poll_ms = i.now } in
      let kept : IsValid cfg real st1 =
        (same_rate http cfg real c r st st1 v refl refl refl).valid in
      elim (Bool-cases (
        st.have_applied
        && (not woken && ltb (since i.now st.last_mcs_poll_ms) cfg.poll_interval_ms))) [
          | inl skip ↦ rw skip kept
          | inr poll ↦ rw poll (
              mcs_react-IsValid i.now i.link_kbps st2 w
                (same_rate http cfg real c r st st2 v refl refl refl).valid)
        ]
