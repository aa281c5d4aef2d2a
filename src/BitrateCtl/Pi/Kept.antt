-- ===== src/BitrateCtl/Pi/Kept.antt =====
-- The stages of a round of `run_pi` before the control law leave the rate, the floor and the divisor
-- alone, or start them again.
use mathlib.Core.Path.{subst}
use ar8030_transport.Base.{
  ◌-◌, ◌&&◌, not, leb, ℕ, zero, suc, ◌≡◌, refl, sym, ◌∙◌, inl, inr, Bool, arith, Bool-cases, ◌==◌,
  ap,
}
use ar8030_transport.BitrateCtl.Vars.{since, accepted}
use ar8030_transport.BitrateCtl.Cut.{Request}
use ar8030_transport.BitrateCtl.Pi.Double.{Double}
use ar8030_transport.BitrateCtl.Pi.Vars.{PiConfig, PiState, Readings, div_of}
use ar8030_transport.BitrateCtl.Pi.Stages.{
  no_divisor, fps_request, stamp_retx, trim, disturb, ring_cut, restart, reset_div, poll_capacity,
  ldpc_due, ratio_or, is_none,
}
use ar8030_transport.BitrateCtl.Pi.Bounds.{IsStage, full_rate, IsValid}

-- The variables that `IsValid` reads are the same.
pub record Same {D : Type 0} (st st' : PiState D) : Type 0 where
  pub same_applied : st'.applied_kbps ≡ st.applied_kbps
  pub same_floor : st'.floor_kbps ≡ st.floor_kbps
  pub same_div : st'.div ≡ st.div
  pub same_max : st'.div_max ≡ st.div_max

pub to :
    {D : Type 0} (st st' : PiState D)
    → st'.applied_kbps ≡ st.applied_kbps
    → st'.floor_kbps ≡ st.floor_kbps
    → st'.div ≡ st.div
    → st'.div_max ≡ st.div_max
    → Same st st'
to st st' a f d m = record { same_applied = a; same_floor = f; same_div = d; same_max = m }

pub Same-self : {D : Type 0} (st : PiState D) → Same st st
Same-self st = to st st refl refl refl refl

pub Same-trans : {D : Type 0} {a b c : PiState D} → Same a b → Same b c → Same a c
Same-trans p q = record {
  same_applied = q.same_applied ∙ p.same_applied;
  same_floor = q.same_floor ∙ p.same_floor;
  same_div = q.same_div ∙ p.same_div;
  same_max = q.same_max ∙ p.same_max;
}

module _ {D : Type 0} ⦃o : Double D⦄ (cfg : PiConfig D) where
  pub carry : {st : PiState D} (st' : PiState D) → IsValid cfg st → Same st st' → IsValid cfg st'
  carry st' v s = record {
    applied_le = omega (arith, v.applied_le, s.same_applied);
    floor_ge = omega (arith, v.floor_ge, s.same_floor);
    div_stage = subst (λ x. IsStage (div_of x)) (sym s.same_div) v.div_stage;
    div_le = omega (arith, ap div_of s.same_div, v.div_le);
    div_max_le = omega (arith, v.div_max_le, s.same_max);
  }

  stamp-Same : (n now : ℕ) (st : PiState D) → Same st (stamp_retx n now st)
  unfolding stamp_retx
  stamp-Same zero now st = Same-self st
  stamp-Same (suc n) now st = record {
    same_applied = (stamp-Same n now _).same_applied;
    same_floor = (stamp-Same n now _).same_floor;
    same_div = (stamp-Same n now _).same_div;
    same_max = (stamp-Same n now _).same_max;
  }

  trim-Same :
      (i : Readings D) (ldpc : D) (new : Bool) (st : PiState D) → Same st (trim cfg i ldpc new st).0
  unfolding trim
  trim-Same i ldpc new st = ground arith

  pub disturb-Same : (i : Readings D) (st : PiState D) → Same st (disturb cfg i st).0
  unfolding disturb
  disturb-Same i st =
      let p = stamp-Same (i.retx_too_many - st.retx_counted) i.now st in
      let st1 = stamp_retx (i.retx_too_many - st.retx_counted) i.now st in
      let new = not (st1.retx_seen == st1.retx_counted) in
      let st2 = record st1 { retx_seen = st1.retx_counted } in
      let st2' = record st2 { last_ldpc_ms = i.now } in
      elim (Bool-cases (ldpc_due cfg i st2)) [
        | inl e ↦ rw e (
            Same-trans (to st st2' p.same_applied p.same_floor p.same_div p.same_max)
              (trim-Same i (ratio_or i.ldpc) new st2'))
        | inr e ↦ rw e (
            Same-trans (to st st2 p.same_applied p.same_floor p.same_div p.same_max)
              (trim-Same i (o.of_nat 0) new st2))
      ]

  pub ring_cut-Same : (i : Readings D) (x : PiState D × Bool) → Same x.0 (ring_cut cfg i x).0
  unfolding ring_cut
  ring_cut-Same i (st, why) = ground arith

  pub restart-IsValid :
      (i : Readings D) (st : PiState D) → IsValid cfg st → IsValid cfg (restart cfg i st)
  unfolding restart
  restart-IsValid i st v = elim (Bool-cases (i.ring_generation == st.ring_gen)) [
    | inl same ↦ rw same v
    | inr new ↦ rw new (record {
      applied_le = omega arith;
      floor_ge = v.floor_ge;
      div_stage = full_rate refl;
      div_le = ground arith;
      div_max_le = omega arith;
    })
  ]

  pub poll-Same : (i : Readings D) (st : PiState D) → Same st (poll_capacity cfg i st)
  unfolding poll_capacity
  poll-Same i st = ground arith

  module _ {W : Type 0} (http : W → Request → ℕ × W) where
    pub reset_div-IsValid :
        (now : ℕ) (st : PiState D) (w : W)
        → IsValid cfg st
        → IsValid cfg (reset_div http now (st, w)).0
    unfolding reset_div
    reset_div-IsValid now st w v =
        let off = not (is_none st.div && leb 1000 (since now st.div_try_ms)) in
        let status : ℕ = (http w (fps_request 1 st.floor_kbps)).0 in
        elim (Bool-cases off) [
          | inl e ↦ rw e v
          | inr e ↦ elim (Bool-cases (no_divisor status)) [
            | inl gone ↦
                rw (e, gone)
                  (record {
                    applied_le = v.applied_le;
                    floor_ge = v.floor_ge;
                    div_stage = full_rate refl;
                    div_le = ground arith;
                    div_max_le = ground arith;
                  })
            | inr there ↦ elim (Bool-cases (accepted status)) [
              | inl ok ↦
                  rw (e, there, ok)
                    (record {
                      applied_le = v.applied_le;
                      floor_ge = v.floor_ge;
                      div_stage = full_rate refl;
                      div_le = ground arith;
                      div_max_le = v.div_max_le;
                    })
              | inr bad ↦ rw (e, there, bad) (carry _ v (to st _ refl refl refl refl))
            ]
          ]
        ]
