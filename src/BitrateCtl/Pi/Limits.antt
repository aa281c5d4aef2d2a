-- ===== src/BitrateCtl/Pi/Limits.antt =====
-- The rounds of `run_pi` keep k, the rate, the floor and the divisor within their limits.
use mathlib.Core.Path.{subst}
use ar8030_transport.Base.{
  ℕ, ◌+◌, ◌/◌, ◌≤◌, ◌<◌, ◌≡◌, ◌⊎◌, refl, sym, ◌∙◌, inl, inr, Bool, false, arith, Bool-cases,
  if◌then◌else◌, min, u64, ap,
}
use ar8030_transport.BitrateCtl.Cut.{Request}
use ar8030_transport.BitrateCtl.Pi.Double.{Double, IsWithin, IsTruncated}
use ar8030_transport.BitrateCtl.Pi.Vars.{PiConfig, PiState, div_of, full_div}
use ar8030_transport.BitrateCtl.Pi.Control.{
  k_min_of, base_of, control, is_congested, stage, slewed, rate_of,
}
use ar8030_transport.BitrateCtl.Pi.Kept.{Same, to, carry}
use ar8030_transport.BitrateCtl.Pi.Loop.{send, regulate}
use ar8030_transport.BitrateCtl.Pi.Bounds.{
  IsStage, IsStage-pos, IsValid, IsSent, clamp-IsWithin, rate_of_bounds, stage_lem, send-IsSent,
}

-- What `regulate` makes of a state.
pub record IsRegulated {D : Type 0} ⦃o : Double D⦄ (cfg : PiConfig D) (st st' : PiState D)
    : Type 0 where
  pub k_i_within : IsWithin (k_min_of cfg st) cfg.pi_k_max st'.k_i
  pub k_within : IsWithin (k_min_of cfg st) cfg.pi_k_max st'.k
  pub valid : IsValid cfg st'
  pub rate :
      (st'.applied_kbps ≡ st.applied_kbps)
      ⊎ (min (st.floor_kbps / div_of st'.div) cfg.max_kbps ≤ st'.applied_kbps)

module _ {D : Type 0} ⦃o : Double D⦄ (law : IsTruncated D) (cfg : PiConfig D)
    (small : cfg.max_kbps < 4294967296) where
  module _ {W : Type 0} (http : W → Request → ℕ × W) where
    sent-IsValid :
        (t want : ℕ) (st st' : PiState D)
        → IsValid cfg st
        → IsStage want
        → want ≤ full_div cfg
        → IsSent cfg t want st st'
        → IsValid cfg st'
    sent-IsValid t want st st' v s le x =
        let which : IsStage (div_of st'.div) × (div_of st'.div ≤ full_div cfg) = elim x.which_div [
          | inl same ↦ (
            subst (λ y. IsStage (div_of y)) (sym same) v.div_stage,
            omega (arith, ap div_of same, v.div_le),
          )
          | inr new ↦
              (subst (λ y. IsStage (div_of y)) (sym new) s, omega (arith, ap div_of new, le))
        ] in
        record {
          applied_le = elim x.rate [ inl same ↦ omega (arith, v.applied_le) | inr sent ↦ sent.1 ];
          floor_ge = omega (arith, v.floor_ge, x.floor_rises);
          div_stage = which.0;
          div_le = which.1;
          div_max_le = elim x.max_falls [
            | inl lower ↦ omega (arith, v.div_max_le)
            | inr one ↦ ground arith
          ];
        }

    -- The state that `send` works on.
    pub prepared : ℕ → D → D → PiState D → PiState D
    prepared now d dt st =
        let st1 = control cfg now d dt st in
        if is_congested cfg now d st1
        then record st1 { congested_until_ms = u64 (now + 1500) }
        else st1

    prepared-Same : (now : ℕ) (d dt : D) (st : PiState D) → Same st (prepared now d dt st)
    unfolding control prepared
    prepared-Same now d dt st =
        elim (Bool-cases (is_congested cfg now d (control cfg now d dt st))) [
          | inl e ↦ rw e (to st _ refl refl refl refl)
          | inr e ↦ rw e (to st _ refl refl refl refl)
        ]

    prepared_k :
        (now : ℕ) (d dt : D) (st : PiState D)
        → o.lt cfg.pi_k_max (k_min_of cfg st) ≡ false
        → IsWithin (k_min_of cfg st) cfg.pi_k_max (prepared now d dt st).k_i
          × IsWithin (k_min_of cfg st) cfg.pi_k_max (prepared now d dt st).k
    unfolding control prepared
    prepared_k now d dt st h =
        let low = k_min_of cfg st in
        elim (Bool-cases (is_congested cfg now d (control cfg now d dt st))) [
          | inl e ↦
              rw e
                (clamp-IsWithin law low cfg.pi_k_max _ h, clamp-IsWithin law low cfg.pi_k_max _ h)
          | inr e ↦
              rw e
                (clamp-IsWithin law low cfg.pi_k_max _ h, clamp-IsWithin law low cfg.pi_k_max _ h)
        ]

    -- The state that `regulate` leaves, its rate, and that k is the prepared one.
    pub regulate_parts :
        (now : ℕ) (d dt : D) (why : Bool) (st : PiState D) (w : W)
        → IsValid cfg st
        → let st' = (regulate http cfg now d dt why (st, w)).0 in
          IsValid cfg st'
          × ((st'.applied_kbps ≡ st.applied_kbps)
              ⊎ (min (st.floor_kbps / div_of st'.div) cfg.max_kbps ≤ st'.applied_kbps))
          × (st'.k_i ≡ (prepared now d dt st).k_i)
          × (st'.k ≡ (prepared now d dt st).k)
    unfolding regulate prepared
    regulate_parts now d dt why st w v =
        let st2 = prepared now d dt st in
        let p = prepared-Same now d dt st in
        let target = o.times (base_of cfg st2) st2.k in
        let (up, e, s, le) = stage_lem cfg now target st2 (carry cfg st2 v p) in
        let want = (stage cfg now target st2).0 in
        let st3 = (stage cfg now target st2).1 in
        let q : Same st st3 = subst (Same st) (sym e) (record {
          same_applied = p.same_applied;
          same_floor = p.same_floor;
          same_div = p.same_div;
          same_max = p.same_max;
        }) in
        let v3 = carry cfg st3 v q in
        let goal_rate = slewed cfg dt st3 target in
        let t = rate_of cfg st3.floor_kbps want goal_rate in
        let b = rate_of_bounds law cfg st3.floor_kbps want goal_rate (IsStage-pos s) small in
        let x = send-IsSent http cfg now want t why st3 w b.1 v3.applied_le in
        let st' = (send http now want t why (st3, w)).0 in
        (
          sent-IsValid t want st3 st' v3 s le x,
          elim x.rate [
            | inl kept ↦ inl (kept ∙ q.same_applied)
            | inr sent ↦ inr (
                subst (λ f. min (f / div_of st'.div) cfg.max_kbps ≤ st'.applied_kbps) q.same_floor
                  (subst (λ w'. min (st3.floor_kbps / w') cfg.max_kbps ≤ st'.applied_kbps)
                    (sym sent.2) (omega (arith, b.0, sent.0))))
          ],
          x.same_k_i ∙ ap (λ y. y.k_i) e,
          x.same_k ∙ ap (λ y. y.k) e,
        )

    -- The control law and the sending of a round, from a state within its limits, with an upper bound
    -- of k that is not below the lower one, and waybeam's answers any: the integrator and k end
    -- between pi_k_min divided by the longest divisor and pi_k_max; the state is within its limits
    -- again; and a rate that was changed is at least the learned floor divided by the divisor it is
    -- sent with, or else max_kbps, at least.
    pub regulate-IsRegulated :
        (now : ℕ) (d dt : D) (why : Bool) (st : PiState D) (w : W)
        → IsValid cfg st
        → o.lt cfg.pi_k_max (k_min_of cfg st) ≡ false
        → IsRegulated cfg st (regulate http cfg now d dt why (st, w)).0
    regulate-IsRegulated now d dt why st w v h =
        let (valid, rate, i_eq, k_eq) = regulate_parts now d dt why st w v in
        let (ki_ok, k_ok) = prepared_k now d dt st h in
        record {
          k_i_within = subst (IsWithin (k_min_of cfg st) cfg.pi_k_max) (sym i_eq) ki_ok;
          k_within = subst (IsWithin (k_min_of cfg st) cfg.pi_k_max) (sym k_eq) k_ok;
          valid = valid;
          rate = rate;
        }
