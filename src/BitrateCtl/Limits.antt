-- ===== src/BitrateCtl/Limits.antt =====
-- The controller's rounds, put together.
use ar8030_transport.Base.{ℕ, List, [], ◌∷◌}
use ar8030_transport.BitrateCtl.{fast_stages, tick}
use ar8030_transport.BitrateCtl.Vars.{Config, State, init}
use ar8030_transport.BitrateCtl.Cut.{Request, Refuses}
use ar8030_transport.BitrateCtl.Stages.{Inputs, ring_stage, ldpc_stage, note_retx}
use ar8030_transport.BitrateCtl.Stages.Bounds.{
  IsConfig, IsValid, Lowers, Lowers-trans, init-IsValid, ring_stage-Lowers, ldpc_stage-Lowers,
  note_retx-Lowers, retx_stage-Lowers,
}
use ar8030_transport.BitrateCtl.Stages.Follow.{mcs_stage-IsValid}

-- Round after round.
unfoldable pub ticks :
    {W : Type 0} (http : W → Request → ℕ × W) → Config → List Inputs → State × W → State × W
ticks http cfg [] x = x
ticks http cfg (i ∷ is) x = ticks http cfg is (tick http cfg i x)

module _ {W : Type 0} (http : W → Request → ℕ × W) (cfg : Config) (real : ℕ) (c : IsConfig cfg real)
    (r : Refuses http real) where
  -- If waybeam refuses only rates below a floor within the configured limits, the backlog, LDPC and
  -- RETX stages of a round never raise the applied rate, and keep it between the limits.
  pub fast_stages-Lowers :
      (i : Inputs) (st : State) (w : W)
      → IsValid cfg real st
      → Lowers cfg real st (fast_stages http cfg i (st, w)).0
  unfolding fast_stages
  fast_stages-Lowers i st w v =
      let a = ring_stage-Lowers http cfg real c r i st w v in
      let x1 = ring_stage http cfg i (st, w) in
      let b = ldpc_stage-Lowers http cfg real c r i x1.0 x1.1 a.valid in
      let x2 = ldpc_stage http cfg i x1 in
      let n = note_retx-Lowers http cfg real c r i x2.0 b.valid in
      let d = retx_stage-Lowers http cfg real c r i (note_retx i x2.0) x2.1 n.valid in
      Lowers-trans cfg real st _ _ a
        (Lowers-trans cfg real _ _ _ b (Lowers-trans cfg real _ _ _ n d))

  tick-IsValid :
      (i : Inputs) (st : State) (w : W)
      → IsValid cfg real st
      → IsValid cfg real (tick http cfg i (st, w)).0
  unfolding tick
  tick-IsValid i st w v =
      mcs_stage-IsValid http cfg real c r i (fast_stages http cfg i (st, w)).0
        (fast_stages http cfg i (st, w)).1 (fast_stages-Lowers i st w v).valid

  ticks-from :
      (is : List Inputs) (st : State) (w : W)
      → IsValid cfg real st
      → IsValid cfg real (ticks http cfg is (st, w)).0
  unfolding ticks
  ticks-from [] st w v = v
  ticks-from (i ∷ is) st w v =
      ticks-from is (tick http cfg i (st, w)).0 (tick http cfg i (st, w)).1 (tick-IsValid i st w v)

  -- If waybeam refuses only rates below a floor within the configured limits, then from the start,
  -- after any rounds with any inputs, the rate that was applied, if any, is between min_kbps and
  -- max_kbps, and the learned floor between min_kbps and waybeam's.
  pub ticks-IsValid :
      (is : List Inputs) (w : W) → IsValid cfg real (ticks http cfg is (init cfg, w)).0
  ticks-IsValid is w = ticks-from is (init cfg) w (init-IsValid cfg real c)
