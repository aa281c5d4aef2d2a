-- ===== src/BitrateCtl.antt =====
-- tx/bitrate_ctl.c: the rule-based bitrate controller. Times are CLOCK_MONOTONIC milliseconds. The
-- products and comparisons in double precision are parameters, fields of the configuration that
-- say what they truncate to; waybeam's HTTP answers are another, with 0 for a failed request.
pub mod Vars
pub mod Cut
pub mod Stages
pub mod Limits
pub mod Pi
mod Tests
use ar8030_transport.Base.{
  ℕ, zero, suc, ◌+◌, ◌-◌, ◌*◌, ◌/◌, Bool, true, false, not, ◌&&◌, ◌||◌, Option, none, some, ltb,
  leb, ◌==◌, if◌then◌else◌, u16, u32,
}
use ar8030_transport.BitrateCtl.Vars.{Config, State}
use ar8030_transport.BitrateCtl.Cut.{Request}
use ar8030_transport.BitrateCtl.Stages.{
  Inputs, ring_stage, ldpc_stage, note_retx, retx_stage, mcs_stage,
}

-- One round of the loop of `run_rules`.
module _ {W : Type 0} (http : W → Request → ℕ × W) where
  -- The stages that can only lower the rate.
  unfoldable pub fast_stages : Config → Inputs → State × W → State × W
  fast_stages cfg i x =
      let (st, w) = ldpc_stage http cfg i (ring_stage http cfg i x) in
      retx_stage http cfg i (note_retx i st, w)

  unfoldable pub tick : Config → Inputs → State × W → State × W
  tick cfg i x = mcs_stage http cfg i (fast_stages cfg i x)
