-- ===== src/BitrateCtl/Pi.antt =====
-- tx/bitrate_ctl.c, run_pi: the PI controller of the bitrate on the link's queueing delay.
pub mod Double
pub mod Vars
pub mod Roi
pub mod Patience
pub mod Stages
pub mod Control
pub mod Loop
pub mod Bounds
pub mod Kept
pub mod Limits
pub mod Rounds
mod Tests
