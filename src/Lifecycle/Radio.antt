-- ===== src/Lifecycle/Radio.antt =====
-- lifecycled/lifecycle_tuning.c: the calls of the vendor's SDK behind the actions, in a build that
-- can set power bounds. `works` is whether a call returns 0; a result is true for 0.
pub mod Told
use ar8030_transport.Base.{
  ℕ, ◌+◌, Bool, true, false, Option, none, some, List, [], ◌∷◌, ◌++◌, leb, not, ◌&&◌, ◌||◌,
  if◌then◌else◌,
}
use ar8030_transport.Lifecycle.{
  Role, role_ap, role_dev, Chan, chan_auto, chan_none, chan_index, Level, power_auto, power_none,
  milliwatts,
}
use ar8030_transport.Lifecycle.Mailbox.{power_level_dbm}

-- The modes of BB_SET_POWER_AUTO, with stock's mode 3.
pub data PowerMode : Type 0 where
  mode_on mode_off mode_disconnect mode_3 : PowerMode

-- The user that BB_SET_POWER is about.
pub data User : Type 0 where
  user_0 user_br_cs : User

pub data Ioctl : Type 0 where
  set_chan_mode : Bool → Ioctl
  set_chan_rx : ℕ → Ioctl
  set_remote : Option ℕ → Chan → Ioctl
  set_power_auto : PowerMode → ℕ → ℕ → Ioctl
  set_power : User → ℕ → Ioctl
  set_fem_ctrl : Bool → Ioctl
  set_bandwidth : Option ℕ → ℕ → Ioctl

abbrev pub dev_auto_min_dbm : ℕ
dev_auto_min_dbm = 14

abbrev pub dev_auto_max_dbm : ℕ
dev_auto_max_dbm = 27

abbrev pub dev_target_offset_dbm : ℕ
dev_target_offset_dbm = 3

abbrev pub fem_ctrl_min_dbm : ℕ
fem_ctrl_min_dbm = 24

abbrev pub is_auto : Chan → Bool
is_auto chan_auto = true
is_auto c = false

-- (uint8_t)chan
abbrev pub chan_byte : Chan → ℕ
chan_byte chan_auto = 255
chan_byte chan_none = 254
chan_byte (chan_index c) = c

module _ (works : Ioctl → Bool) where
  -- One call.
  abbrev pub call : Ioctl → Bool × List Ioctl
  call io = (works io, io ∷ [])

  -- Goes on whatever the calls before returned, as `ret |= ...` does.
  abbrev pub also : Bool × List Ioctl → Bool × List Ioctl → Bool × List Ioctl
  also (r, ios) (r', ios') = (r && r', ios ++ ios')

  -- Goes on only when the calls before returned 0.
  abbrev pub next_if : Bool × List Ioctl → Bool × List Ioctl → Bool × List Ioctl
  next_if (true, ios) (r, ios') = (r, ios ++ ios')
  next_if (false, ios) next = (false, ios)

  -- `lc_channel_apply_mode`
  abbrev pub channel_apply_mode : Chan → Bool × List Ioctl
  channel_apply_mode c = call (set_chan_mode (is_auto c))

  -- `lc_channel_apply_local`
  unfoldable pub channel_apply_local : Chan → Bool × List Ioctl
  channel_apply_local c =
      if is_auto c
      then channel_apply_mode c
      else next_if (channel_apply_mode c) (call (set_chan_rx (chan_byte c)))

  -- `lc_channel_apply_linked`
  unfoldable pub channel_apply_linked : Option ℕ → Chan → Bool × List Ioctl
  unfolding channel_apply_local
  channel_apply_linked slot c = next_if (channel_apply_local c) (call (set_remote slot c))

  -- `ap_power_apply_dbm`; `auto3` is stock's mode 3.
  unfoldable pub ap_power_apply_dbm : ℕ → ℕ → Bool → Bool × List Ioctl
  ap_power_apply_dbm dbm auto3 fem_ctrl =
      let base =
        also (call (set_power_auto mode_disconnect dbm dbm)) (call (set_power user_br_cs dbm)) in
      if fem_ctrl
      then also (call (set_power_auto mode_3 auto3 auto3))
          (also base (call (set_fem_ctrl (leb fem_ctrl_min_dbm dbm))))
      else base

  abbrev pub dev_bounds : Level → Ioctl
  dev_bounds power_auto = set_power_auto mode_on dev_auto_max_dbm dev_auto_min_dbm
  dev_bounds l = set_power_auto mode_off (dev_auto_min_dbm + 3) dev_auto_min_dbm

  -- The sequence for a level of the role.
  unfoldable pub power_apply_dbm : Role → Level → Bool → ℕ → Bool × List Ioctl
  unfolding ap_power_apply_dbm
  power_apply_dbm role_ap level fem_ctrl dbm = ap_power_apply_dbm dbm 1 fem_ctrl
  power_apply_dbm role_dev level fem_ctrl dbm = also (call (dev_bounds level)) (
      also (call (set_power_auto mode_disconnect dbm dbm))
        (call (set_power user_0 (dbm + dev_target_offset_dbm))))

  -- `lc_power_apply`
  unfoldable pub power_apply : Role → Level → Bool → Bool × List Ioctl
  unfolding power_apply_dbm power_level_dbm
  power_apply role level fem_ctrl = with_dbm (power_level_dbm role level)
    where
      with_dbm : Option ℕ → Bool × List Ioctl
      with_dbm none = (false, [])
      with_dbm (some dbm) = power_apply_dbm role level fem_ctrl dbm

  -- `lc_power_apply_standby`
  unfoldable pub power_apply_standby : ℕ → Bool → Bool × List Ioctl
  unfolding ap_power_apply_dbm
  power_apply_standby dbm fem_ctrl = ap_power_apply_dbm dbm 0 fem_ctrl

  -- `lc_tuning_apply`, where `valid` is whether the bandwidth is one of the chip's
  unfoldable pub tuning_apply : Bool → Option ℕ → ℕ → Bool × List Ioctl
  tuning_apply valid slot mhz = if valid then call (set_bandwidth slot mhz) else (false, [])
