-- ===== src/Lifecycle/Tuning.antt =====
-- lifecycled/lifecycle.c: the bandwidth, the retransmission controller and the frame structure,
-- applied on every connect and again where a relink or the chip loses them.
use ar8030_transport.Base.{
  ℕ, Bool, true, false, Option, none, some, List, [], ◌∷◌, ◌++◌, ltb, ◌==◌, not, ◌&&◌, ◌||◌,
  if◌then◌else◌,
}
use ar8030_transport.Lifecycle.{
  Role, role_ap, role_dev, is_ap, Config, Retx, Act, save_bandwidth, apply_bandwidth, save_retx,
  apply_retx, apply_frame_change, push_mcs_items,
}

-- The fields of `struct lifecycle_ctx` about the connect tuning; last_bandwidth is `none` for -1.
pub record Tuning : Type 0 where
  pub last_bandwidth : Option ℕ
  pub connect_gen : ℕ
  pub frame_change_pending : Bool

abbrev pub default_retx : Retx
default_retx = record { win = 10; busy = 6; idle = 4; conti_busy = 2; conti_idle = 0 }

abbrev pub retx_or_default : Option Retx → Retx
retx_or_default none = default_retx
retx_or_default (some r) = r

-- A file is only read when there is a configuration path.
abbrev pub if_path {ℓ} : {A : Type ℓ} → Bool → Option A → Option A
if_path true a = a
if_path false a = none

abbrev pub wants_frame_change : Config → Bool
wants_frame_change cfg = is_ap cfg.role && cfg.frame_change

-- The ground's MCS table, for the strategies 1 and 2.
abbrev pub gnd_mcs : Role → Option ℕ → List Act
gnd_mcs role_ap policy = []
gnd_mcs role_dev none = []
gnd_mcs role_dev (some p) = if p == 1 || p == 2 then push_mcs_items p ∷ [] else []

-- `lc_apply_link_tuning`: `retx` is what lc_retx_load finds, `power_acts` what lc_apply_power does
-- and `accepted` whether the chip takes the frame change.
unfoldable pub apply_link_tuning :
    Config → Option Retx → List Act → Bool → Tuning → Tuning × List Act
apply_link_tuning cfg retx power_acts accepted t = (
  (if wants_frame_change cfg then record t { frame_change_pending = not accepted } else t),
  apply_retx (retx_or_default (if_path cfg.has_cfg_path retx)) ∷ power_acts
      ++ (if wants_frame_change cfg then apply_frame_change ∷ [] else [])
      ++ gnd_mcs cfg.role cfg.link_policy,
)

abbrev pub bandwidth_or_default : Config → Option ℕ → ℕ
bandwidth_or_default cfg none = cfg.default_bandwidth
bandwidth_or_default cfg (some b) = b

-- `lc_apply_tuning_on_connect`: `saved` is what lc_tuning_load finds.
unfoldable pub apply_tuning_on_connect :
    Config → Option ℕ → Option ℕ → Option Retx → List Act → Bool → Tuning → Tuning × List Act
unfolding apply_link_tuning
apply_tuning_on_connect cfg slot saved retx power_acts accepted t =
    let mhz = bandwidth_or_default cfg (if_path cfg.has_cfg_path saved) in
    let (t', acts) =
      apply_link_tuning cfg retx power_acts accepted (record t { last_bandwidth = some mhz }) in
    (t', (if ltb 0 mhz then apply_bandwidth slot mhz ∷ [] else []) ++ acts)

abbrev pub save_bandwidth_if : Bool → ℕ → List Act
save_bandwidth_if true mhz = save_bandwidth mhz ∷ []
save_bandwidth_if false mhz = []

-- `lc_drain_bandwidth_request`, for a request that was in the mailbox.
unfoldable pub change_bandwidth : Config → Bool → Option ℕ → ℕ → Tuning → Tuning × List Act
change_bandwidth cfg up slot mhz t =
    if mhz == 0
    then (t, [])
    else if up
    then (
      record t { last_bandwidth = some mhz },
      save_bandwidth_if cfg.has_cfg_path mhz ++ apply_bandwidth slot mhz ∷ [],
    )
    else (t, save_bandwidth_if cfg.has_cfg_path mhz)

-- `lc_drain_retx_request`, for a request that was in the mailbox.
unfoldable pub change_retx : Config → Retx → List Act
change_retx cfg r = if cfg.has_cfg_path then save_retx r ∷ apply_retx r ∷ [] else apply_retx r ∷ []

abbrev pub disagrees : ℕ → ℕ → Bool
disagrees wanted cur = ltb 0 wanted && (ltb 0 cur && not (cur == wanted))

-- After a fallback poll on a steady link: re-applies the bandwidth when the chip reports another
-- one, for what lc_tuning_read_current answers.
unfoldable pub check_bandwidth : Config → Option ℕ → Option ℕ → Tuning → Tuning × List Act
check_bandwidth cfg slot none t = (t, [])
check_bandwidth cfg slot (some cur) t = against t.last_bandwidth
  where
    against : Option ℕ → Tuning × List Act
    against none = (t, [])
    against (some wanted) =
        if disagrees wanted cur
        then (
          (if wants_frame_change cfg then record t { frame_change_pending = true } else t),
          apply_bandwidth slot wanted ∷ [],
        )
        else (t, [])

-- After a fallback poll on a steady link: tries a frame change again that was not accepted.
unfoldable pub retry_frame_change : Bool → Tuning → Tuning × List Act
retry_frame_change accepted t =
    if t.frame_change_pending
    then (record t { frame_change_pending = not accepted }, apply_frame_change ∷ [])
    else (t, [])
