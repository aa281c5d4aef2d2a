-- ===== src/Lifecycle/Mailbox.antt =====
-- lifecycled/lifecycle.c: the one-slot mailboxes that the HTTP control API fills and the thread
-- empties on its next tick, with the tests of lifecycle_tuning.c that admit a request.
pub mod Admits
use ar8030_transport.Base.{
  ℕ, zero, suc, ◌+◌, ◌-◌, Bool, true, false, Option, none, some, List, [], ◌∷◌, ltb, leb, ◌==◌, not,
  ◌&&◌, ◌||◌, if◌then◌else◌, length,
}
use ar8030_transport.Lifecycle.{
  Role, role_ap, role_dev, is_ap, Config, Retx, Chan, chan_auto, chan_none, chan_index, Level,
  power_auto, power_none, milliwatts,
}
use ar8030_transport.IdrCtrl.{same_text}
use ar8030_transport.Lifecycle.Debounce.{State, init, idle, connected}

-- The mailboxes of `struct lifecycle_ctx`, each `none` when nothing is queued.
pub record Mailbox : Type 0 where
  pub bandwidth : Option ℕ
  pub retx : Option Retx
  pub channel : Option Chan
  pub power : Option Level
  pub armed : Option Bool
  pub forget : Option (Option (List ℕ))

abbrev pub empty : Mailbox
empty = record {
  bandwidth = none;
  retx = none;
  channel = none;
  power = none;
  armed = none;
  forget = none;
}

-- `AP_POWER_LEVELS` and `DEV_POWER_LEVELS`: milliwatts and dBm.
abbrev pub power_levels : Role → List (ℕ × ℕ)
power_levels role_ap = (400, 26) ∷ (200, 22) ∷ (100, 19) ∷ (25, 13) ∷ []
power_levels role_dev = (500, 24) ∷ (200, 20) ∷ (100, 17) ∷ (25, 11) ∷ []

abbrev pub dev_auto_dbm : ℕ
dev_auto_dbm = 24

abbrev pub dev_auto_cap_mw : ℕ
dev_auto_cap_mw = 500

unfoldable pub find_dbm : ℕ → List (ℕ × ℕ) → Option ℕ
find_dbm mw [] = none
find_dbm mw ((m, dbm) ∷ levels) =
    let rest = find_dbm mw levels in if m == mw then some dbm else rest

-- `power_level_dbm`, `none` for -1; LC_POWER_NONE is in neither table.
unfoldable pub power_level_dbm : Role → Level → Option ℕ
unfolding find_dbm
power_level_dbm role_ap power_auto = none
power_level_dbm role_dev power_auto = some dev_auto_dbm
power_level_dbm role power_none = none
power_level_dbm role (milliwatts mw) = find_dbm mw (power_levels role)

-- `power_within`; a cap of 0 is none.
unfoldable pub mw_within : ℕ → ℕ → Bool
mw_within max_mw mw = max_mw == 0 || leb mw max_mw

abbrev pub level_mw : Level → ℕ
level_mw power_auto = dev_auto_cap_mw
level_mw power_none = 0
level_mw (milliwatts mw) = mw

abbrev pub is_some {ℓ} : {A : Type ℓ} → Option A → Bool
is_some none = false
is_some (some a) = true

-- `lc_power_valid`
unfoldable pub power_valid : Role → ℕ → Level → Bool
unfolding power_level_dbm mw_within
power_valid role max_mw level =
    is_some (power_level_dbm role level) && mw_within max_mw (level_mw level)

-- The loop of `lc_power_default` over the levels.
unfoldable pub first_within : ℕ → List (ℕ × ℕ) → Option ℕ
unfolding mw_within
first_within max_mw [] = none
first_within max_mw ((m, dbm) ∷ levels) =
    let rest = first_within max_mw levels in if mw_within max_mw m then some m else rest

abbrev pub default_mw : Role → ℕ
default_mw role_ap = 400
default_mw role_dev = 500

-- `lc_power_default`, `none` for -1
unfoldable pub power_default : Role → ℕ → Option ℕ
unfolding first_within mw_within
power_default role max_mw =
    if mw_within max_mw (default_mw role)
    then some (default_mw role)
    else first_within max_mw (power_levels role)

-- `lc_retx_valid`, for numbers that are not negative
unfoldable pub retx_valid : Retx → Bool
retx_valid r =
    leb r.win 255
    && (leb r.busy 255 && (leb r.idle 255 && (leb r.conti_busy 255 && leb r.conti_idle 255)))

-- What a request function returns: 0, or the negative number of an error.
pub data Reply : Type 0 where
  accepted : Reply
  refused : ℕ → Reply

-- `lifecycle_request_bandwidth`, where `valid` is lc_tuning_valid_mhz's answer
unfoldable pub request_bandwidth : Bool → ℕ → Mailbox → Reply × Mailbox
request_bandwidth valid mhz m =
    if valid then (accepted, record m { bandwidth = some mhz }) else (refused 1, m)

-- `lifecycle_request_retx`
unfoldable pub request_retx : Retx → Mailbox → Reply × Mailbox
unfolding retx_valid
request_retx r m = if retx_valid r then (accepted, record m { retx = some r }) else (refused 1, m)

-- `max_num` is the SDK's BB_CONFIG_MAX_CHAN_NUM.
abbrev pub channel_ok : ℕ → Chan → Bool
channel_ok max_num chan_auto = true
channel_ok max_num chan_none = false
channel_ok max_num (chan_index c) = ltb c max_num

abbrev pub is_up : State → Bool
is_up connected = true
is_up _ = false

-- `lifecycle_request_channel`
unfoldable pub request_channel : ℕ → Role → State → Chan → Mailbox → Reply × Mailbox
request_channel max_num role state c m =
    if not (channel_ok max_num c)
    then (refused 1, m)
    else if not (is_ap role) && not (is_up state)
    then (refused 2, m)
    else (accepted, record m { channel = some c })

-- `lifecycle_request_power`
unfoldable pub request_power : Role → ℕ → Level → Mailbox → Reply × Mailbox
unfolding power_valid
request_power role max_mw level m =
    if power_valid role max_mw level
    then (accepted, record m { power = some level })
    else (refused 1, m)

-- `lifecycle_request_armed`, for the number that was given
unfoldable pub request_armed : ℕ → Mailbox → Reply × Mailbox
request_armed zero m = (accepted, record m { armed = some false })
request_armed (suc zero) m = (accepted, record m { armed = some true })
request_armed (suc (suc n)) m = (refused 1, m)

unfoldable pub any_mac : List ℕ → List (List ℕ) → Bool
unfolding same_text
any_mac mac [] = false
any_mac mac (k ∷ known) = same_text k mac || any_mac mac known

abbrev pub is_peer : List ℕ → Option (List ℕ) → Bool
unfolding same_text
is_peer mac none = false
is_peer mac (some peer) = same_text peer mac

-- `lifecycle_request_forget_peer`: `parsed` is `none` for no address, else what sscanf makes of the
-- text; `peer` is what lc_pair_read_ap_mac finds and `known` what lc_peers_load does.
unfoldable pub request_forget_peer :
    Config → Option (Option (List ℕ)) → Option (List ℕ) → List (List ℕ) → Mailbox → Reply × Mailbox
unfolding any_mac same_text
request_forget_peer cfg parsed peer known m =
    if is_ap cfg.role || not cfg.has_cfg_path then (refused 4, m) else named parsed
  where
    named : Option (Option (List ℕ)) → Reply × Mailbox
    named none = (accepted, record m { forget = some none })
    named (some none) = (refused 1, m)
    named (some (some mac)) =
        if is_peer mac peer
        then (refused 2, m)
        else if any_mac mac known
        then (accepted, record m { forget = some (some mac) })
        else (refused 3, m)
