-- ===== src/Lifecycle/Mailbox/Admits.antt =====
-- Which power levels are admitted, and that what is asked for by default is.
use ar8030_transport.Base.{
  ℕ, ◌≡◌, refl, inl, inr, true, false, Option, none, some, arith, Bool-cases,
}
use ar8030_transport.Lifecycle.{Role, role_ap, role_dev, Level, power_auto, power_none, milliwatts}
use ar8030_transport.Lifecycle.Mailbox.{
  find_dbm, power_level_dbm, mw_within, power_valid, first_within, power_default,
}

-- What `lc_power_default` promises of its answer.
abbrev pub IsDefault : Role → ℕ → Option ℕ → Type 0
IsDefault role max_mw (some mw) = power_valid role max_mw (milliwatts mw) ≡ true
IsDefault role max_mw none = (level : Level) → power_valid role max_mw level ≡ false

none_valid_ap : (max_mw : ℕ) → mw_within max_mw 25 ≡ false → IsDefault role_ap max_mw none
unfolding power_valid mw_within power_level_dbm find_dbm
none_valid_ap max_mw h power_auto = refl
none_valid_ap max_mw h power_none = refl
none_valid_ap max_mw h (milliwatts mw) = ground arith

none_valid_dev : (max_mw : ℕ) → mw_within max_mw 25 ≡ false → IsDefault role_dev max_mw none
unfolding power_valid mw_within power_level_dbm find_dbm
none_valid_dev max_mw h power_auto = ground arith
none_valid_dev max_mw h power_none = refl
none_valid_dev max_mw h (milliwatts mw) = ground arith

-- The default level is one that the role admits under the cap, and there is none only when the
-- cap admits no level at all.
pub power_default-IsDefault :
    (role : Role) (max_mw : ℕ) → IsDefault role max_mw (power_default role max_mw)
unfolding power_default power_valid first_within mw_within power_level_dbm find_dbm
power_default-IsDefault role_ap max_mw = elim (Bool-cases (mw_within max_mw 400)) [
  | inl e ↦ rw e e
  | inr a ↦ elim (Bool-cases (mw_within max_mw 200)) [
    | inl e ↦ rw (a, e) e
    | inr b ↦ elim (Bool-cases (mw_within max_mw 100)) [
      | inl e ↦ rw (a, b, e) e
      | inr c ↦ elim (Bool-cases (mw_within max_mw 25)) [
        | inl e ↦ rw (a, b, c, e) e
        | inr d ↦ rw (a, b, c, d) (none_valid_ap max_mw d)
      ]
    ]
  ]
]
power_default-IsDefault role_dev max_mw = elim (Bool-cases (mw_within max_mw 500)) [
  | inl e ↦ rw e e
  | inr a ↦ elim (Bool-cases (mw_within max_mw 200)) [
    | inl e ↦ rw (a, e) e
    | inr b ↦ elim (Bool-cases (mw_within max_mw 100)) [
      | inl e ↦ rw (a, b, e) e
      | inr c ↦ elim (Bool-cases (mw_within max_mw 25)) [
        | inl e ↦ rw (a, b, c, e) e
        | inr d ↦ rw (a, b, c, d) (none_valid_dev max_mw d)
      ]
    ]
  ]
]
