-- ===== src/BitrateCtl/Pi/Roi.antt =====
-- tx/bitrate_ctl.c, pi_focus: waybeam's fpv.roiEnabled, on below roi_max_kbps at once, off only after
-- roi_recovery_ms at or above it.
use ar8030_transport.Base.{
  ℕ, Bool, true, false, not, ◌&&◌, ◌||◌, Option, none, some, ltb, ◌==◌, if◌then◌else◌,
}
use ar8030_transport.BitrateCtl.Vars.{since, accepted}
use ar8030_transport.BitrateCtl.Cut.{Request, roi_on, roi_off}
use ar8030_transport.BitrateCtl.Pi.Vars.{Focus}

abbrev pub is_on : Option Bool → Bool
is_on (some true) = true
is_on _ = false

-- *focus == want
abbrev pub is_set : Option Bool → Bool → Bool
is_set none want = false
is_set (some true) want = want
is_set (some false) want = not want

-- The timer and the wanted state, at a rate that is not 0.
unfoldable pub wanted : ℕ → ℕ → ℕ → ℕ → Focus → Bool × Focus
wanted roi_max recovery applied now f =
    let since_ms = (if f.above_since_ms == 0 then now else f.above_since_ms) in
    if ltb applied roi_max then (true, record f { above_since_ms = 0 }) else (
      is_on f.focus && ltb (since now since_ms) recovery,
      record f { above_since_ms = since_ms },
    )

module _ {W : Type 0} (http : W → Request → ℕ × W) where
  -- The request, unless nothing changes or the last one was less than a second ago.
  unfoldable pub set_focus : ℕ → Bool → Focus → W → Focus × W
  set_focus now want f w =
      let (status, w') = http w (if want then roi_on else roi_off) in
      let f' = record f { try_ms = now } in
      if is_set f.focus want || ltb (since now f.try_ms) 1000
      then (f, w)
      else if accepted status
      then (record f' { focus = some want }, w')
      else (f', w')

  unfoldable pub pi_focus : ℕ → ℕ → ℕ → ℕ → Focus × W → Focus × W
  unfolding wanted set_focus
  pi_focus roi_max recovery applied now (f, w) =
      let (want, f') = wanted roi_max recovery applied now f in
      if roi_max == 0 || applied == 0 then (f, w) else set_focus now want f' w
