-- ===== src/BindButton.antt =====
-- lifecycled/lifecycle_bind.c: the bind button. A short press pairs on release, a long one runs a
-- script instead. The button reads 0 when pressed; a failed read counts as 1.
pub mod Press
mod Tests
use ar8030_transport.Base.{
  ℕ, ◌+◌, Bool, true, false, Option, none, some, List, [], ◌∷◌, ◌++◌, leb, ◌==◌, not, ◌&&◌,
  if◌then◌else◌,
}

abbrev pub longpress_s : ℕ
longpress_s = 5

-- What the thread does, apart from sleeping between two readings.
pub data BindAct : Type 0 where
  run_longpress : BindAct  -- lc_hooks_dispatch, "longpress"
  run_pairing : BindAct  -- lc_pair_run
  wait_lockout : BindAct  -- sleep(LC_BIND_LOCKOUT_S)

-- `read_button`, for what the GPIO reads, if it can be read.
unfoldable pub read_button : Option ℕ → ℕ
read_button none = 1
read_button (some val) = val

-- One round of the loop: the two readings of the debouncing, the second at which the press began,
-- the second after each sleep while the button was held, and whether the thread is then told to
-- stop.
pub record Round : Type 0 where
  pub first : Option ℕ
  pub second : Option ℕ
  pub began : ℕ
  pub held : List ℕ
  pub stopped : Bool

-- The loop that waits for the release: `longpress` after it, and what it did.
unfoldable pub hold : ℕ → Bool → List ℕ → Bool × List BindAct
hold began longpress [] = (longpress, [])
hold began longpress (now ∷ held) =
    let long = not longpress && leb (began + longpress_s) now in
    let (longpress', acts) = hold began (if long then true else longpress) held in
    (longpress', if long then run_longpress ∷ acts else acts)

-- After the release.
abbrev pub released : Bool → List BindAct
released true = wait_lockout ∷ []
released false = run_pairing ∷ wait_lockout ∷ []

unfoldable pub is_pressed : Option ℕ → Bool
unfolding read_button
is_pressed r = read_button r == 0

-- A round of `lifecycle_bind_thread_main`
unfoldable pub round : Round → List BindAct
unfolding hold is_pressed
round r =
    if not (is_pressed r.first)
    then []
    else if not (is_pressed r.second)
    then []
    else (hold r.began false r.held).1
      ++ (if r.stopped then [] else released (hold r.began false r.held).0)
