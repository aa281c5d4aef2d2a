-- ===== src/BindButton/Press.antt =====
-- A press does one thing.
use ar8030_transport.Base.{
  ℕ, ◌+◌, ◌≡◌, refl, Bool, true, false, List, [], ◌∷◌, ◌++◌, leb, ◌&&◌, if◌then◌else◌, Bool-cases,
  inl, inr,
}
use ar8030_transport.BindButton.{
  BindAct, run_longpress, run_pairing, wait_lockout, Round, is_pressed, hold, released, round,
  longpress_s,
}

-- The button was held for five seconds at one of these times.
abbrev pub is_long : ℕ → List ℕ → Bool
is_long began [] = false
is_long began (now ∷ held) =
    let rest = is_long began held in if leb (began + longpress_s) now then true else rest

hold_done : (began : ℕ) (held : List ℕ) → hold began true held ≡ (true, [])
unfolding hold
hold_done began [] = refl
hold_done began (now ∷ held) = rw (hold_done began held) refl

abbrev long_acts : Bool → List BindAct
long_acts true = run_longpress ∷ []
long_acts false = []

hold_long :
    (began : ℕ) (held : List ℕ)
    → hold began false held ≡ (is_long began held, long_acts (is_long began held))
unfolding hold
hold_long began [] = refl
hold_long began (now ∷ held) = elim (Bool-cases (leb (began + longpress_s) now)) [
  | inl e ↦ rw (e, hold_done began held) refl
  | inr e ↦ rw (e, hold_long began held) refl
]

-- What a press should do: for a long one the script, for a short one the pairing, and then a pause;
-- a thread that is told to stop while it waits for the release does not pair.
abbrev pub intended : Bool → Bool → List BindAct
intended true true = run_longpress ∷ []
intended true false = run_longpress ∷ wait_lockout ∷ []
intended false true = []
intended false false = run_pairing ∷ wait_lockout ∷ []

-- A press that both readings confirm runs the script once when it was held for five seconds, never
-- pairs then, and pauses unless the thread was told to stop while it waited for the release; a shorter
-- press pairs once and pauses, or does nothing if the thread was told to stop. A round that the two
-- readings do not confirm does nothing.
pub round-intended :
    (r : Round)
    → round r ≡ (
        if is_pressed r.first && is_pressed r.second
        then intended (is_long r.began r.held) r.stopped
        else [])
unfolding round
round-intended r = elim (Bool-cases (is_pressed r.first)) [
  | inl e ↦ elim (Bool-cases (is_pressed r.second)) [
    | inl k ↦ rw (e, k, hold_long r.began r.held) (by (is_long r.began r.held) r.stopped)
    | inr k ↦ rw (e, k) refl
  ]
  | inr e ↦ rw e refl
]
  where
    by :
        (long stopped : Bool)
        → long_acts long ++ (if stopped then [] else released long) ≡ intended long stopped
    by true true = refl
    by true false = refl
    by false true = refl
    by false false = refl
