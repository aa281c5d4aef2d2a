-- ===== src/Lifecycle/Debounce/Confirmed.antt =====
-- The link is followed exactly when the readings agree for long enough.
use ar8030_transport.Base.{
  ℕ, suc, ◌≤◌, ◌<◌, ◌≡◌, ◌⊎◌, ◌++◌, length, refl, Bool, true, false, Option, none, some, List, [],
  ◌∷◌, arith, if◌then◌else◌, inl, inr,
}
use ar8030_transport.Lifecycle.{LinkState, connect, not_connect}
use ar8030_transport.Lifecycle.Debounce.{
  Debounce, State, init, idle, connected, Outcome, waiting, came_up, dropped, steady, entered,
  connect_confirm_ticks, drop_confirm_ticks, idle_connect, idle_other, connected_miss, debounce_in,
  debounce,
}

-- What one tick reads: the link state, and the slot that would be found.
abbrev pub Reading : Type 0
Reading = Option LinkState × Option ℕ

-- The state after the readings, of which the first is the latest.
unfoldable pub after : List Reading → Debounce
after [] = entered
after ((r, slot) ∷ rs) = (debounce r slot (after rs)).1

abbrev pub is_up : Option LinkState → Bool
is_up (some connect) = true
is_up _ = false

abbrev pub is_miss : Option LinkState → Bool
is_miss (some not_connect) = true
is_miss _ = false

-- The length of the latest row of readings that pass a test.
abbrev pub row : (Option LinkState → Bool) → List Reading → ℕ
row p [] = 0
row p ((r, _) ∷ rs) = let rest = row p rs in if p r then suc rest else 0

-- The counters stay below their limits and count no more than the row.
record IsConfirming (d : Debounce) (rs : List Reading) : Type 0 where
  ups : d.connect_confirm_count ≤ row is_up rs
  ups_below : d.connect_confirm_count < connect_confirm_ticks
  misses : d.drop_miss_count ≤ row is_miss rs
  misses_below : d.drop_miss_count < drop_confirm_ticks
  no_ups : d.state ≡ connected → d.connect_confirm_count ≡ 0
  no_misses : d.state ≡ idle → d.drop_miss_count ≡ 0
  started : d.state ≡ init → (d.connect_confirm_count ≡ 0) × (d.drop_miss_count ≡ 0)

in-IsConfirming :
    (s : State) (r : Option LinkState) (slot : Option ℕ) (d : Debounce) (rs : List Reading)
    → d.state ≡ s
    → IsConfirming d rs
    → IsConfirming (debounce_in s r slot d).1 ((r, slot) ∷ rs)
unfolding debounce_in idle_connect idle_other connected_miss
in-IsConfirming init r slot d rs e h = ground (arith, h.started e)
in-IsConfirming idle (some connect) slot d rs e h = ground (arith, h.no_misses e)
in-IsConfirming idle (some not_connect) slot d rs e h = ground (arith, h.no_misses e)
in-IsConfirming idle none slot d rs e h = ground (arith, h.no_misses e)
in-IsConfirming connected (some connect) slot d rs e h = ground (arith, h.no_ups e)
in-IsConfirming connected (some not_connect) slot d rs e h = ground (arith, h.no_ups e)
in-IsConfirming connected none slot d rs e h = ground (arith, h.no_ups e)

after-IsConfirming : (rs : List Reading) → IsConfirming (after rs) rs
unfolding after debounce entered
after-IsConfirming [] = ground arith
after-IsConfirming ((r, slot) ∷ rs) =
    in-IsConfirming (after rs).state r slot (after rs) rs refl (after-IsConfirming rs)

-- What an outcome says of the readings so far.
abbrev pub Confirmed : Outcome → List Reading → Type 0
Confirmed came_up rs = connect_confirm_ticks ≤ row is_up rs
Confirmed dropped rs = drop_confirm_ticks ≤ row is_miss rs
Confirmed waiting rs = Unit
Confirmed steady rs = Unit

in-Confirmed :
    (s : State) (r : Option LinkState) (slot : Option ℕ) (d : Debounce) (rs : List Reading)
    → IsConfirming d rs
    → Confirmed (debounce_in s r slot d).0 ((r, slot) ∷ rs)
unfolding debounce_in idle_connect idle_other connected_miss
in-Confirmed init r slot d rs h = tt
in-Confirmed idle (some connect) slot d rs h = ground arith
in-Confirmed idle (some not_connect) slot d rs h = ground arith
in-Confirmed idle none slot d rs h = ground arith
in-Confirmed connected (some connect) slot d rs h = tt
in-Confirmed connected (some not_connect) slot d rs h = ground arith
in-Confirmed connected none slot d rs h = tt

-- Whatever was read before, a tick takes the link up only when it and the two ticks before it
-- read CONNECT, and drops it only when it and the five ticks before it read something else.
pub debounce-Confirmed :
    (rs : List Reading) (r : Option LinkState) (slot : Option ℕ)
    → Confirmed (debounce r slot (after rs)).0 ((r, slot) ∷ rs)
unfolding debounce
debounce-Confirmed rs r slot =
    in-Confirmed (after rs).state r slot (after rs) rs (after-IsConfirming rs)

-- Every reading of the list passes a test.
abbrev pub Every : (Option LinkState → Bool) → List Reading → Type 0
Every p [] = Unit
Every p ((r, _) ∷ rs) = (p r ≡ true) × Every p rs

-- After n CONNECT readings the link is up, or all of them are counted; after n others it is down,
-- or all of them are counted.
abbrev UpAfter : ℕ → Debounce → Type 0
UpAfter n d = (d.state ≡ connected) ⊎ ((d.state ≡ idle) × (n ≤ d.connect_confirm_count))

abbrev DownAfter : ℕ → Debounce → Type 0
DownAfter n d = (d.state ≡ idle) ⊎ ((d.state ≡ connected) × (n ≤ d.drop_miss_count))

up_step :
    (r : Option LinkState) (slot : Option ℕ) (d : Debounce) (n : ℕ)
    → is_up r ≡ true
    → UpAfter n d
    → UpAfter (suc n) (debounce r slot d).1
unfolding debounce debounce_in idle_connect
up_step none slot d n e h = ground arith
up_step (some not_connect) slot d n e h = ground arith
up_step (some connect) slot d n e (inl u) = rw u (ground arith)
up_step (some connect) slot d n e (inr (i, k)) = rw i (ground (arith, k))

down_step :
    (r : Option LinkState) (slot : Option ℕ) (d : Debounce) (n : ℕ)
    → is_miss r ≡ true
    → DownAfter n d
    → DownAfter (suc n) (debounce r slot d).1
unfolding debounce debounce_in idle_other connected_miss
down_step none slot d n e h = ground arith
down_step (some connect) slot d n e h = ground arith
down_step (some not_connect) slot d n e (inl i) = rw i (ground arith)
down_step (some not_connect) slot d n e (inr (u, k)) = rw u (ground (arith, k))

in_started :
    (s : State) (r : Option LinkState) (slot : Option ℕ) (d : Debounce)
    → d.state ≡ s
    → ((debounce_in s r slot d).1.state ≡ idle) ⊎ ((debounce_in s r slot d).1.state ≡ connected)
unfolding debounce_in idle_connect idle_other connected_miss
in_started init r slot d e = inl refl
in_started idle none slot d e = ground arith
in_started idle (some connect) slot d e = ground arith
in_started idle (some not_connect) slot d e = ground arith
in_started connected none slot d e = ground arith
in_started connected (some connect) slot d e = ground arith
in_started connected (some not_connect) slot d e = ground arith

after_started : (rs : List Reading) → ((after rs).state ≡ idle) ⊎ ((after rs).state ≡ connected)
unfolding after debounce entered
after_started [] = inl refl
after_started ((r, slot) ∷ rs) = in_started (after rs).state r slot (after rs) refl

ups_counted :
    (ups : List Reading) (rs : List Reading)
    → Every is_up ups
    → UpAfter (length ups) (after (ups ++ rs))
unfolding after
ups_counted [] rs h = elim (after_started rs) [ inl i ↦ inr (i, omega arith) | inr u ↦ inl u ]
ups_counted ((r, slot) ∷ ups) rs h =
    up_step r slot (after (ups ++ rs)) (length ups) h.0 (ups_counted ups rs h.1)

misses_counted :
    (ms : List Reading) (rs : List Reading)
    → Every is_miss ms
    → DownAfter (length ms) (after (ms ++ rs))
unfolding after
misses_counted [] rs h = elim (after_started rs) [ inl i ↦ inl i | inr u ↦ inr (u, omega arith) ]
misses_counted ((r, slot) ∷ ms) rs h =
    down_step r slot (after (ms ++ rs)) (length ms) h.0 (misses_counted ms rs h.1)

-- Three or more CONNECT readings in a row leave the link up, and six
-- or more others in a row leave it down, whatever was read before.
pub after_settles :
    (ups ms rs : List Reading)
    → Every is_up ups
    → connect_confirm_ticks ≤ length ups
    → Every is_miss ms
    → drop_confirm_ticks ≤ length ms
    → ((after (ups ++ rs)).state ≡ connected) × ((after (ms ++ rs)).state ≡ idle)
after_settles ups ms rs eu ku em km = (up (ups_counted ups rs eu), down (misses_counted ms rs em))
  where
    up : UpAfter (length ups) (after (ups ++ rs)) → (after (ups ++ rs)).state ≡ connected
    up (inl u) = u
    up (inr (_, k)) = absurd (omega (arith, k, ku, (after-IsConfirming (ups ++ rs)).ups_below))

    down : DownAfter (length ms) (after (ms ++ rs)) → (after (ms ++ rs)).state ≡ idle
    down (inl i) = i
    down (inr (_, k)) = absurd (omega (arith, k, km, (after-IsConfirming (ms ++ rs)).misses_below))
