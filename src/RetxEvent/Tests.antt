-- ===== src/RetxEvent/Tests.antt =====
-- A run of the firmware's events: busy rises, a row rises too, then both fall.
use ar8030_transport.Base.{ℕ, ◌≡◌, ◌≢◌, false, refl, arith, List, [], ◌∷◌}
use ar8030_transport.RetxEvent.{RetxState, start, on_retx_events, cleared, looks_wrong, fields_of}
use ar8030_transport.RetxEvent.Edges.{given, on_retx_events-counts, Edges, IsEdge, level}

-- A record with its two flags, in a window of 10 frames.
abbrev event : ℕ → ℕ → List ℕ
event busy conti = 3 ∷ 0 ∷ 0 ∷ 0 ∷ 2 ∷ busy ∷ conti ∷ 0 ∷ 10 ∷ 6 ∷ 4 ∷ 2 ∷ 0 ∷ []

abbrev events : List (List ℕ)
events = event 1 0 ∷ event 1 1 ∷ event 1 0 ∷ event 0 0 ∷ event 0 1 ∷ []

edges : Edges cleared events
edges = (
  edge refl (grind arith),
  (
    edge refl (grind arith),
    (edge refl (grind arith), (edge refl (grind arith), (edge refl (grind arith), tt))),
  ),
)
  where
    edge :
        {prev : RetxState} {arg : List ℕ}
        → looks_wrong (fields_of arg) ≡ false
        → level (fields_of arg) ≢ level prev
        → IsEdge prev arg
    edge f c = record { fits = f; changed = c }

on_retx_events-counts_example : (on_retx_events (given events) start).too_many ≡ 3
unfolding start
on_retx_events-counts_example = on_retx_events-counts events start (omega arith, omega arith) edges
