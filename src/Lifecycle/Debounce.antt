-- ===== src/Lifecycle/Debounce.antt =====
-- lifecycled/lifecycle.c: the state machine of `lifecycle_thread_main`'s switch. A state is left
-- only after several ticks in a row whose link readings agree.
pub mod Confirmed
use ar8030_transport.Base.{
  ℕ, zero, ◌+◌, Bool, true, false, Option, none, some, List, [], ◌∷◌, ltb, if◌then◌else◌,
}
use ar8030_transport.Lifecycle.{
  LinkState, connect, not_connect, Act, run_hook, idle_hook, connected_hook, dropped_hook,
}

abbrev pub connect_confirm_ticks : ℕ
connect_confirm_ticks = 3

abbrev pub drop_confirm_ticks : ℕ
drop_confirm_ticks = 6

-- `lc_state_e`
pub data State : Type 0 where
  init idle connected : State

-- The fields of `struct lifecycle_ctx` that the switch decides by.
pub record Debounce : Type 0 where
  pub state : State
  pub connected_slot : Option ℕ
  pub drop_miss_count : ℕ
  pub connect_confirm_count : ℕ
  pub idle_hook_fired : Bool

-- As `lifecycle_init` leaves them.
unfoldable pub fresh : Debounce
fresh = record {
  state = init;
  connected_slot = none;
  drop_miss_count = 0;
  connect_confirm_count = 0;
  idle_hook_fired = false;
}

-- The thread sets LC_STATE_IDLE before its loop.
unfoldable pub entered : Debounce
unfolding fresh
entered = record fresh { state = idle }

-- What else the tick has to do: nothing, the work on a new link, on a lost one, on a steady one.
pub data Outcome : Type 0 where
  waiting came_up dropped steady : Outcome

abbrev pub slot_or_0 : Option ℕ → Option ℕ
slot_or_0 none = some 0
slot_or_0 (some s) = some s

-- LC_STATE_IDLE on a CONNECT reading; `resolved` is lc_tuning_resolve_connected_slot's answer.
unfoldable pub idle_connect : Option ℕ → Debounce → Outcome × Debounce × List Act
idle_connect resolved d =
    if ltb (d.connect_confirm_count + 1) connect_confirm_ticks
    then (waiting, record d { connect_confirm_count = d.connect_confirm_count + 1 }, [])
    else (
      came_up,
      record d {
        connect_confirm_count = 0;
        connected_slot = slot_or_0 resolved;
        state = connected;
      },
      run_hook connected_hook (slot_or_0 resolved) ∷ [],
    )

-- LC_STATE_IDLE on any other reading.
unfoldable pub idle_other : Debounce → Outcome × Debounce × List Act
idle_other d =
    if d.idle_hook_fired then (waiting, record d { connect_confirm_count = 0 }, []) else (
      waiting,
      record d { connect_confirm_count = 0; idle_hook_fired = true },
      run_hook idle_hook none ∷ [],
    )

-- LC_STATE_CONNECTED on a reading that is not CONNECT.
unfoldable pub connected_miss : Debounce → Outcome × Debounce × List Act
connected_miss d =
    if ltb (d.drop_miss_count + 1) drop_confirm_ticks
    then (waiting, record d { drop_miss_count = d.drop_miss_count + 1 }, [])
    else (
      dropped,
      record d { state = idle; connected_slot = none; drop_miss_count = 0 },
      run_hook dropped_hook d.connected_slot ∷ [],
    )

-- The switch on `ctx->state`, for what lc_get_link_state answers.
unfoldable pub debounce_in :
    State → Option LinkState → Option ℕ → Debounce → Outcome × Debounce × List Act
unfolding idle_connect idle_other connected_miss
debounce_in idle (some connect) resolved d = idle_connect resolved d
debounce_in idle (some not_connect) resolved d = idle_other d
debounce_in idle none resolved d = idle_other d
debounce_in connected (some not_connect) resolved d = connected_miss d
debounce_in connected (some connect) resolved d = (steady, record d { drop_miss_count = 0 }, [])
debounce_in connected none resolved d = (steady, record d { drop_miss_count = 0 }, [])
debounce_in init reading resolved d = (waiting, record d { state = idle }, [])

unfoldable pub debounce : Option LinkState → Option ℕ → Debounce → Outcome × Debounce × List Act
unfolding debounce_in
debounce reading resolved d = debounce_in d.state reading resolved d
