-- ===== src/RetxEvent.antt =====
-- common/ar8030_retx_event.h: the firmware's retransmission record and its rising edges, with the
-- callback of tx/bitrate_ctl.c that counts them.
pub mod Edges
mod Tests
use ar8030_transport.Base.{
  ℕ, suc, ◌+◌, Bool, true, false, Option, none, some, List, [], ◌∷◌, ltb, leb, ◌==◌, not, ◌&&◌,
  ◌||◌, if◌then◌else◌, get_or,
}
use ar8030_transport.Base.Bytes.{le_field}

-- `ar8030_retx_state_t`
pub record RetxState : Type 0 where
  pub bits : ℕ
  pub pos : ℕ
  pub busy_on : ℕ
  pub conti_on : ℕ
  pub win : ℕ
  pub busy : ℕ
  pub idle : ℕ
  pub conti_busy : ℕ
  pub conti_idle : ℕ

abbrev pub fields_of : List ℕ → RetxState
fields_of p = record {
  bits = le_field 0 4 p;
  pos = get_or p 4 0;
  busy_on = get_or p 5 0;
  conti_on = get_or p 6 0;
  win = get_or p 8 0;
  busy = get_or p 9 0;
  idle = get_or p 10 0;
  conti_busy = get_or p 11 0;
  conti_idle = get_or p 12 0;
}

abbrev pub looks_wrong : RetxState → Bool
looks_wrong st = ltb 1 st.busy_on || (ltb 1 st.conti_on || (st.win == 0 || leb st.win st.pos))

-- `ar8030_retx_event_decode`, `none` for -1; the argument is `none` for NULL.
unfoldable pub decode : Option (List ℕ) → Option RetxState
decode none = none
decode (some p) = if looks_wrong (fields_of p) then none else some (fields_of p)

-- A flag as a condition.
abbrev pub on : ℕ → Bool
on flag = not (flag == 0)

-- `ar8030_retx_event_rising`
unfoldable pub rising : RetxState → RetxState → Bool
rising prev cur =
    if cur.busy_on == prev.busy_on && cur.conti_on == prev.conti_on
    then on cur.busy_on || on cur.conti_on
    else (on cur.busy_on && not (on prev.busy_on)) || (on cur.conti_on && not (on prev.conti_on))

-- `g_retx_too_many`, `g_retx_undecoded` and `g_retx_prev`
pub record Counter : Type 0 where
  pub too_many : ℕ
  pub undecoded : Bool
  pub prev : RetxState

abbrev pub is_given : Option (List ℕ) → Bool
is_given none = false
is_given (some p) = true

-- The callback, for what the decoding gave.
unfoldable pub count_event : Bool → Option RetxState → Counter → Counter
unfolding rising
count_event given none g = record g { too_many = suc g.too_many; undecoded = given || g.undecoded }
count_event given (some st) g = record g {
  too_many = if rising g.prev st then suc g.too_many else g.too_many;
  prev = st;
}

-- `on_retx_too_many_event`
unfoldable pub on_retx_event : Option (List ℕ) → Counter → Counter
unfolding count_event decode
on_retx_event arg g = count_event (is_given arg) (decode arg) g

abbrev pub cleared : RetxState
cleared = record {
  bits = 0;
  pos = 0;
  busy_on = 0;
  conti_on = 0;
  win = 0;
  busy = 0;
  idle = 0;
  conti_busy = 0;
  conti_idle = 0;
}

unfoldable pub start : Counter
start = record { too_many = 0; undecoded = false; prev = cleared }

unfoldable pub on_retx_events : List (Option (List ℕ)) → Counter → Counter
unfolding on_retx_event
on_retx_events [] g = g
on_retx_events (arg ∷ args) g = on_retx_events args (on_retx_event arg g)
