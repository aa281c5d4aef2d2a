-- ===== src/ClockSync.antt =====
-- rx/clock_sync.c: the air unit's clock against the ground's, from SYNC and SYNCR messages. Times
-- are uint64_t microseconds. Both ends' arithmetic on int64_t is taken not to overflow, as C
-- requires; the mutex is not modelled, since every function holds it throughout.
pub mod Window
pub mod Accuracy
mod Tests
use ar8030_transport.Base.{
  ℕ, suc, ◌+◌, ◌-◌, ◌*◌, ◌/◌, ◌%◌, List, [], ◌∷◌, Bool, true, false, not, ◌&&◌, ◌||◌, Option, none,
  some, ltb, leb, ◌==◌, if◌then◌else◌, length, take, set, replicate, u32, u64, sub64,
}
use ar8030_transport.Base.Int.{ℤ, pos, ◌+ℤ◌, ◌-ℤ◌, half, int64, nat_abs}

abbrev pub window : ℕ
window = 16

abbrev pub period_ms : ℕ
period_ms = 500

abbrev pub fast_period_ms : ℕ
fast_period_ms = 100

abbrev pub max_rtt_us : ℕ
max_rtt_us = 250000

pub record Sample : Type 0 where
  pub offset_us : ℤ
  pub rtt_us : ℕ

-- `clock_sync_t`
pub record ClockSync : Type 0 where
  pub samples : List Sample
  pub n : ℕ  -- unsigned
  pub next : ℕ  -- unsigned
  pub seq : ℕ  -- uint32_t
  pub last_sent_us : ℕ
  pub replies : ℕ
  pub stale : ℕ
  pub stale_until_us : ℕ

unfoldable pub init : ClockSync
init = record {
  samples = replicate window (record { offset_us = pos 0; rtt_us = 0 });
  n = 0;
  next = 0;
  seq = 0;
  last_sent_us = 0;
  replies = 0;
  stale = 0;
  stale_until_us = 0;
}

-- `clock_sync_due`: the seq and t1 of the next SYNC, when one is due.
unfoldable pub due : ClockSync → ℕ → Option (ℕ × ℕ) × ClockSync
due cs now_us =
    let period_us = 1000 * (if ltb cs.n window then fast_period_ms else period_ms) in
    if cs.last_sent_us == 0 || leb period_us (sub64 now_us cs.last_sent_us)
    then (some (cs.seq, now_us), record cs { last_sent_us = now_us; seq = u32 (cs.seq + 1) })
    else (none, cs)

-- The two times of the ground and the two of the air, in the order of the exchange.
pub record Exchange : Type 0 where
  pub t1 : ℕ
  pub t2 : ℕ
  pub t3 : ℕ
  pub t4 : ℕ

-- A reply from before a restart, or with a turnaround longer than the round trip.
unfoldable pub is_garbage : Exchange → Bool
is_garbage x = ltb x.t4 x.t1 || (ltb x.t3 x.t2 || ltb (sub64 x.t4 x.t1) (sub64 x.t3 x.t2))

unfoldable pub rtt_of : Exchange → ℕ
rtt_of x = sub64 (sub64 x.t4 x.t1) (sub64 x.t3 x.t2)

unfoldable pub offset_of : Exchange → ℤ
offset_of x = half ((int64 x.t2 -ℤ int64 x.t1) +ℤ (int64 x.t3 -ℤ int64 x.t4))

unfoldable pub sample_of : Exchange → Sample
unfolding rtt_of offset_of
sample_of x = record { offset_us = offset_of x; rtt_us = rtt_of x }

-- Some sample of the window is further off than the two round trips explain.
unfoldable pub jumped : Sample → List Sample → Bool
jumped s [] = false
jumped s (old ∷ rest) =
    ltb (u64 (s.rtt_us + old.rtt_us + 5000)) (nat_abs (s.offset_us -ℤ old.offset_us))
    || jumped s rest

unfoldable pub drop_stale : ClockSync → Exchange → ℕ → ClockSync
drop_stale cs x rtt = record cs {
  stale_until_us =
      if ltb max_rtt_us rtt && ltb cs.stale_until_us x.t4 then x.t4 else cs.stale_until_us;
  stale = u64 (cs.stale + 1);
}

-- The air clock jumped: the old samples go.
unfoldable pub forget : ClockSync → ClockSync
forget cs = record cs { n = 0; next = 0 }

unfoldable pub store : ClockSync → Sample → ClockSync
store cs s = record cs {
  samples = set cs.samples cs.next s;
  next = (cs.next + 1) % window;
  n = if ltb cs.n window then cs.n + 1 else cs.n;
  replies = u64 (cs.replies + 1);
}

-- `clock_sync_on_reply`
unfoldable pub on_reply : ClockSync → Exchange → ClockSync
on_reply cs x =
    if is_garbage x
    then cs
    else if ltb max_rtt_us (rtt_of x) || ltb x.t1 cs.stale_until_us
    then drop_stale cs x (rtt_of x)
    else if jumped (sample_of x) (take cs.n cs.samples)
    then store (forget cs) (sample_of x)
    else store cs (sample_of x)

-- The first sample of the smallest round trip.
unfoldable pub best_of : Sample → List Sample → Sample
best_of best [] = best
best_of best (s ∷ rest) = best_of (if ltb s.rtt_us best.rtt_us then s else best) rest

abbrev pub estimate_of : Sample → ℤ × ℕ
estimate_of s = let h = s.rtt_us / 2 in (s.offset_us, if ltb 4294967295 h then 4294967295 else h)

unfoldable pub estimate : List Sample → Option (ℤ × ℕ)
estimate [] = none
estimate (s ∷ rest) = some (estimate_of (best_of s rest))

-- `clock_sync_get`: the offset and its uncertainty, once there is a sample.
unfoldable pub get : ClockSync → Option (ℤ × ℕ)
get cs = estimate (take cs.n cs.samples)
