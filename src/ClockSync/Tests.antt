-- ===== src/ClockSync/Tests.antt =====
-- The estimate after two replies, of an air clock that is 1000 us ahead.
use ar8030_transport.Base.{◌≡◌, refl, [], ◌∷◌, some, arith}
use ar8030_transport.Base.Int.{pos, Within, ◌+ℤ◌, ◌-ℤ◌, half}
use ar8030_transport.ClockSync.{
  Exchange, init, on_reply, get, estimate, is_garbage, rtt_of, jumped, store, sample_of, best_of,
}
use ar8030_transport.ClockSync.Accuracy.{IsGenuine, on_replies, get_accurate}

-- 30 us up, 50 us down.
abbrev slow : Exchange
slow = record { t1 = 500; t2 = 1530; t3 = 1540; t4 = 590 }

-- 20 us up, 21 us down.
abbrev quick : Exchange
quick = record { t1 = 9000; t2 = 10020; t3 = 10025; t4 = 9046 }

slow-IsGenuine : IsGenuine (pos 1000) slow
slow-IsGenuine = record {
  up = 30;
  down = 50;
  reaches = refl;
  returns = refl;
  answers = omega arith;
  ground_small = omega arith;
  air_small = omega arith;
}

quick-IsGenuine : IsGenuine (pos 1000) quick
quick-IsGenuine = record {
  up = 20;
  down = 21;
  reaches = refl;
  returns = refl;
  answers = omega arith;
  ground_small = omega arith;
  air_small = omega arith;
}

estimate_now : get (on_replies init (slow ∷ quick ∷ [])) ≡ some (pos 999, 20)
unfolding get on_replies init on_reply estimate is_garbage rtt_of jumped store sample_of ◌-ℤ◌ half
    ◌+ℤ◌ best_of
estimate_now = refl

get_accurate_example : Within 21 (pos 999) (pos 1000)
get_accurate_example =
    get_accurate (pos 1000) (slow ∷ quick ∷ []) (pos 999) 20 (slow-IsGenuine, (quick-IsGenuine, tt))
      estimate_now (omega arith)

-- All of the round trip on the way back.
abbrev one_sided : Exchange
one_sided = record { t1 = 9000; t2 = 10000; t3 = 10005; t4 = 9046 }

one_sided-IsGenuine : IsGenuine (pos 1000) one_sided
one_sided-IsGenuine = record {
  up = 0;
  down = 41;
  reaches = refl;
  returns = refl;
  answers = omega arith;
  ground_small = omega arith;
  air_small = omega arith;
}

-- 21 us off, with an uncertainty of 20 us.
one_sided_now : get (on_replies init (one_sided ∷ [])) ≡ some (pos 979, 20)
unfolding get on_replies init on_reply estimate is_garbage rtt_of jumped store sample_of ◌-ℤ◌ half
    ◌+ℤ◌ best_of
one_sided_now = refl
