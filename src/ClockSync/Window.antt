-- ===== src/ClockSync/Window.antt =====
-- The ring of samples stays well formed.
use ar8030_transport.Base.{ℕ, ◌≤◌, ◌<◌, ◌≡◌, arith, length, length-set}
use ar8030_transport.ClockSync.{
  ClockSync, Sample, Exchange, window, init, drop_stale, forget, store, on_reply, rtt_of, sample_of,
}

pub record IsValid (cs : ClockSync) : Type 0 where
  pub storage : length cs.samples ≡ window
  pub count : cs.n ≤ window
  pub index : cs.next < window
  pub filling : cs.n < window → cs.next ≡ cs.n

pub init-IsValid : IsValid init
unfolding init
init-IsValid = ground arith

pub store-IsValid : (cs : ClockSync) (s : Sample) → IsValid cs → IsValid (store cs s)
unfolding store
store-IsValid cs s v = ground (arith, length-set cs.samples cs.next s)

pub forget-IsValid : (cs : ClockSync) → IsValid cs → IsValid (forget cs)
unfolding forget
forget-IsValid cs v = ground arith

drop_stale-IsValid :
    (cs : ClockSync) (x : Exchange) (rtt : ℕ) → IsValid cs → IsValid (drop_stale cs x rtt)
unfolding drop_stale
drop_stale-IsValid cs x rtt v = ground arith

-- Every reply, genuine or not, leaves the ring well formed: its write index inside, at most a
-- window of samples counted, and no gap in front of the index while it fills.
pub on_reply-IsValid : (cs : ClockSync) (x : Exchange) → IsValid cs → IsValid (on_reply cs x)
unfolding on_reply
on_reply-IsValid cs x v = ground (
  arith,
  drop_stale-IsValid cs x (rtt_of x) v,
  store-IsValid cs (sample_of x) v,
  store-IsValid (forget cs) (sample_of x),
  forget-IsValid cs v,
)
