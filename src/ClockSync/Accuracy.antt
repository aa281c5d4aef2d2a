-- ===== src/ClockSync/Accuracy.antt =====
-- How far the estimate is from the true offset: half the round trip, whichever way the delays
-- were split between the two directions.
use ar8030_transport.Base.{
  ℕ, zero, suc, ◌+◌, ◌/◌, ◌≤◌, ◌<◌, ◌≡◌, List, [], ◌∷◌, ◌||◌, some, arith, take, set, ltb, All,
  Bool-cases, inl, inr,
}
use ar8030_transport.Base.Int.{
  ℤ, pos_part, neg_part, ◌+ℤ◌, ◌-ℤ◌, int64, Within, +ℤ_parts, -ℤ_parts, half_parts,
}
use ar8030_transport.ClockSync.{
  ClockSync, Sample, Exchange, window, max_rtt_us, init, is_garbage, rtt_of, offset_of, sample_of,
  jumped, drop_stale, forget, store, on_reply, best_of, estimate, estimate_of, get,
}
use ar8030_transport.ClockSync.Window.{IsValid, init-IsValid, on_reply-IsValid, forget-IsValid}

-- An exchange over a link that takes `up` to the air and `down` back, between clocks of which the
-- air's is `θ` ahead. Times stay below 2^62 microseconds.
pub record IsGenuine (θ : ℤ) (x : Exchange) : Type 0 where
  pub up : ℕ
  pub down : ℕ
  pub reaches : x.t2 + neg_part θ ≡ x.t1 + up + pos_part θ
  pub returns : x.t4 + pos_part θ ≡ x.t3 + down + neg_part θ
  pub answers : x.t2 ≤ x.t3
  pub ground_small : x.t4 < 4611686018427387904
  pub air_small : x.t3 < 4611686018427387904

genuine_rtt : (θ : ℤ) (x : Exchange) (g : IsGenuine θ x) → rtt_of x ≡ g.up + g.down
unfolding rtt_of
genuine_rtt θ x g = omega (arith, g.reaches, g.returns, g.answers, g.ground_small, g.air_small)

-- A sample within half its round trip of the true offset, rounded up.
pub record IsGood (θ : ℤ) (s : Sample) : Type 0 where
  pub near : Within ((s.rtt_us + 1) / 2) s.offset_us θ

int64_small :
    (w : ℕ) → w < 4611686018427387904 → (pos_part (int64 w) ≡ w) × (neg_part (int64 w) ≡ 0)
int64_small w h = ground arith

genuine_offset :
    (θ : ℤ) (x : Exchange) → IsGenuine θ x → Within ((rtt_of x + 1) / 2) (offset_of x) θ
unfolding offset_of
genuine_offset θ x g =
    let there = int64 x.t2 -ℤ int64 x.t1 in
    let back = int64 x.t3 -ℤ int64 x.t4 in
    omega (
      arith,
      g.reaches,
      g.returns,
      g.answers,
      g.ground_small,
      g.air_small,
      genuine_rtt θ x g,
      half_parts (there +ℤ back),
      +ℤ_parts there back,
      -ℤ_parts (int64 x.t2) (int64 x.t1),
      -ℤ_parts (int64 x.t3) (int64 x.t4),
      int64_small x.t1 (omega (arith, g.reaches, g.returns, g.answers, g.ground_small)),
      int64_small x.t2 (omega (arith, g.answers, g.air_small)),
      int64_small x.t3 g.air_small,
      int64_small x.t4 g.ground_small,
    )

sample-IsGood : (θ : ℤ) (x : Exchange) → IsGenuine θ x → IsGood θ (sample_of x)
unfolding sample_of
sample-IsGood θ x g = record { near = genuine_offset θ x g }

-- The samples of the window, with one written over, or behind the last.
All-take-set :
    (P : Sample → Type 0) (n i : ℕ) (xs : List Sample) (s : Sample)
    → All P (take n xs)
    → P s
    → All P (take n (set xs i s))
All-take-set P zero i xs s h p = tt
All-take-set P (suc n) i [] s h p = tt
All-take-set P (suc n) zero (x ∷ xs) s h p = (p, h.1)
All-take-set P (suc n) (suc i) (x ∷ xs) s h p = (h.0, All-take-set P n i xs s h.1 p)

All-take_snoc :
    (P : Sample → Type 0) (n : ℕ) (xs : List Sample) (s : Sample)
    → All P (take n xs)
    → P s
    → All P (take (suc n) (set xs n s))
All-take_snoc P n [] s h p = tt
All-take_snoc P zero (x ∷ xs) s h p = (p, tt)
All-take_snoc P (suc n) (x ∷ xs) s h p = (h.0, All-take_snoc P n xs s h.1 p)

abbrev AllGood : ℤ → ClockSync → Type 0
AllGood θ cs = All (IsGood θ) (take cs.n cs.samples)

store-AllGood :
    (θ : ℤ) (cs : ClockSync) (s : Sample)
    → IsValid cs
    → AllGood θ cs
    → IsGood θ s
    → AllGood θ (store cs s)
unfolding store
store-AllGood θ cs s v h g = elim (Bool-cases (ltb cs.n window)) [
  | inl filling ↦
      let e : cs.next ≡ cs.n = v.filling (ground arith) in
      let f : cs.n + 1 ≡ suc cs.n = omega arith in
      rw (filling, e, f) (All-take_snoc (IsGood θ) cs.n cs.samples s h g)
  | inr full ↦ rw full (All-take-set (IsGood θ) cs.n cs.next cs.samples s h g)
]

on_reply-AllGood :
    (θ : ℤ) (cs : ClockSync) (x : Exchange)
    → IsValid cs
    → AllGood θ cs
    → IsGenuine θ x
    → AllGood θ (on_reply cs x)
unfolding on_reply
on_reply-AllGood θ cs x v h g = elim (Bool-cases (is_garbage x)) [
  | inl bad ↦ rw bad h
  | inr good ↦ elim (Bool-cases (ltb max_rtt_us (rtt_of x) || ltb x.t1 cs.stale_until_us)) [
    | inl old ↦ rw (good, old) (unfold drop_stale in h)
    | inr fresh ↦ elim (Bool-cases (jumped (sample_of x) (take cs.n cs.samples))) [
      | inl jump ↦
          rw (good, fresh, jump)
            (store-AllGood θ (forget cs) (sample_of x) (forget-IsValid cs v) (unfold forget in tt)
              (sample-IsGood θ x g))
      | inr same ↦
          rw (good, fresh, same) (store-AllGood θ cs (sample_of x) v h (sample-IsGood θ x g))
    ]
  ]
]

-- Every reply in turn.
unfoldable pub on_replies : ClockSync → List Exchange → ClockSync
on_replies cs [] = cs
on_replies cs (x ∷ xs) = on_replies (on_reply cs x) xs

on_replies-AllGood :
    (θ : ℤ) (cs : ClockSync) (xs : List Exchange)
    → IsValid cs
    → AllGood θ cs
    → All (IsGenuine θ) xs
    → AllGood θ (on_replies cs xs)
unfolding on_replies
on_replies-AllGood θ cs [] v h g = h
on_replies-AllGood θ cs (x ∷ xs) v h (one, more) =
    on_replies-AllGood θ (on_reply cs x) xs (on_reply-IsValid cs x v)
      (on_reply-AllGood θ cs x v h one) more

best_of-IsGood :
    (θ : ℤ) (b : Sample) (ss : List Sample)
    → IsGood θ b
    → All (IsGood θ) ss
    → IsGood θ (best_of b ss)
unfolding best_of
best_of-IsGood θ b [] g h = g
best_of-IsGood θ b (s ∷ ss) g h = elim (Bool-cases (ltb s.rtt_us b.rtt_us)) [
  | inl e ↦ rw e (best_of-IsGood θ s ss h.0 h.1)
  | inr e ↦ rw e (best_of-IsGood θ b ss g h.1)
]

estimate_near :
    (θ : ℤ) (ss : List Sample) (o : ℤ) (u : ℕ)
    → All (IsGood θ) ss
    → estimate ss ≡ some (o, u)
    → u < 4294967295
    → Within (u + 1) o θ
unfolding estimate
estimate_near θ [] o u h e small = absurd (cc)
estimate_near θ (s ∷ ss) o u h e small = near_of (best_of s ss) (best_of-IsGood θ s ss h.0 h.1) e
  where
    near_of : (b : Sample) → IsGood θ b → some (estimate_of b) ≡ some (o, u) → Within (u + 1) o θ
    near_of b g f = ground (arith, g.near)

-- However many replies came in over a link between clocks a fixed `θ` apart, with whatever delays
-- in either direction, an offset that is reported lies within the uncertainty reported with it of
-- `θ`, up to the microsecond that the integer division rounds away, unless it is the largest
-- uncertainty there is. Times are below 2^62 microseconds.
pub get_accurate :
    (θ : ℤ) (xs : List Exchange) (o : ℤ) (u : ℕ)
    → All (IsGenuine θ) xs
    → get (on_replies init xs) ≡ some (o, u)
    → u < 4294967295
    → Within (u + 1) o θ
unfolding get
get_accurate θ xs o u g e small =
    estimate_near θ _ o u (on_replies-AllGood θ init xs init-IsValid (unfold init in tt) g) e small
