-- ===== src/Sidecar/Subscribers.antt =====
-- Every subscriber is served for its time, and once.
use ar8030_transport.Base.{
  ℕ, ◌+◌, ◌≤◌, ◌<◌, ◌≡◌, refl, sym, ◌∙◌, ap, Bool, true, false, not, ◌&&◌, ◌||◌, List, [], ◌∷◌,
  ◌==◌, arith, Bool-cases, ==_iff, lt→ltb, ap₂, inl, inr, ◌⊎◌,
}
use ar8030_transport.Sidecar.{
  Addr, Sub, sub_ttl_us, same_addr, is_live, hits, write_first, any_entry, entry, subscribe,
  receivers,
}

-- No live entry of the address.
abbrev pub NotIn : Addr → ℕ → List Sub → Type 0
NotIn a now [] = Unit
NotIn a now (s ∷ ss) = (hits a now s ≡ false) × NotIn a now ss

-- No two live entries of one address.
abbrev pub Apart : ℕ → List Sub → Type 0
Apart now [] = Unit
Apart now (s ∷ ss) = (is_live now s ≡ true → NotIn s.addr now ss) × Apart now ss

and_false : (a : Bool) {b : Bool} → b ≡ false → (a && b) ≡ false
and_false true h = h
and_false false h = refl

or_false : (a : Bool) {b : Bool} → (a || b) ≡ false → (a ≡ false) × (b ≡ false)
or_false true h = ground arith
or_false false h = (refl, h)

and_last : (a : Bool) {b : Bool} → a ≡ true → (a && b) ≡ false → b ≡ false
and_last true e h = h
and_last false e h = ground arith

and_parts : (a : Bool) {b : Bool} → (a && b) ≡ true → (a ≡ true) × (b ≡ true)
and_parts true h = (refl, h)
and_parts false h = ground arith

same_addr_eq : (a b : Addr) → same_addr a b ≡ true → a ≡ b
same_addr_eq a b h =
    let (i, p) = and_parts (a.ip == b.ip) h in
    ap₂ (λ x y. record { ip = x; port = y }) ((==_iff a.ip b.ip).0 i) ((==_iff a.port b.port).0 p)

same_addr_sym : (a b : Addr) → same_addr a b ≡ same_addr b a
same_addr_sym a b = ground arith

-- A live entry that is not the address's own has another address.
other_addr :
    (from : Addr) (now : ℕ) (s : Sub)
    → is_live now s ≡ true
    → hits from now s ≡ false
    → same_addr from s.addr ≡ false
other_addr from now s live h = same_addr_sym from s.addr ∙ and_last (is_live now s) live h

-- A different address is still not found after a write of `from`.
NotIn-write :
    (test : Sub → Bool) (from a : Addr) (now : ℕ) (ss : List Sub)
    → same_addr from a ≡ false
    → NotIn a now ss
    → NotIn a now (write_first test (entry from now) ss)
unfolding write_first
NotIn-write test from a now [] ne h = tt
NotIn-write test from a now (s ∷ ss) ne h = elim (Bool-cases (test s)) [
  | inl e ↦ rw e (missed, h.1)
  | inr e ↦ rw e (h.0, NotIn-write test from a now ss ne h.1)
]
  where
    missed : hits a now (entry from now) ≡ false
    missed = and_false (is_live now (entry from now)) ne

-- Refreshing the address's own entry.
Apart-refresh :
    (from : Addr) (now : ℕ) (ss : List Sub)
    → Apart now ss
    → Apart now (write_first (hits from now) (entry from now) ss)
unfolding write_first
Apart-refresh from now [] h = tt
Apart-refresh from now (s ∷ ss) h = elim (Bool-cases (hits from now s)) [
  | inl e ↦ rw e (λ live. own e, h.1)
  | inr e ↦ rw e (
    λ live.
        NotIn-write (hits from now) from s.addr now ss (other_addr from now s live e) (h.0 live),
    Apart-refresh from now ss h.1,
  )
]
  where
    own : hits from now s ≡ true → NotIn from now ss
    own e =
        let (live, same) = and_parts (is_live now s) e in
        rw (sym (same_addr_eq s.addr from same)) (h.0 live)

any_entry-NotIn :
    (from : Addr) (now : ℕ) (ss : List Sub)
    → any_entry (hits from now) ss ≡ false
    → NotIn from now ss
unfolding any_entry
any_entry-NotIn from now [] h = tt
any_entry-NotIn from now (s ∷ ss) h =
    let (a, b) = or_false (hits from now s) h in (a, any_entry-NotIn from now ss b)

-- Taking over an entry that has expired.
Apart-claim :
    (from : Addr) (now : ℕ) (ss : List Sub)
    → NotIn from now ss
    → Apart now ss
    → Apart now (write_first (λ s. not (is_live now s)) (entry from now) ss)
unfolding write_first
Apart-claim from now [] n h = tt
Apart-claim from now (s ∷ ss) n h = elim (Bool-cases (is_live now s)) [
  | inl e ↦ rw e (
    λ live. NotIn-write _ from s.addr now ss (other_addr from now s e n.0) (h.0 e),
    Apart-claim from now ss n.1 h.1,
  )
  | inr e ↦ rw e (λ live. n.1, h.1)
]

-- A subscription keeps the entries apart.
subscribe-Apart :
    (from : Addr) (now : ℕ) (ss : List Sub) → Apart now ss → Apart now (subscribe from now ss)
unfolding subscribe
subscribe-Apart from now ss h = elim (Bool-cases (any_entry (hits from now) ss)) [
  | inl e ↦ rw e (Apart-refresh from now ss h)
  | inr e ↦ rw e (Apart-claim from now ss (any_entry-NotIn from now ss e) h)
]

live_later : (now later : ℕ) (s : Sub) → now ≤ later → is_live later s ≡ true → is_live now s ≡ true
live_later now later s h e = ground arith

NotIn-later :
    (a : Addr) (now later : ℕ) (ss : List Sub) → now ≤ later → NotIn a now ss → NotIn a later ss
NotIn-later a now later [] h n = tt
NotIn-later a now later (s ∷ ss) h n = (missed, NotIn-later a now later ss h n.1)
  where
    missed : hits a later s ≡ false
    missed = elim (Bool-cases (is_live later s)) [
      | inl e ↦ rw e (and_last (is_live now s) (live_later now later s h e) n.0)
      | inr e ↦ rw e refl
    ]

Apart-later : (now later : ℕ) (ss : List Sub) → now ≤ later → Apart now ss → Apart later ss
Apart-later now later [] h a = tt
Apart-later now later (s ∷ ss) h a = (
  λ live. NotIn-later s.addr now later ss h (a.0 (live_later now later s h live)),
  Apart-later now later ss h a.1,
)

-- Subscriptions as they come in, each with its time, and the table after them.
abbrev pub after : List Sub → List (Addr × ℕ) → List Sub
after subs [] = subs
after subs ((from, now) ∷ more) = after (subscribe from now subs) more

-- The times go on from `start`, up to `later`.
abbrev pub Rising : ℕ → ℕ → List (Addr × ℕ) → Type 0
Rising start later [] = start ≤ later
Rising start later ((from, now) ∷ more) = (start ≤ now) × Rising now later more

abbrev pub NotAmong : Addr → List Addr → Type 0
NotAmong a [] = Unit
NotAmong a (b ∷ bs) = (same_addr b a ≡ false) × NotAmong a bs

abbrev pub NoDup : List Addr → Type 0
NoDup [] = Unit
NoDup (a ∷ rest) = NotAmong a rest × NoDup rest

receivers-NotAmong :
    (a : Addr) (now : ℕ) (ss : List Sub) → NotIn a now ss → NotAmong a (receivers now ss)
unfolding receivers
receivers-NotAmong a now [] h = tt
receivers-NotAmong a now (s ∷ ss) h = elim (Bool-cases (is_live now s)) [
  | inl e ↦ rw e (and_last (is_live now s) e h.0, receivers-NotAmong a now ss h.1)
  | inr e ↦ rw e (receivers-NotAmong a now ss h.1)
]

receivers-NoDup : (now : ℕ) (ss : List Sub) → Apart now ss → NoDup (receivers now ss)
unfolding receivers
receivers-NoDup now [] h = tt
receivers-NoDup now (s ∷ ss) h = elim (Bool-cases (is_live now s)) [
  | inl e ↦ rw e (receivers-NotAmong s.addr now ss (h.0 e), receivers-NoDup now ss h.1)
  | inr e ↦ rw e (receivers-NoDup now ss h.1)
]

-- Starting from a table without two live entries of one address, after any subscriptions at times
-- that do not go back, no address is sent a datagram twice.
pub receivers-after :
    (start later : ℕ) (subs : List Sub) (more : List (Addr × ℕ))
    → Apart start subs
    → Rising start later more
    → NoDup (receivers later (after subs more))
receivers-after start later subs [] h r =
    receivers-NoDup later subs (Apart-later start later subs r h)
receivers-after start later subs ((from, now) ∷ more) h (t, r) =
    receivers-after now later (subscribe from now subs) more
      (subscribe-Apart from now subs (Apart-later start now subs t h)) r

-- The address is one of these.
abbrev pub Among : Addr → List Addr → Type 0
Among a [] = ⊥
Among a (b ∷ bs) = (b ≡ a) ⊎ Among a bs

write_first-Among :
    (test : Sub → Bool) (from : Addr) (now later : ℕ) (ss : List Sub)
    → later < now + sub_ttl_us
    → any_entry test ss ≡ true
    → Among from (receivers later (write_first test (entry from now) ss))
unfolding write_first any_entry receivers
write_first-Among test from now later [] soon e = ground arith
write_first-Among test from now later (s ∷ ss) soon e = elim (Bool-cases (test s)) [
  | inl k ↦ rw (k, lt→ltb later (now + sub_ttl_us) soon) (inl refl)
  | inr k ↦
      let found = write_first-Among test from now later ss soon (rw k at e) in
      elim (Bool-cases (is_live later s)) [
        | inl l ↦ rw (k, l) (inr found)
        | inr l ↦ rw (k, l) found
      ]
]

write_first_none :
    (test : Sub → Bool) (new : Sub) (ss : List Sub)
    → any_entry test ss ≡ false
    → write_first test new ss ≡ ss
unfolding write_first any_entry
write_first_none test new [] e = refl
write_first_none test new (s ∷ ss) e =
    let (here, rest) = or_false (test s) e in
    rw here (ap (λ l. s ∷ l) (write_first_none test new ss rest))

-- Every entry is live.
abbrev pub IsFull : ℕ → List Sub → Type 0
IsFull now ss = any_entry (λ s. not (is_live now s)) ss ≡ false

-- A subscriber is sent what is published during the next five seconds, unless the table is full of
-- other subscribers: then nothing changes.
pub subscribe_served :
    (from : Addr) (now later : ℕ) (ss : List Sub)
    → later < now + sub_ttl_us
    → Among from (receivers later (subscribe from now ss))
      ⊎ (IsFull now ss × NotIn from now ss × (subscribe from now ss ≡ ss))
unfolding subscribe
subscribe_served from now later ss soon = elim (Bool-cases (any_entry (hits from now) ss)) [
  | inl e ↦ rw e (inl (write_first-Among (hits from now) from now later ss soon e))
  | inr e ↦ elim (Bool-cases (any_entry (λ s. not (is_live now s)) ss)) [
    | inl k ↦ rw e (inl (write_first-Among _ from now later ss soon k))
    | inr k ↦ rw e (inr (k, any_entry-NotIn from now ss e, write_first_none _ _ ss k))
  ]
]
