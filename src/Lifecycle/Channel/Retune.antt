-- ===== src/Lifecycle/Channel/Retune.antt =====
-- The channel a link is moved through, and how often it is moved.
use ar8030_transport.Base.{
  ℕ, zero, suc, ◌+◌, ◌-◌, ◌≤◌, ◌<◌, ◌≡◌, ◌≢◌, ◌⊎◌, inl, inr, refl, true, false, Option, none, some,
  List, [], ◌∷◌, length, get_or, ltb, ◌==◌, arith, Bool-cases, ◌∙◌, sym, ap, drop-drop, ltb→lt,
  drop,
}
use ar8030_transport.Lifecycle.{Config, Chan, Role, role_ap, role_dev}
use ar8030_transport.Lifecycle.Channel.{
  ChanInfo, Channel, distance, nearer, neighbour_from, index_of, neighbour, refuses, kept,
  is_settled, check_link, track, on_connect, chan_pushes, push_target, push_link, change,
  chan_check_delay_s, matches,
}

-- `best` and `best_d` are an entry other than `chan`, no farther than any entry before `i`; without
-- them there is no such entry.
abbrev Nearest : ℕ → ℕ → List ℕ → ℕ → Option (ℕ × ℕ) → Type 0
Nearest chan w all i none = (j : ℕ) → j < i → j ≡ chan
Nearest chan w all i (some (b, d)) =
    (b < i)
    × (b ≢ chan)
    × (d ≡ distance (get_or all b 0) w)
    × ((j : ℕ) → j < i → j ≢ chan → d ≤ distance (get_or all j 0) w)

below_suc : {i j : ℕ} → j < i + 1 → (j < i) ⊎ (j ≡ i)
below_suc h = grind arith

nearer-Nearest :
    (chan w : ℕ) (all : List ℕ) (i : ℕ) (best : Option (ℕ × ℕ))
    → Nearest chan w all i best
    → Nearest chan w all (i + 1) (nearer chan w i (get_or all i 0) best)
unfolding nearer
nearer-Nearest chan w all i none h = elim (Bool-cases (i == chan)) [
  | inl e ↦ rw e (λ j k. elim (below_suc k) [ inl l ↦ h j l | inr q ↦ rw q (ground arith) ])
  | inr e ↦ rw e (
    omega arith,
    ground arith,
    refl,
    λ j k ne. elim (below_suc k) [ inl l ↦ absurd (ne (h j l)) | inr q ↦ rw q (omega arith) ],
  )
]
nearer-Nearest chan w all i (some (b, d)) (lt, ne_b, is_d, least) = elim (Bool-cases (i == chan)) [
  | inl e ↦ rw e (
    omega arith,
    ne_b,
    is_d,
    λ j k ne. elim (below_suc k) [ inl l ↦ least j l ne | inr q ↦ absurd (ne (ground arith)) ],
  )
  | inr e ↦ elim (Bool-cases (ltb (distance (get_or all i 0) w) d)) [
    | inl near ↦
        rw (e, near)
          (
            omega arith,
            ground arith,
            refl,
            λ j k ne. elim (below_suc k) [
              | inl l ↦ omega (arith, least j l ne, ltb→lt _ _ near)
              | inr q ↦ rw q (omega arith)
            ],
          )
    | inr far ↦
        rw (e, far)
          (
            omega arith,
            ne_b,
            is_d,
            λ j k ne. elim (below_suc k) [ inl l ↦ least j l ne | inr q ↦ rw q (ground arith) ],
          )
  ]
]

head-drop : (i : ℕ) (all : List ℕ) → get_or (drop i all) 0 0 ≡ get_or all i 0
head-drop zero all = refl
head-drop (suc i) [] = refl
head-drop (suc i) (x ∷ all) = head-drop i all

neighbour_from-Nearest :
    (chan w : ℕ) (all : List ℕ) (i : ℕ) (best : Option (ℕ × ℕ)) (fs : List ℕ)
    → drop i all ≡ fs
    → Nearest chan w all i best
    → Nearest chan w all (i + length fs) (neighbour_from chan w best i fs)
unfolding neighbour_from
neighbour_from-Nearest chan w all i best [] e h = let k : i + 0 ≡ i = omega arith in rw k h
neighbour_from-Nearest chan w all i best (f ∷ fs) e h =
    let k : i + suc (length fs) ≡ i + 1 + length fs = omega arith in
    rw k (
      neighbour_from-Nearest chan w all (i + 1) (nearer chan w i f best) fs
        (sym (drop-drop 1 i all) ∙ ap (drop 1) e)
        (rw (sym hd) (nearer-Nearest chan w all i best h)))
  where
    hd : get_or all i 0 ≡ f
    hd = sym (head-drop i all) ∙ ap (λ l. get_or l 0 0) e

-- What `lc_channel_neighbour` promises of its answer.
abbrev pub IsNeighbour : List ℕ → ℕ → Option ℕ → Type 0
IsNeighbour table chan none = (j : ℕ) → j < length table → j ≡ chan
IsNeighbour table chan (some n) =
    (n < length table)
    × (n ≢ chan)
    × ((j : ℕ)
        → j < length table
        → j ≢ chan
        → distance (get_or table n 0) (get_or table chan 0)
          ≤ distance (get_or table j 0) (get_or table chan 0))

-- The channel a link is moved through is another entry of the table, and no other entry is nearer
-- to the channel in frequency; there is none only when the table has no other entry.
pub neighbour-IsNeighbour :
    (table : List ℕ) (chan : ℕ) → IsNeighbour table chan (neighbour table chan)
unfolding neighbour
neighbour-IsNeighbour table chan =
    let whole =
      neighbour_from-Nearest chan (get_or table chan 0) table 0 none table refl
        (λ j k. absurd (omega (arith, k))) in
    let k : 0 + length table ≡ length table = omega arith in
    go (neighbour_from chan (get_or table chan 0) none 0 table) (rw k at whole)
  where
    go :
        (r : Option (ℕ × ℕ))
        → Nearest chan (get_or table chan 0) table (length table) r
        → IsNeighbour table chan (index_of r)
    go none h = h
    go (some (b, d)) (k, ne, is_d, least) = (k, ne, λ j m q. rw (sym is_d) (least j m q))

-- What happens to the channel while a link is up.
pub data Call : Type 0 where
  checks : Option ℕ → Option ChanInfo → ℕ × ℕ → ℕ → Call  -- lc_channel_check_link
  tracks : Option ChanInfo → Call  -- lc_channel_track
  changes : Option ℕ → Option ChanInfo → Chan → Call  -- lc_drain_channel_request
  relinks : ℕ → Call  -- a relink arms the check

unfoldable pub step : Config → Call → Channel → Channel
step cfg (checks slot read khz now) ch = (check_link cfg slot read khz now ch).0
step cfg (tracks read) ch = (track cfg read ch).0
step cfg (changes slot read c) ch = (change cfg true slot read c ch).0
step cfg (relinks now) ch = record ch { check_at = some (now + chan_check_delay_s) }

-- The pushes that the checks make.
abbrev pub pushes : Config → Call → Channel → ℕ
pushes cfg (checks slot read khz now) ch = length (check_link cfg slot read khz now ch).1
pushes cfg _ ch = 0

abbrev pub all_pushes : Config → List Call → Channel → ℕ
all_pushes cfg [] ch = 0
all_pushes cfg (c ∷ cs) ch = pushes cfg c ch + all_pushes cfg cs (step cfg c ch)

push_link-pushes :
    (slot : Option ℕ) (now : ℕ) (t : Option Chan) (ch : Channel)
    → length (push_link slot now t ch).1 + (push_link slot now t ch).0.pushes_left
      ≤ suc ch.pushes_left
unfolding push_link
push_link-pushes slot now none ch = omega arith
push_link-pushes slot now (some t) ch = omega arith

check_link-pushes :
    (cfg : Config) (slot : Option ℕ) (read : Option ChanInfo) (khz : ℕ × ℕ) (now : ℕ) (ch : Channel)
    → length (check_link cfg slot read khz now ch).1
        + (check_link cfg slot read khz now ch).0.pushes_left
      ≤ ch.pushes_left
unfolding check_link
check_link-pushes cfg slot none khz now ch = omega arith
check_link-pushes cfg slot (some info) khz now ch = elim (Bool-cases (is_settled cfg info khz ch)) [
  | inl e ↦ rw e (omega arith)
  | inr e ↦ elim (Bool-cases (ch.pushes_left == 0)) [
    | inl out ↦ rw (e, out) (omega arith)
    | inr some_left ↦
        rw (e, some_left)
          (omega (
            arith,
            positive some_left,
            push_link-pushes slot now (push_target (matches ch.wanted info) ch)
                (record ch { check_at = none; pushes_left = ch.pushes_left - 1; settled = false }),
          ))
  ]
]
  where
    positive : (ch.pushes_left == 0) ≡ false → 0 < ch.pushes_left
    positive h = ground arith

pushes-left :
    (cfg : Config) (c : Call) (ch : Channel)
    → pushes cfg c ch + (step cfg c ch).pushes_left ≤ ch.pushes_left
unfolding step track change
pushes-left cfg (checks slot read khz now) ch = check_link-pushes cfg slot read khz now ch
pushes-left cfg (tracks none) ch = omega arith
pushes-left cfg (tracks (some info)) ch = ground arith
pushes-left cfg (changes slot read c) ch = elim (Bool-cases (refuses c read)) [
  | inl e ↦ rw (e, step) (omega arith)
  | inr e ↦ rw (e, step) (kept_pushes cfg.role)
]
  where
    kept_pushes : (r : Role) → 0 + (kept r c ch).pushes_left ≤ ch.pushes_left
    kept_pushes role_ap = omega arith
    kept_pushes role_dev = omega arith
pushes-left cfg (relinks now) ch = omega arith

all_pushes-left :
    (cfg : Config) (cs : List Call) (ch : Channel) → all_pushes cfg cs ch ≤ ch.pushes_left
all_pushes-left cfg [] ch = omega arith
all_pushes-left cfg (c ∷ cs) ch =
    omega (arith, pushes-left cfg c ch, all_pushes-left cfg cs (step cfg c ch))

-- From the moment the link is up, whatever is read, requested and relinked, the checks push the
-- link at most LC_CHAN_PUSHES times on that connection.
pub all_pushes-on_connect :
    (cfg : Config) (cs : List Call) (now : ℕ) (ch : Channel)
    → all_pushes cfg cs (on_connect now ch) ≤ chan_pushes
unfolding on_connect
all_pushes-on_connect cfg cs now ch = all_pushes-left cfg cs (on_connect now ch)
