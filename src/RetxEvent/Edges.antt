-- ===== src/RetxEvent/Edges.antt =====
-- The callback counts the rising edges, no more and no less.
use ar8030_transport.Base.{
  ℕ, suc, ◌+◌, ◌≤◌, ◌≡◌, ◌≢◌, refl, ap, ◌∙◌, Bool, true, false, Option, some, List, [], ◌∷◌, ltb,
  if◌then◌else◌, arith,
}
use ar8030_transport.RetxEvent.{
  RetxState, looks_wrong, fields_of, decode, rising, Counter, count_event, on_retx_event,
  on_retx_events,
}

-- How many of the two flags are set.
abbrev pub level : RetxState → ℕ
level st = st.busy_on + st.conti_on

-- A step of the firmware: a record that decodes, of which a flag changed, not one up and the other
-- down.
pub record IsEdge (prev : RetxState) (arg : List ℕ) : Type 0 where
  pub fits : looks_wrong (fields_of arg) ≡ false
  pub changed : level (fields_of arg) ≢ level prev

-- The flags are 0 or 1.
abbrev pub HasFlags : RetxState → Type 0
HasFlags st = (st.busy_on ≤ 1) × (st.conti_on ≤ 1)

looks_right-HasFlags : (st : RetxState) → looks_wrong st ≡ false → HasFlags st
looks_right-HasFlags st h = ground arith

rising_level :
    (prev cur : RetxState)
    → HasFlags prev
    → HasFlags cur
    → level cur ≢ level prev
    → rising prev cur ≡ ltb (level prev) (level cur)
unfolding rising
rising_level prev cur p c ne = ground arith

-- A run of the firmware's steps.
abbrev pub Edges : RetxState → List (List ℕ) → Type 0
Edges prev [] = Unit
Edges prev (arg ∷ args) = IsEdge prev arg × Edges (fields_of arg) args

-- The rising ones among them.
abbrev pub count_rises : RetxState → List (List ℕ) → ℕ
count_rises prev [] = 0
count_rises prev (arg ∷ args) =
    let rest = count_rises (fields_of arg) args in
    if ltb (level prev) (level (fields_of arg)) then suc rest else rest

abbrev pub given : List (List ℕ) → List (Option (List ℕ))
given [] = []
given (arg ∷ args) = some arg ∷ given args

-- The counter after a firing that rises, or does not.
abbrev counted : Bool → RetxState → Counter → Counter
counted up st g = record g { too_many = if up then suc g.too_many else g.too_many; prev = st }

edge_counted :
    (arg : List ℕ) (g : Counter)
    → HasFlags g.prev
    → IsEdge g.prev arg
    → on_retx_event (some arg) g
      ≡ counted (ltb (level g.prev) (level (fields_of arg))) (fields_of arg) g
unfolding on_retx_event decode count_event
edge_counted arg g p edge =
    let st = fields_of arg in
    rw (edge.fits, rising_level g.prev st p (looks_right-HasFlags st edge.fits) edge.changed) refl

-- When every change of a flag raises one event, and no event raises one flag and lowers the other,
-- the callback adds exactly the rising edges.
pub on_retx_events-counts :
    (args : List (List ℕ)) (g : Counter)
    → HasFlags g.prev
    → Edges g.prev args
    → (on_retx_events (given args) g).too_many ≡ g.too_many + count_rises g.prev args
unfolding on_retx_events
on_retx_events-counts [] g p e = omega arith
on_retx_events-counts (arg ∷ args) g p (edge, rest) =
    let st = fields_of arg in
    let up = ltb (level g.prev) (level st) in
    let ih =
      on_retx_events-counts args (counted up st g) (looks_right-HasFlags st edge.fits) rest in
    ap (λ k. (on_retx_events (given args) k).too_many) (edge_counted arg g p edge)
    ∙ ih
    ∙ added up g.too_many (count_rises st args)
  where
    added : (up : Bool) (n m : ℕ) → (if up then suc n else n) + m ≡ n + (if up then suc m else m)
    added true n m = omega arith
    added false n m = omega arith
